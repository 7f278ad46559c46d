-- ===== src/Videos/Model.antt =====
-- The table of videos (nestjs-project/src/videos/entities/video.entity.ts) and the queue of
-- processing jobs (nestjs-project/src/videos/videos.constants.ts). The identifiers of rows and
-- users are only compared, so they are numbers; times are milliseconds.
use videum_video_platform.Common.{
  ℕ, Bool, true, false, ◌&&◌, ◌||◌, List, [], ◌∷◌, ◌++◌, Option, none, some, Text, text_eq,
  find_one, update_where, char_count, leb, ◌==◌, is_some,
}

pub data VideoStatus : Type 0 where
  uploading processing ready failed : VideoStatus

pub record Video : Type 0 where
  pub id : ℕ
  pub public_id : Text
  pub owner_id : ℕ
  pub title : Text
  pub original_filename : Text
  pub storage_key : Text
  pub upload_id : Option Text
  pub size_bytes : ℕ
  pub content_type : Text
  pub status : VideoStatus
  pub duration_seconds : Option ℕ
  pub thumbnail_key : Option Text
  pub created_at : ℕ

-- `ProcessVideoJobData`
pub record Job : Type 0 where
  pub video_id : ℕ
  pub storage_key : Text

-- The table, and the jobs ever added to the queue, the newest last.
pub record VideoDb : Type 0 where
  pub videos : List Video
  pub jobs : List Job

abbrev pub is_uploading : VideoStatus → Bool
is_uploading uploading = true
is_uploading processing = false
is_uploading ready = false
is_uploading failed = false

abbrev pub is_ready : VideoStatus → Bool
is_ready uploading = false
is_ready processing = false
is_ready ready = true
is_ready failed = false

abbrev pub has_public_id : Text → Video → Bool
has_public_id public_id v = text_eq v.public_id public_id

abbrev pub has_id : ℕ → Video → Bool
has_id id v = v.id == id

unfoldable pub find_by_public_id : Text → VideoDb → Option Video
find_by_public_id public_id db = find_one (has_public_id public_id) db.videos

-- `videoRepository.update({ id }, changes)`, and `save` of a row that is in the table.
unfoldable pub update_video : ℕ → (Video → Video) → VideoDb → VideoDb
update_video id change db = record db { videos = update_where (has_id id) change db.videos }

-- `processingQueue.add`
unfoldable pub add_job : Job → VideoDb → VideoDb
add_job job db = record db { jobs = db.jobs ++ job ∷ [] }

abbrev pub fits_upload_id : Option Text → Bool
fits_upload_id none = true
fits_upload_id (some id) = leb (char_count id) 255

-- The lengths of the columns.
unfoldable pub fits_columns : Video → Bool
fits_columns v =
    leb (char_count v.title) 255
    && leb (char_count v.original_filename) 255
    && leb (char_count v.storage_key) 512
    && leb (char_count v.content_type) 127
    && fits_upload_id v.upload_id

-- The unique columns `public_id` and `storage_key`.
unfoldable pub clashes : Video → List Video → Bool
clashes v videos =
    is_some (find_one (λ w. text_eq w.public_id v.public_id) videos)
    || is_some (find_one (λ w. text_eq w.storage_key v.storage_key) videos)
