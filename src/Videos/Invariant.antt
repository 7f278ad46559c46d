-- ===== src/Videos/Invariant.antt =====
-- What always holds of the table of videos and of the queue.
use videum_video_platform.Common.{
  ℕ, ◌≡◌, refl, ap, Bool, true, not, ◌&&◌, ◌||◌, List, Option, none, some, Text, arith, ◌==◌, All,
  All-zip, All-map_of, All-concat, is_some,
}
use videum_video_platform.Common.Tables.Laws.{All-update_where, All-update_where_same}
use videum_video_platform.Storage.{truthy}
use videum_video_platform.Videos.Model.{
  VideoStatus, uploading, processing, ready, failed, Video, Job, VideoDb, is_uploading, has_id,
  update_video, add_job,
}
use videum_video_platform.Videos.Service.{start_processing, storage_key_for}
use videum_video_platform.Videos.Processing.{thumbnail_key_for, set_ready, set_failed}

-- A video that waits for its upload has an upload id, one in processing or ready has none.
abbrev pub upload_ok : VideoStatus → Option Text → Bool
upload_ok uploading upload_id = truthy upload_id
upload_ok processing upload_id = not (is_some upload_id)
upload_ok ready upload_id = not (is_some upload_id)
upload_ok failed upload_id = true

-- A video that is ready has a duration and a thumbnail.
abbrev pub shown_ok : VideoStatus → Option ℕ → Option Text → Bool
shown_ok ready duration thumbnail = is_some duration && is_some thumbnail
shown_ok uploading duration thumbnail = true
shown_ok processing duration thumbnail = true
shown_ok failed duration thumbnail = true

abbrev pub ThumbnailBeside : Text → Option Text → Type 0
ThumbnailBeside storage_key none = Unit
ThumbnailBeside storage_key (some key) = key ≡ thumbnail_key_for storage_key

-- The function gives the storage key of each identifier.
pub record IsValidVideo (key_of : ℕ → Text) (v : Video) : Type 0 where
  pub upload : upload_ok v.status v.upload_id ≡ true
  pub shown : shown_ok v.status v.duration_seconds v.thumbnail_key ≡ true
  pub stored : v.storage_key ≡ storage_key_for v.public_id
  pub keyed : v.storage_key ≡ key_of v.id
  pub thumbnail : ThumbnailBeside v.storage_key v.thumbnail_key

-- A video that has a job is past its upload.
abbrev pub past_upload : Job → Video → Bool
past_upload j v =
    not (v.id == j.video_id) || (not (is_uploading v.status) && not (is_some v.upload_id))

abbrev pub IsStarted : List Video → Job → Type 0
IsStarted videos j = All (λ v. past_upload j v ≡ true) videos

pub record IsValid (key_of : ℕ → Text) (db : VideoDb) : Type 0 where
  pub videos : All (IsValidVideo key_of) db.videos
  pub keys : All (λ j. j.storage_key ≡ key_of j.video_id) db.jobs
  pub started : All (IsStarted db.videos) db.jobs

module _ (key_of : ℕ → Text) where
  -- An update that keeps every video valid and every started video started.
  update_video-IsValid :
      (id : ℕ) (change : Video → Video) (db : VideoDb)
      → ((v : Video) → IsValidVideo key_of v → v.id ≡ id → IsValidVideo key_of (change v))
      → ((j : Job) (v : Video) → past_upload j v ≡ true → past_upload j (change v) ≡ true)
      → IsValid key_of db
      → IsValid key_of (update_video id change db)
  unfolding update_video
  update_video-IsValid id change db keep still valid = record {
    videos =
        All-update_where _ _ (has_id id) change db.videos (λ v h same. keep v h (ground arith))
          (λ v h other. h) valid.videos;
    keys = valid.keys;
    started =
        All-map_of _ _ db.jobs
          (λ j h. All-update_where_same _ (has_id id) change db.videos (still j) h) valid.started;
  }

  pub start_processing-IsValid :
      (id : ℕ) (db : VideoDb)
      → IsValid key_of db
      → IsValid key_of (update_video id start_processing db)
  start_processing-IsValid id db valid =
      update_video-IsValid id start_processing db
        (λ v h same. record {
          upload = refl;
          shown = refl;
          stored = h.stored;
          keyed = h.keyed;
          thumbnail = h.thumbnail;
        })
        (λ j v h. ground arith) valid

  pub set_failed-IsValid :
      (id : ℕ) (db : VideoDb) → IsValid key_of db → IsValid key_of (update_video id set_failed db)
  set_failed-IsValid id db valid =
      update_video-IsValid id set_failed db
        (λ v h same. record {
          upload = refl;
          shown = refl;
          stored = h.stored;
          keyed = h.keyed;
          thumbnail = h.thumbnail;
        })
        (λ j v h. ground arith) valid

  -- A started video with a job for its key.
  pub add_job-IsValid :
      (job : Job) (db : VideoDb)
      → job.storage_key ≡ key_of job.video_id
      → IsValid key_of db
      → IsValid key_of (add_job job (update_video job.video_id start_processing db))
  unfolding add_job update_video
  add_job-IsValid job db keyed valid =
      let started = start_processing-IsValid job.video_id db valid in
      record {
        videos = started.videos;
        keys = All-concat _ db.jobs job valid.keys keyed;
        started = All-concat _ db.jobs job started.started (
            All-update_where (IsValidVideo key_of) _ (has_id job.video_id) start_processing
              db.videos (λ v h same. ground arith) (λ v h other. ground arith) valid.videos);
      }

  -- The worker's update for a job of the queue.
  pub set_ready-IsValid :
      (seconds : ℕ) (job : Job) (db : VideoDb)
      → job.storage_key ≡ key_of job.video_id
      → IsStarted db.videos job
      → IsValid key_of db
      → IsValid key_of
          (update_video job.video_id (set_ready seconds (thumbnail_key_for job.storage_key)) db)
  unfolding update_video
  set_ready-IsValid seconds job db keyed started valid = record {
    videos =
        All-update_where (λ v. IsValidVideo key_of v × (past_upload job v ≡ true)) _
          (has_id job.video_id) _ db.videos
          (λ v h same. record {
            upload = ground arith;
            shown = refl;
            stored = h.0.stored;
            keyed = h.0.keyed;
            thumbnail = ap thumbnail_key_for (ground arith);
          })
          (λ v h other. h.0) (All-zip _ _ _ valid.videos started);
    keys = valid.keys;
    started =
        All-map_of _ _ db.jobs
          (λ j h.
            All-update_where_same _ (has_id job.video_id) _ db.videos (λ v past. ground arith) h)
          valid.started;
  }
