-- ===== src/Videos/Service.antt =====
-- nestjs-project/src/videos/videos.service.ts, without `onModuleInit`.
use videum_video_platform.Common.{
  ℕ, Bool, false, ◌&&◌, ◌||◌, not, List, Option, none, some, Text, codes, ◌++◌, Result, Action,
  ◌>>=◌, ◌>>◌, pure, throw, throw_if, or_throw, gets, modify, ok, err, internal, video_not_found,
  not_video_owner, upload_already_finalized, upload_object_missing, upload_size_mismatch,
  video_not_ready, insert, ◌==◌, if◌then◌else◌,
}
use videum_video_platform.Storage.{
  S3, Reply, resolved, rejected, CompletedPart, PresignedPart, initiate_multipart_upload,
  complete_multipart_upload, head_object, get_presigned_get_url, truthy,
}
use videum_video_platform.Videos.Model.{
  VideoStatus, uploading, processing, Video, VideoDb, is_uploading, is_ready, find_by_public_id,
  update_video, add_job, fits_columns, clashes,
}

-- `CreateVideoDto`
pub record CreateVideoDto : Type 0 where
  pub title : Text
  pub filename : Text
  pub content_type : Text
  pub size_bytes : ℕ

pub record CreateVideoResult : Type 0 where
  pub public_id : Text
  pub upload_id : Text
  pub storage_key : Text
  pub parts : List PresignedPart

pub record CompleteUploadResult : Type 0 where
  pub public_id : Text
  pub status : VideoStatus

pub record VideoPlaybackResult : Type 0 where
  pub public_id : Text
  pub title : Text
  pub status : VideoStatus
  pub duration_seconds : Option ℕ
  pub thumbnail_url : Option Text
  pub playback_url : Option Text

-- What `createDraft` draws: the `uuidv7`, the row's identifier and the time.
pub record Draw : Type 0 where
  pub public_id : Text
  pub row_id : ℕ
  pub now : ℕ

-- `videos/${publicId}/original`
unfoldable pub storage_key_for : Text → Text
storage_key_for public_id = codes "videos/" ++ (public_id ++ codes "/original")

-- The row that `createDraft` saves.
unfoldable pub draft : Draw → ℕ → CreateVideoDto → Text → Video
unfolding storage_key_for
draft d owner_id dto upload_id = record {
  id = d.row_id;
  public_id = d.public_id;
  owner_id = owner_id;
  title = dto.title;
  original_filename = dto.filename;
  storage_key = storage_key_for d.public_id;
  upload_id = some upload_id;
  size_bytes = dto.size_bytes;
  content_type = dto.content_type;
  status = uploading;
  duration_seconds = none;
  thumbnail_key = none;
  created_at = d.now;
}

-- `videoRepository.save` of a new row, which the table's constraints may refuse.
unfoldable pub save_new_video : Video → Action VideoDb (Unit {0})
unfolding fits_columns clashes
save_new_video v db =
    if fits_columns v && not (clashes v db.videos)
    then (ok tt, record db { videos = insert v db.videos })
    else (err internal, db)

abbrev pub returned : {A : Type 0} → Result A → Action VideoDb A
returned r db = (r, db)

-- `createDraft`
unfoldable pub create_draft : S3 → ℕ → Draw → ℕ → CreateVideoDto → Action VideoDb CreateVideoResult
unfolding draft save_new_video storage_key_for
create_draft s3 part_size d owner_id dto = do
  let storage_key = storage_key_for d.public_id
  upload ←
      returned (initiate_multipart_upload s3 part_size storage_key dto.content_type dto.size_bytes)
  save_new_video (draft d owner_id dto upload.upload_id)
  pure (record {
    public_id = d.public_id;
    upload_id = upload.upload_id;
    storage_key = storage_key;
    parts = upload.parts;
  })

-- The `try` and `catch` around the completion of the multipart upload.
abbrev pub or_object_missing : Reply (Unit {0}) → Action VideoDb (Unit {0})
or_object_missing (resolved _) = pure tt
or_object_missing (rejected _) = throw upload_object_missing

abbrev pub or_empty : Option Text → Text
or_empty none = codes ""
or_empty (some id) = id

abbrev pub start_processing : Video → Video
start_processing v = record v { status = processing; upload_id = none }

-- `completeUpload`; the Boolean says whether the queue accepts the job.
unfoldable pub complete_upload :
    S3 → Bool → ℕ → Text → List CompletedPart → Action VideoDb CompleteUploadResult
unfolding find_by_public_id update_video add_job complete_multipart_upload head_object
complete_upload s3 queue_accepts owner_id public_id parts = do
  found ← gets (find_by_public_id public_id)
  video ← or_throw found video_not_found
  throw_if (not (video.owner_id == owner_id)) not_video_owner
  throw_if (not (is_uploading video.status) || not (truthy video.upload_id))
      upload_already_finalized
  or_object_missing
      (complete_multipart_upload s3 video.storage_key (or_empty video.upload_id) parts)
  head ← returned (head_object s3 video.storage_key)
  size ← or_throw head upload_object_missing
  throw_if (not (size == video.size_bytes)) upload_size_mismatch
  modify (update_video video.id start_processing)
  throw_if (not queue_accepts) internal
  modify (add_job (record { video_id = video.id; storage_key = video.storage_key }))
  pure (record { public_id = video.public_id; status = processing })

abbrev pub is_requester : Option ℕ → Video → Bool
is_requester none v = false
is_requester (some requester_id) v = v.owner_id == requester_id

-- `findVisibleVideo`
unfoldable pub find_visible_video : Text → Option ℕ → Action VideoDb Video
unfolding find_by_public_id
find_visible_video public_id requester_id = do
  found ← gets (find_by_public_id public_id)
  video ← or_throw found video_not_found
  throw_if (not (is_ready video.status) && not (is_requester requester_id video)) video_not_found
  pure video

abbrev pub presigned : S3 → Option Text → Option Text
presigned s3 none = none
presigned s3 (some key) =
    if truthy (some key) then some (get_presigned_get_url s3 key none) else none

-- `getForPlayback`
unfoldable pub get_for_playback : S3 → Text → Option ℕ → Action VideoDb VideoPlaybackResult
get_for_playback s3 public_id requester_id = do
  video ← find_visible_video public_id requester_id
  pure (record {
    public_id = video.public_id;
    title = video.title;
    status = video.status;
    duration_seconds = video.duration_seconds;
    thumbnail_url = presigned s3 video.thumbnail_key;
    playback_url =
        if is_ready video.status
        then some (get_presigned_get_url s3 video.storage_key none)
        else none;
  })

-- `getDownloadUrl`
unfoldable pub get_download_url : S3 → Text → Option ℕ → Action VideoDb Text
get_download_url s3 public_id requester_id = do
  video ← find_visible_video public_id requester_id
  throw_if (not (is_ready video.status)) video_not_ready
  pure (get_presigned_get_url s3 video.storage_key (some video.original_filename))
