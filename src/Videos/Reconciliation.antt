-- ===== src/Videos/Reconciliation.antt =====
-- nestjs-project/src/videos/processors/upload-reconciliation.processor.ts. The queue's answers are
-- an argument: whether it accepts the job of a video.
use videum_video_platform.Common.{
  ℕ, ◌-◌, Bool, ◌&&◌, List, [], ◌∷◌, Option, none, some, Result, ok, err, internal, ltb,
  if◌then◌else◌,
}
use videum_video_platform.Storage.{S3, head_object}
use videum_video_platform.Videos.Model.{Video, VideoDb, is_uploading, update_video, add_job}
use videum_video_platform.Videos.Service.{start_processing}
use videum_video_platform.Videos.Processing.{set_failed}

-- `{ status: 'uploading', created_at: LessThan(cutoff) }`
abbrev pub is_stale : ℕ → Video → Bool
is_stale cutoff v = is_uploading v.status && ltb v.created_at cutoff

unfoldable pub stale_videos : ℕ → List Video → List Video
stale_videos cutoff [] = []
stale_videos cutoff (v ∷ videos) =
    if is_stale cutoff v then v ∷ stale_videos cutoff videos else stale_videos cutoff videos

-- `reconcile`, given what `headObject` answers.
abbrev pub reconcile_head :
    (ℕ → Bool) → Video → Result (Option ℕ) → VideoDb → Result (Unit {0}) × VideoDb
reconcile_head queue_accepts v (err e) db = (err e, db)
reconcile_head queue_accepts v (ok none) db = (ok tt, update_video v.id set_failed db)
reconcile_head queue_accepts v (ok (some size)) db =
    let rescued = update_video v.id start_processing db in
    if queue_accepts v.id
    then (ok tt, add_job (record { video_id = v.id; storage_key = v.storage_key }) rescued)
    else (err internal, rescued)

unfoldable pub reconcile : S3 → (ℕ → Bool) → Video → VideoDb → Result (Unit {0}) × VideoDb
reconcile s3 queue_accepts v db = reconcile_head queue_accepts v (head_object s3 v.storage_key) db

-- The loop of `process`: an error of one video is caught, and the loop goes on.
unfoldable pub reconcile_all : S3 → (ℕ → Bool) → List Video → VideoDb → VideoDb
unfolding reconcile
reconcile_all s3 queue_accepts [] db = db
reconcile_all s3 queue_accepts (v ∷ stale) db =
    reconcile_all s3 queue_accepts stale (reconcile s3 queue_accepts v db).1

-- `process`
unfoldable pub sweep : S3 → (ℕ → Bool) → ℕ → ℕ → VideoDb → VideoDb
unfolding stale_videos reconcile_all
sweep s3 queue_accepts now abandoned_upload_timeout_ms db =
    let stale = stale_videos (now - abandoned_upload_timeout_ms) db.videos in
    reconcile_all s3 queue_accepts stale db
