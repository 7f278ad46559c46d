-- ===== src/Videos/Transfers.antt =====
-- The worker of nestjs-project/src/videos/processors/video-processing.processor.ts with the transfers
-- of nestjs-project/src/storage/storage.service.ts: a source that cannot be fetched fails the video.
use videum_video_platform.Common.{
  ◌≡◌, true, false, ◌⊎◌, inl, inr, Option, none, some, Text, codes, Action, err, internal, find_one,
}
use videum_video_platform.Storage.{Reply, resolved, rejected, S3Error}
use videum_video_platform.Storage.Transfers.{download_to_file, put_object, succeeds}
use videum_video_platform.Videos.Model.{Video, VideoDb, Job, is_ready, has_id, update_video}
use videum_video_platform.Videos.Processing.{Worker, process, try_process, set_failed}

module _ {F : Type 0} (get_object : Text → Reply (Option Text))
    (pipeline : Text → Text → Action F (Unit {0})) (send : Text → Text → Text → Reply (Unit {0}))
    (files : F) (source_path thumbnail : Text) where
  -- The worker whose transfers are those of the storage service.
  unfoldable pub with_storage : Worker → Worker
  unfolding download_to_file put_object
  with_storage w = record w {
    download_to_file =
        λ key. succeeds (download_to_file get_object pipeline key source_path files).0;
    put_object = λ key. succeeds (put_object send key thumbnail (codes "image/jpeg"));
  }

  -- The job of a video that is not ready fails, and so does the video, if the storage rejects the
  -- request for its source or answers without a body.
  pub process-of_missing_source :
      (w : Worker) (job : Job) (db : VideoDb) (v : Video)
      → find_one (has_id job.video_id) db.videos ≡ some v
      → is_ready v.status ≡ false
      → w.mkdtemp ≡ true
      → ((error : S3Error) × (get_object job.storage_key ≡ rejected error))
        ⊎ (get_object job.storage_key ≡ resolved none)
      → process (with_storage w) job db ≡ (err internal, update_video job.video_id set_failed db)
  unfolding process try_process with_storage
  process-of_missing_source w job db v found pending dir (inl (error, refused)) =
      rw (found, pending, dir, refused)
  process-of_missing_source w job db v found pending dir (inr empty) =
      rw (found, pending, dir, empty)
