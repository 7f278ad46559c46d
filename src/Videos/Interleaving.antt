-- ===== src/Videos/Interleaving.antt =====
-- A sweep of nestjs-project/src/videos/processors/upload-reconciliation.processor.ts that requests,
-- runs of the worker and other sweeps interrupt: it lists the stale rows once, and then treats one
-- after the other.
pub mod Rows
pub mod Kept
pub mod Overwritten
use videum_video_platform.Common.{ℕ, ◌-◌, Bool, List, [], ◌∷◌}
use videum_video_platform.Storage.{S3}
use videum_video_platform.Videos.Model.{Video, VideoDb}
use videum_video_platform.Videos.Reconciliation.{stale_videos, reconcile}
use videum_video_platform.Videos.Commands.{Command, run, IsFreshRow}

-- Where a thread stands: before the query of a sweep, with the rows that are left of its result, or
-- with the commands that are left to a client or a worker.
pub data ThreadPoint : Type 0 where
  -- the storage, the queue's answers, the time, the timeout
  listing : S3 → (ℕ → Bool) → ℕ → ℕ → ThreadPoint
  reconciling : S3 → (ℕ → Bool) → List Video → ThreadPoint
  serving : List Command → ThreadPoint

pub data Move (db : VideoDb) : ThreadPoint → VideoDb → ThreadPoint → Type 0 where
  list_stale :
      (s3 : S3) (queue_accepts : ℕ → Bool) (now timeout : ℕ)
      → Move db
          (listing s3 queue_accepts now timeout)
          db
          (reconciling s3 queue_accepts (stale_videos (now - timeout) db.videos))
  reconcile_next :
      (s3 : S3) (queue_accepts : ℕ → Bool) (v : Video) (stale : List Video)
      → Move db
          (reconciling s3 queue_accepts (v ∷ stale))
          (reconcile s3 queue_accepts v db).1
          (reconciling s3 queue_accepts stale)
  serve :
      (c : Command) (commands : List Command)
      → IsFreshRow c db
      → Move db (serving (c ∷ commands)) (run c db) (serving commands)
