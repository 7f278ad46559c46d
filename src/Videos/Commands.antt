-- ===== src/Videos/Commands.antt =====
-- The commands that reach the table of videos, as data, and a sequence of them run one after the
-- other: requests of nestjs-project/src/videos/videos.service.ts that write, runs of the worker on
-- a job of the queue, and sweeps.
use videum_video_platform.Common.{
  ℕ, zero, suc, ◌≢◌, Bool, List, [], ◌∷◌, Option, none, some, Text, All,
}
use videum_video_platform.Storage.{S3, CompletedPart}
use videum_video_platform.Videos.Model.{Job, VideoDb}
use videum_video_platform.Videos.Service.{CreateVideoDto, Draw, create_draft, complete_upload}
use videum_video_platform.Videos.Processing.{Worker, process}
use videum_video_platform.Videos.Reconciliation.{sweep}

pub data Command : Type 0 where
  -- the storage, the part size, what is drawn, the owner, the body
  create : S3 → ℕ → Draw → ℕ → CreateVideoDto → Command
  -- the storage, the queue's answer, the caller, the public id, the body
  complete : S3 → Bool → ℕ → Text → List CompletedPart → Command
  -- the worker and the position of the job in the queue; a job may run more than once
  work : Worker → ℕ → Command
  -- the storage, the queue's answers, the time, the timeout
  reconcile_stale : S3 → (ℕ → Bool) → ℕ → ℕ → Command

abbrev pub nth_job : ℕ → List Job → Option Job
nth_job n [] = none
nth_job zero (j ∷ jobs) = some j
nth_job (suc n) (j ∷ jobs) = nth_job n jobs

abbrev pub work_on : Worker → Option Job → VideoDb → VideoDb
work_on w none db = db
work_on w (some job) db = (process w job db).1

-- The tables after one command, whatever it answers.
unfoldable pub run : Command → VideoDb → VideoDb
run (create s3 part_size d owner_id dto) db = (create_draft s3 part_size d owner_id dto db).1
run (complete s3 queue_accepts user public_id parts) db =
    (complete_upload s3 queue_accepts user public_id parts db).1
run (work w n) db = work_on w (nth_job n db.jobs) db
run (reconcile_stale s3 queue_accepts now timeout) db = sweep s3 queue_accepts now timeout db

unfoldable pub run_all : List Command → VideoDb → VideoDb
unfolding run
run_all [] db = db
run_all (c ∷ commands) db = run_all commands (run c db)

-- The identifier that the database gives to a new row is new.
abbrev pub IsFreshRow : Command → VideoDb → Type 0
IsFreshRow (create s3 part_size d owner_id dto) db =
    All (λ v. v.id ≢ d.row_id) db.videos × All (λ j. j.video_id ≢ d.row_id) db.jobs
IsFreshRow _ db = Unit

abbrev pub AreFreshRows : List Command → VideoDb → Type 0
AreFreshRows [] db = Unit
AreFreshRows (c ∷ commands) db = IsFreshRow c db × AreFreshRows commands (run c db)
