-- ===== src/Videos/Preservation.antt =====
-- Every command keeps the invariant of the table of videos and of the queue.
use videum_video_platform.Common.{
  ℕ, ◌-◌, zero, suc, ◌≡◌, refl, ◌≢◌, ◌⊎◌, inl, inr, Bool, true, not, ◌&&◌, List, [], ◌∷◌, Option,
  none, some, Text, Result, ok, err, Bool-cases, Option-cases, arith, ◌==◌, find_one, insert, All,
  All-zip, All-map_of, if◌then◌else◌, subst,
}
use videum_video_platform.Common.Tables.Laws.{find_one-All, All-insert}
use videum_video_platform.Storage.{
  S3, CompletedPart, truthy, initiate_multipart_upload, MultipartUploadInit, head_object,
}
use videum_video_platform.Storage.Parts.{initiate_multipart_upload_parts}
use videum_video_platform.Videos.Model.{
  Video, Job, VideoDb, has_id, find_by_public_id, update_video, add_job, fits_columns, clashes,
  is_ready,
}
use videum_video_platform.Videos.Service.{
  CreateVideoDto, Draw, start_processing, storage_key_for, draft, create_draft, complete_upload,
}
use videum_video_platform.Videos.Processing.{
  Worker, process, finish, try_process, thumbnail_key_for, round_seconds,
}
use videum_video_platform.Videos.Reconciliation.{
  reconcile, reconcile_head, reconcile_all, sweep, stale_videos, is_stale,
}
use videum_video_platform.Videos.Commands.{
  Command, create, complete, work, reconcile_stale, nth_job, run, run_all, IsFreshRow, AreFreshRows,
}
use videum_video_platform.Videos.Invariant.{
  IsValidVideo, IsValid, IsStarted, past_upload, start_processing-IsValid, set_failed-IsValid,
  add_job-IsValid, set_ready-IsValid,
}

-- What a completion writes: nothing, the row, or the row and its job.
pub complete_upload-writes :
    (s3 : S3) (queue_accepts : Bool) (user : ℕ) (public_id : Text) (parts : List CompletedPart)
    (db : VideoDb) (v : Video)
    → find_by_public_id public_id db ≡ some v
    → let db' = (complete_upload s3 queue_accepts user public_id parts db).1 in
      (db' ≡ db)
      ⊎ (db' ≡ update_video v.id start_processing db)
      ⊎ (db'
          ≡ add_job
              (record { video_id = v.id; storage_key = v.storage_key })
              (update_video v.id start_processing db))
unfolding complete_upload
complete_upload-writes s3 queue_accepts user public_id parts db v found = ground arith

pub complete_upload-unknown :
    (s3 : S3) (queue_accepts : Bool) (user : ℕ) (public_id : Text) (parts : List CompletedPart)
    (db : VideoDb)
    → find_by_public_id public_id db ≡ none
    → (complete_upload s3 queue_accepts user public_id parts db).1 ≡ db
unfolding complete_upload
complete_upload-unknown s3 queue_accepts user public_id parts db unknown = rw unknown

complete_upload-IsValid :
    (s3 : S3) (queue_accepts : Bool) (user : ℕ) (public_id : Text) (parts : List CompletedPart)
    (key_of : ℕ → Text) (db : VideoDb)
    → IsValid key_of db
    → IsValid key_of (complete_upload s3 queue_accepts user public_id parts db).1
unfolding find_by_public_id
complete_upload-IsValid s3 queue_accepts user public_id parts key_of db valid =
    elim (Option-cases (find_by_public_id public_id db)) [
      | inl unknown ↦
          rw (complete_upload-unknown s3 queue_accepts user public_id parts db unknown) valid
      | inr (v, found) ↦
          elim (complete_upload-writes s3 queue_accepts user public_id parts db v found) [
            | inl same ↦ rw same valid
            | inr (inl row) ↦ rw row (start_processing-IsValid key_of v.id db valid)
            | inr (inr both) ↦ rw both (
                add_job-IsValid key_of _ db
                  (find_one-All _ (IsValidVideo key_of) _ valid.videos found).keyed valid)
          ]
    ]

module _ (key_of : ℕ → Text) (queue_accepts : ℕ → Bool) where
  pub reconcile_head-IsValid :
      (v : Video) (head : Result (Option ℕ)) (db : VideoDb)
      → v.storage_key ≡ key_of v.id
      → IsValid key_of db
      → IsValid key_of (reconcile_head queue_accepts v head db).1
  reconcile_head-IsValid v (err e) db keyed valid = valid
  reconcile_head-IsValid v (ok none) db keyed valid = set_failed-IsValid key_of v.id db valid
  reconcile_head-IsValid v (ok (some size)) db keyed valid =
      elim (Bool-cases (queue_accepts v.id)) [
        | inl accepted ↦ rw accepted (add_job-IsValid key_of _ db keyed valid)
        | inr refused ↦ rw refused (start_processing-IsValid key_of v.id db valid)
      ]

  reconcile_all-IsValid :
      (s3 : S3) (stale : List Video) (db : VideoDb)
      → All (λ v. v.storage_key ≡ key_of v.id) stale
      → IsValid key_of db
      → IsValid key_of (reconcile_all s3 queue_accepts stale db)
  unfolding reconcile_all reconcile
  reconcile_all-IsValid s3 [] db keyed valid = valid
  reconcile_all-IsValid s3 (v ∷ stale) db (key, keyed) valid =
      reconcile_all-IsValid s3 stale _ keyed
        (reconcile_head-IsValid v (head_object s3 v.storage_key) db key valid)

stale_videos-keyed :
    (key_of : ℕ → Text) (cutoff : ℕ) (videos : List Video)
    → All (IsValidVideo key_of) videos
    → All (λ v. v.storage_key ≡ key_of v.id) (stale_videos cutoff videos)
unfolding stale_videos
stale_videos-keyed key_of cutoff [] h = tt
stale_videos-keyed key_of cutoff (v ∷ videos) (first, rest) =
    elim (Bool-cases (is_stale cutoff v)) [
      | inl old ↦ rw old (first.keyed, stale_videos-keyed key_of cutoff videos rest)
      | inr young ↦ rw young (stale_videos-keyed key_of cutoff videos rest)
    ]

module _ (key_of : ℕ → Text) where
  -- The worker stores the key of the job's own thumbnail.
  try_process-key :
      (w : Worker) (key : Text) {micros : ℕ} {thumbnail : Text}
      → try_process w key ≡ some (micros, thumbnail)
      → thumbnail ≡ thumbnail_key_for key
  unfolding try_process
  try_process-key w key done = ground arith

  finish-IsValid :
      (w : Worker) (job : Job) (db : VideoDb)
      → job.storage_key ≡ key_of job.video_id
      → IsStarted db.videos job
      → IsValid key_of db
      → IsValid key_of (finish job.video_id (try_process w job.storage_key) db).1
  finish-IsValid w job db keyed started valid =
      elim (Option-cases (try_process w job.storage_key)) [
        | inl broken ↦ rw broken (set_failed-IsValid key_of job.video_id db valid)
        | inr ((micros, thumbnail), done) ↦
            rw (done, try_process-key w job.storage_key done)
              (set_ready-IsValid key_of (round_seconds micros) job db keyed started valid)
      ]

  process-IsValid :
      (w : Worker) (job : Job) (db : VideoDb)
      → job.storage_key ≡ key_of job.video_id
      → IsStarted db.videos job
      → IsValid key_of db
      → IsValid key_of (process w job db).1
  unfolding process try_process
  process-IsValid w job db keyed started valid =
      elim (Option-cases (find_one (has_id job.video_id) db.videos)) [
        | inl unknown ↦ rw unknown valid
        | inr (video, found) ↦ elim (Bool-cases (is_ready video.status)) [
          | inl done ↦ rw (found, done) valid
          | inr pending ↦ elim (Bool-cases w.mkdtemp) [
            | inr no_dir ↦ rw (found, pending, no_dir) valid
            | inl dir ↦ rw (found, pending, dir) (finish-IsValid w job db keyed started valid)
          ]
        ]
      ]

-- The row that a draft adds.
module _ (s3 : S3) (part_size : ℕ) (d : Draw) (owner_id : ℕ) (dto : CreateVideoDto)
    (db : VideoDb) where
  -- A draft writes nothing, or adds its row, with an upload id that is not empty.
  pub create_draft-writes :
      ((create_draft s3 part_size d owner_id dto db).1 ≡ db)
      ⊎ ((upload_id : Text) × (truthy (some upload_id) ≡ true)
          × ((create_draft s3 part_size d owner_id dto db).1
              ≡ record db { videos = insert (draft d owner_id dto upload_id) db.videos }))
  unfolding create_draft storage_key_for
  create_draft-writes = go _ refl
    where
      go :
          (r : Result MultipartUploadInit)
          → initiate_multipart_upload s3 part_size
              (storage_key_for d.public_id)
              dto.content_type
              dto.size_bytes
            ≡ r
          → ((create_draft s3 part_size d owner_id dto db).1 ≡ db)
            ⊎ ((upload_id : Text) × (truthy (some upload_id) ≡ true)
                × ((create_draft s3 part_size d owner_id dto db).1
                    ≡ record db { videos = insert (draft d owner_id dto upload_id) db.videos }))
      go (err e) failed = inl (rw failed)
      go (ok init) begun =
          let row = draft d owner_id dto init.upload_id in
          elim (Bool-cases (fits_columns row && not (clashes row db.videos))) [
            | inl saved ↦ inr (
              init.upload_id,
              (initiate_multipart_upload_parts s3 part_size dto.size_bytes _ dto.content_type init
                  begun).2,
              rw (begun, saved),
            )
            | inr refused ↦ inl (rw (begun, refused))
          ]

  insert-draft-IsValid :
      (key_of : ℕ → Text) (upload_id : Text)
      → truthy (some upload_id) ≡ true
      → All (λ v. v.id ≢ d.row_id) db.videos
      → All (λ j. j.video_id ≢ d.row_id) db.jobs
      → IsValid key_of db
      → let key_of' = λ (i : ℕ). if i == d.row_id then storage_key_for d.public_id else key_of i in
        IsValid key_of' (record db { videos = insert (draft d owner_id dto upload_id) db.videos })
  unfolding draft
  insert-draft-IsValid key_of upload_id whole fresh fresh_jobs valid = record {
    videos =
        All-insert _ _ db.videos
          (All-map_of (λ v. IsValidVideo key_of v × (v.id ≢ d.row_id)) _ db.videos
            (λ v h. record {
              upload = h.0.upload;
              shown = h.0.shown;
              stored = h.0.stored;
              keyed = ground arith;
              thumbnail = h.0.thumbnail;
            })
            (All-zip _ _ db.videos valid.videos fresh))
          (record {
            upload = whole;
            shown = refl;
            stored = refl;
            keyed = ground arith;
            thumbnail = tt;
          });
    keys =
        All-map_of (λ j. (j.storage_key ≡ key_of j.video_id) × (j.video_id ≢ d.row_id)) _ db.jobs
          (λ j h. ground arith) (All-zip _ _ db.jobs valid.keys fresh_jobs);
    started =
        All-map_of (λ j. IsStarted db.videos j × (j.video_id ≢ d.row_id)) _ db.jobs
          (λ j h. All-insert (λ v. past_upload j v ≡ true) _ db.videos h.0 (ground arith))
          (All-zip _ _ db.jobs valid.started fresh_jobs);
  }

nth_job-All :
    (P : Job → Type 0) (n : ℕ) (jobs : List Job) {job : Job}
    → All P jobs
    → nth_job n jobs ≡ some job
    → P job
nth_job-All P n [] all e = absurd (cc)
nth_job-All P zero (j ∷ jobs) {job} all e = let same : j ≡ job = cc in subst P same all.0
nth_job-All P (suc n) (j ∷ jobs) all e = nth_job-All P n jobs all.1 e

-- Every command keeps the table valid: a video that waits has an upload id and one that is in
-- processing or ready has none, one that is ready has a duration and a thumbnail, storage keys
-- follow from the public ids and thumbnails from the storage keys, and every job is for the key of
-- a video that is past its upload. The identifier of a new row is taken to be new.
pub run-IsValid :
    (c : Command) (db : VideoDb) (key_of : ℕ → Text)
    → IsValid key_of db
    → IsFreshRow c db
    → (key_of' : ℕ → Text) × IsValid key_of' (run c db)
unfolding run sweep
run-IsValid (create s3 part_size d owner_id dto) db key_of valid (fresh, fresh_jobs) =
    elim (create_draft-writes s3 part_size d owner_id dto db) [
      | inl same ↦ (key_of, rw same valid)
      | inr (upload_id, whole, added) ↦ (
        λ i. if i == d.row_id then storage_key_for d.public_id else key_of i,
        rw added (
            insert-draft-IsValid s3 part_size d owner_id dto db key_of upload_id whole fresh
              fresh_jobs valid),
      )
    ]
run-IsValid (complete s3 queue_accepts user public_id parts) db key_of valid fresh =
    (key_of, complete_upload-IsValid s3 queue_accepts user public_id parts key_of db valid)
run-IsValid (work w n) db key_of valid fresh = elim (Option-cases (nth_job n db.jobs)) [
  | inl no_job ↦ (key_of, rw no_job valid)
  | inr (job, taken) ↦ (
    key_of,
    rw taken (
        process-IsValid key_of w job db
          (nth_job-All (λ j. j.storage_key ≡ key_of j.video_id) n db.jobs valid.keys taken)
          (nth_job-All (IsStarted db.videos) n db.jobs valid.started taken) valid),
  )
]
run-IsValid (reconcile_stale s3 queue_accepts now timeout) db key_of valid fresh = (
  key_of,
  reconcile_all-IsValid key_of queue_accepts s3 _ db
      (stale_videos-keyed key_of (now - timeout) db.videos valid.videos) valid,
)

-- So does every sequence of commands.
pub run_all-IsValid :
    (commands : List Command) (db : VideoDb) (key_of : ℕ → Text)
    → IsValid key_of db
    → AreFreshRows commands db
    → (key_of' : ℕ → Text) × IsValid key_of' (run_all commands db)
unfolding run_all
run_all-IsValid [] db key_of valid fresh = (key_of, valid)
run_all-IsValid (c ∷ commands) db key_of valid (fresh, later) =
    let (key_of', valid') = run-IsValid c db key_of valid fresh in
    run_all-IsValid commands (run c db) key_of' valid' later
