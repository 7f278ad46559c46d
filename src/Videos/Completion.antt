-- ===== src/Videos/Completion.antt =====
-- `completeUpload` of nestjs-project/src/videos/videos.service.ts.
use videum_video_platform.Common.{
  ℕ, ◌≡◌, refl, ap, sym, ◌∙◌, ok-injective, ◌≢◌, ◌↔◌, Bool, true, false, inl, inr, List, some, Text,
  ok, err, Exception, internal, upload_already_finalized, not_video_owner, Bool-cases, Option-cases,
  arith, ◌==◌, if◌then◌else◌,
}
use videum_video_platform.Common.Tables.Laws.{find_one-update_where}
use videum_video_platform.Storage.{
  S3, resolved, CompletedPart, complete_multipart_upload, head_object, truthy,
}
use videum_video_platform.Videos.Model.{
  uploading, processing, Video, Job, VideoDb, is_uploading, find_by_public_id, update_video,
  add_job, has_id, has_public_id,
}
use videum_video_platform.Videos.Service.{
  CompleteUploadResult, complete_upload, or_empty, start_processing,
}

-- What a completion rests on.
pub record Completes (s3 : S3) (owner_id : ℕ) (public_id : Text) (parts : List CompletedPart)
    (db : VideoDb) (v : Video) : Type 0 where
  pub found : find_by_public_id public_id db ≡ some v
  pub owned : v.owner_id ≡ owner_id
  pub waiting : v.status ≡ uploading
  pub started : truthy v.upload_id ≡ true
  pub assembled :
      complete_multipart_upload s3 v.storage_key (or_empty v.upload_id) parts ≡ resolved tt
  pub stored : head_object s3 v.storage_key ≡ ok (some v.size_bytes)

-- The row is found again after its completion.
pub find-started :
    (public_id : Text) (v : Video) (job : Job) (db : VideoDb)
    → find_by_public_id public_id db ≡ some v
    → find_by_public_id public_id (add_job job (update_video v.id start_processing db))
      ≡ some (start_processing v)
unfolding find_by_public_id add_job update_video
find-started public_id v job db found =
    let self : (v.id == v.id) ≡ true = ground arith in
    find_one-update_where (has_public_id public_id) (has_id v.id) start_processing db.videos
      (λ x. ground arith)
    ∙ rw (found, self)

-- An upload that is not waiting cannot be completed.
pub complete_upload-finalized :
    (s3 : S3) (queue_accepts : Bool) (user : ℕ) (public_id : Text) (parts : List CompletedPart)
    (db : VideoDb) (v : Video)
    → find_by_public_id public_id db ≡ some v
    → is_uploading v.status ≡ false
    → complete_upload s3 queue_accepts user public_id parts db
      ≡ (err (if v.owner_id == user then upload_already_finalized else not_video_owner), db)
unfolding complete_upload
complete_upload-finalized s3 queue_accepts user public_id parts db v found closed =
    elim (Bool-cases (v.owner_id == user)) [
      | inl own ↦ rw (found, own, closed)
      | inr other ↦ rw (found, other)
    ]

module _ (s3 : S3) (queue_accepts : Bool) (owner_id : ℕ) (public_id : Text)
    (parts : List CompletedPart) (db : VideoDb) where
  pub complete_upload-of_Completes :
      (v : Video)
      → Completes s3 owner_id public_id parts db v
      → queue_accepts ≡ true
      → complete_upload s3 queue_accepts owner_id public_id parts db ≡ (
        ok (record { public_id = v.public_id; status = processing }),
        add_job
            (record { video_id = v.id; storage_key = v.storage_key })
            (update_video v.id start_processing db),
      )
  unfolding complete_upload
  complete_upload-of_Completes v c accepts =
      let own : (v.owner_id == owner_id) ≡ true = ground (arith, c.owned) in
      let same : (v.size_bytes == v.size_bytes) ≡ true = ground arith in
      rw (c.found, own, c.waiting, c.started, c.assembled, c.stored, same, accepts)

  complete_upload-Completes :
      (r : CompleteUploadResult)
      → (complete_upload s3 queue_accepts owner_id public_id parts db).0 ≡ ok r
      → (v : Video) × Completes s3 owner_id public_id parts db v × (queue_accepts ≡ true)
  unfolding complete_upload
  complete_upload-Completes r done = elim (Option-cases (find_by_public_id public_id db)) [
    | inl unknown ↦ absurd (ground arith)
    | inr (v, found) ↦ (
      v,
      record {
        found = found;
        owned = ground arith;
        waiting = ground arith;
        started = ground arith;
        assembled = ground arith;
        stored = ground arith;
      },
      ground arith,
    )
  ]

  -- `completeUpload` succeeds exactly when the video is known and owned by the caller, waits for
  -- its upload and has an upload id, the storage assembles the parts and then reports the declared
  -- size, and the queue accepts the job. It then answers `processing`, clears the upload id, and
  -- adds one job for the video.
  pub complete_upload_iff :
      (r : CompleteUploadResult) (db' : VideoDb)
      → (complete_upload s3 queue_accepts owner_id public_id parts db ≡ (ok r, db')) ↔ (
          (v : Video) × Completes s3 owner_id public_id parts db v
          × (queue_accepts ≡ true)
          × (r ≡ record { public_id = v.public_id; status = processing })
          × (db'
              ≡ add_job
                  (record { video_id = v.id; storage_key = v.storage_key })
                  (update_video v.id start_processing db)))
  complete_upload_iff r db' = (
    λ done.
        let (v, c, accepts) = complete_upload-Completes r (ap (λ t. t.0) done) in
        let e = sym done ∙ complete_upload-of_Completes v c accepts in
        (v, c, accepts, ok-injective (ap (λ t. t.0) e), ap (λ t. t.1) e),
    λ (v, c, accepts, answer, state). rw (answer, state) (complete_upload-of_Completes v c accepts),
  )

  -- A completion that fails writes nothing, unless the error is internal.
  pub complete_upload_atomic :
      (e : Exception)
      → (complete_upload s3 queue_accepts owner_id public_id parts db).0 ≡ err e
      → e ≢ internal
      → (complete_upload s3 queue_accepts owner_id public_id parts db).1 ≡ db
  unfolding complete_upload
  complete_upload_atomic e failed other = ground arith

  -- A completed upload cannot be completed again, by anyone: its owner is told that it is finalized
  -- and another user that they are not its owner; nothing is written.
  pub complete_upload_twice :
      (r : CompleteUploadResult) (s3' : S3) (queue_accepts' : Bool) (user : ℕ)
      (parts' : List CompletedPart)
      → (complete_upload s3 queue_accepts owner_id public_id parts db).0 ≡ ok r
      → let db' = (complete_upload s3 queue_accepts owner_id public_id parts db).1 in
        complete_upload s3' queue_accepts' user public_id parts' db'
        ≡ (err (if owner_id == user then upload_already_finalized else not_video_owner), db')
  complete_upload_twice r s3' queue_accepts' user parts' done =
      let (v, c, accepts) = complete_upload-Completes r done in
      let job : Job = record { video_id = v.id; storage_key = v.storage_key } in
      rw (complete_upload-of_Completes v c accepts, ← c.owned)
        (complete_upload-finalized s3' queue_accepts' user public_id parts' _ (start_processing v)
          (find-started public_id v job db c.found) refl)
