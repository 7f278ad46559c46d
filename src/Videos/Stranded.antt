-- ===== src/Videos/Stranded.antt =====
-- Where `completeUpload` of nestjs-project/src/videos/videos.service.ts fails and the sweep of
-- nestjs-project/src/videos/processors/upload-reconciliation.processor.ts meets what it leaves.
use videum_video_platform.Common.{
  ℕ, ◌-◌, ◌≡◌, refl, ap, ◌∙◌, ◌≢◌, Bool, true, false, inl, inr, List, [], ◌∷◌, map, Option, none,
  some, Text, Result, ok, err, internal, upload_size_mismatch, upload_already_finalized, Bool-cases,
  ==_refl, arith, ◌==◌, find_one, update_where, text_eq,
}
use mathlib.Core.Option
use videum_video_platform.Common.Tables.Laws.{find_one-update_where, All-update_where_same}
use videum_video_platform.Storage.{S3, CompletedPart, head_object}
use videum_video_platform.Videos.Model.{
  Video, VideoDb, has_id, has_public_id, find_by_public_id, update_video,
}
use videum_video_platform.Videos.Service.{complete_upload, start_processing}
use videum_video_platform.Videos.Completion.{
  Completes, complete_upload_atomic, complete_upload-finalized,
}
use videum_video_platform.Videos.Reconciliation.{is_stale, sweep}
use videum_video_platform.Videos.Sweep.{UniqueIds, change_for, reconciled, sweep-eq-map}

-- A change of the rows that keeps the condition of a lookup changes the row that is found.
find_one-map :
    (p : Video → Bool) (f : Video → Video)
    → ((v : Video) → p (f v) ≡ p v)
    → (rows : List Video) → find_one p (map f rows) ≡ Option.map f (find_one p rows)
unfolding find_one
find_one-map p f same [] = refl
find_one-map p f same (v ∷ rows) =
    rw (same v) (elim (Bool-cases (p v)) [
      | inl hit ↦ rw hit
      | inr miss ↦ rw miss (find_one-map p f same rows)
    ])

change_for-public_id :
    (head : Result (Option ℕ)) (v : Video) → (change_for head v).public_id ≡ v.public_id
change_for-public_id (err e) v = refl
change_for-public_id (ok none) v = refl
change_for-public_id (ok (some size)) v = refl

reconciled-public_id :
    (s3 : S3) (cutoff : ℕ) (v : Video) → (reconciled s3 cutoff v).public_id ≡ v.public_id
reconciled-public_id s3 cutoff v = elim (Bool-cases (is_stale cutoff v)) [
  | inl old ↦ rw old (change_for-public_id (head_object s3 v.storage_key) v)
  | inr young ↦ rw young
]

-- The row of a public id after a sweep.
find-swept :
    (s3 : S3) (queue_accepts : ℕ → Bool) (now timeout : ℕ) (db : VideoDb) (public_id : Text)
    (v : Video)
    → UniqueIds db.videos
    → find_by_public_id public_id db ≡ some v
    → find_by_public_id public_id (sweep s3 queue_accepts now timeout db)
      ≡ some (reconciled s3 (now - timeout) v)
unfolding find_by_public_id
find-swept s3 queue_accepts now timeout db public_id v unique found =
    rw (sweep-eq-map s3 queue_accepts now timeout db unique) (
      find_one-map (has_public_id public_id) (reconciled s3 (now - timeout))
        (λ w. ap (λ t. text_eq t public_id) (reconciled-public_id s3 (now - timeout) w)) db.videos
      ∙ rw found)

-- An upload that `completeUpload` has refused because the stored size is not the declared one is
-- promoted to `processing` by a later sweep: where the storage still reports the object, whatever
-- its size, and the row waits since before the cutoff, the sweep starts the processing.
pub size_mismatch-sweep :
    (s3 s3' : S3) (queue_accepts : Bool) (queue_accepts' : ℕ → Bool) (owner_id : ℕ)
    (public_id : Text) (parts : List CompletedPart) (db : VideoDb) (v : Video)
    (now timeout size : ℕ)
    → UniqueIds db.videos
    → find_by_public_id public_id db ≡ some v
    → (complete_upload s3 queue_accepts owner_id public_id parts db).0 ≡ err upload_size_mismatch
    → is_stale (now - timeout) v ≡ true
    → head_object s3' v.storage_key ≡ ok (some size)
    → let db' = (complete_upload s3 queue_accepts owner_id public_id parts db).1 in
      find_by_public_id public_id (sweep s3' queue_accepts' now timeout db')
      ≡ some (start_processing v)
size_mismatch-sweep s3 s3' queue_accepts queue_accepts' owner_id public_id parts db v now timeout
      size unique found refused old stored =
    rw
      (complete_upload_atomic s3 queue_accepts owner_id public_id parts db upload_size_mismatch
        refused (λ p. cc))
      (find-swept s3' queue_accepts' now timeout db public_id v unique found ∙ rw (old, stored))

-- Starting the processing of rows keeps their identifiers.
UniqueIds-started :
    (p : Video → Bool) (rows : List Video)
    → UniqueIds rows
    → UniqueIds (update_where p start_processing rows)
unfolding update_where
UniqueIds-started p [] h = tt
UniqueIds-started p (v ∷ rows) (fresh, h) = elim (Bool-cases (p v)) [
  | inl hit ↦ rw hit (
    All-update_where_same (λ w. w.id ≢ v.id) p start_processing rows (λ w other. other) fresh,
    UniqueIds-started p rows h,
  )
  | inr miss ↦ rw miss (
    All-update_where_same (λ w. w.id ≢ v.id) p start_processing rows (λ w other. other) fresh,
    UniqueIds-started p rows h,
  )
]

module _ (s3 : S3) (owner_id : ℕ) (public_id : Text) (parts : List CompletedPart) (db : VideoDb)
    (v : Video) where
  complete_upload-refused :
      Completes s3 owner_id public_id parts db v
      → complete_upload s3 false owner_id public_id parts db
        ≡ (err internal, update_video v.id start_processing db)
  unfolding complete_upload
  complete_upload-refused c =
      let own : (v.owner_id == owner_id) ≡ true = ground (arith, c.owned) in
      rw (c.found, own, c.waiting, c.started, c.assembled, c.stored, ==_refl v.size_bytes)

  -- Where the queue refuses the job of an upload that is otherwise in order, the call fails with an
  -- internal error, and the video is left in `processing` without a job: the owner's second attempt is
  -- told that the upload is finalized, and no sweep changes the row.
  pub refused_queue-strands :
      (s3' : S3) (queue_accepts' : Bool) (parts' : List CompletedPart) (sweep_accepts : ℕ → Bool)
      (now timeout : ℕ)
      → UniqueIds db.videos
      → Completes s3 owner_id public_id parts db v
      → let done = complete_upload s3 false owner_id public_id parts db in
        (done.0 ≡ err internal)
        × (done.1.jobs ≡ db.jobs)
        × ((complete_upload s3' queue_accepts' owner_id public_id parts' done.1).0
            ≡ err upload_already_finalized)
        × (find_by_public_id public_id (sweep s3' sweep_accepts now timeout done.1)
            ≡ some (start_processing v))
  unfolding update_video find_by_public_id
  refused_queue-strands s3' queue_accepts' parts' sweep_accepts now timeout unique c =
      let db' = update_video v.id start_processing db in
      let found : find_by_public_id public_id db' ≡ some (start_processing v) =
        find_one-update_where (has_public_id public_id) (has_id v.id) start_processing db.videos
          (λ x. ground arith)
        ∙ rw (c.found, ==_refl v.id) in
      let again =
        complete_upload-finalized s3' queue_accepts' owner_id public_id parts' db'
          (start_processing v) found refl in
      let own : (v.owner_id == owner_id) ≡ true = ground (arith, c.owned) in
      rw (complete_upload-refused c) (
        refl,
        refl,
        ap (λ t. t.0) again ∙ rw own,
        find-swept s3' sweep_accepts now timeout db' public_id (start_processing v)
            (UniqueIds-started (has_id v.id) db.videos unique) found,
      )
