-- ===== src/Videos/Pipeline.antt =====
-- A video from its draft to its playback: `createDraft`, `completeUpload` and `getForPlayback` of
-- nestjs-project/src/videos/videos.service.ts and the worker of
-- nestjs-project/src/videos/processors/video-processing.processor.ts, one after the other.
use videum_video_platform.Common.{
  ℕ, ◌≡◌, refl, ap, sym, ◌∙◌, ◌≢◌, true, false, not, ◌&&◌, inl, inr, List, [], ◌∷◌, Option, none,
  some, Text, Result, ok, err, internal, ok-injective, Bool-cases, Option-cases, ==_refl, arith,
  find_one, insert, update_where, All, text_eq_refl,
}
use videum_video_platform.Common.Tables.Laws.{
  find_one-none, find_one-insert_new, find_one-update_where,
}
use videum_video_platform.Storage.{
  S3, resolved, CompletedPart, complete_multipart_upload, head_object, truthy,
  initiate_multipart_upload, get_presigned_get_url, MultipartUploadInit,
}
use videum_video_platform.Storage.Parts.{initiate_multipart_upload_parts}
use videum_video_platform.Videos.Model.{
  Video, Job, VideoDb, is_ready, has_id, has_public_id, find_by_public_id, update_video, add_job,
  clashes, fits_columns,
}
use videum_video_platform.Videos.Service.{
  CreateVideoDto, CreateVideoResult, Draw, draft, create_draft, storage_key_for, complete_upload,
  start_processing, VideoPlaybackResult, get_for_playback,
}
use videum_video_platform.Videos.Processing.{Worker, try_process, round_seconds, set_ready, process}
use videum_video_platform.Videos.Completion.{Completes, complete_upload-of_Completes, find-started}
use videum_video_platform.Videos.Visibility.{get_for_playback_iff}

-- What a draft that was created has written.
pub record Created (d : Draw) (owner_id : ℕ) (dto : CreateVideoDto) (db : VideoDb)
    (c : CreateVideoResult) (db' : VideoDb) : Type 0 where
  pub public_id : c.public_id ≡ d.public_id
  pub storage_key : c.storage_key ≡ storage_key_for d.public_id
  pub started : truthy (some c.upload_id) ≡ true
  pub new : clashes (draft d owner_id dto c.upload_id) db.videos ≡ false
  pub written : db' ≡ record db { videos = insert (draft d owner_id dto c.upload_id) db.videos }

module _ (s3 : S3) (part_size : ℕ) (d : Draw) (owner_id : ℕ) (dto : CreateVideoDto)
    (db : VideoDb) where
  create_draft-Created :
      (c : CreateVideoResult) (db' : VideoDb)
      → create_draft s3 part_size d owner_id dto db ≡ (ok c, db')
      → Created d owner_id dto db c db'
  unfolding create_draft storage_key_for
  create_draft-Created c db' done = go _ refl
    where
      go :
          (r : Result MultipartUploadInit)
          → initiate_multipart_upload s3 part_size
              (storage_key_for d.public_id)
              dto.content_type
              dto.size_bytes
            ≡ r
          → Created d owner_id dto db c db'
      go (err e) failed = absurd (no_draft (rw failed at done))
        where
          no_draft : ¬ (◌≡◌ {A = Result CreateVideoResult × VideoDb} (err e, db) (ok c, db'))
          no_draft p = cc
      go (ok init) begun =
          let row = draft d owner_id dto init.upload_id in
          let whole =
            (initiate_multipart_upload_parts s3 part_size dto.size_bytes _ dto.content_type init
              begun).2 in
          elim (Bool-cases (fits_columns row && not (clashes row db.videos))) [
            | inl saved ↦
                let e = rw (begun, saved) at done in
                rw (sym (ok-injective (ap (λ t. t.0) e)), sym (ap (λ t. t.1) e))
                  (record {
                    public_id = refl;
                    storage_key = refl;
                    started = whole;
                    new = ground arith;
                    written = refl;
                  })
            | inr refused ↦ absurd (no_row (rw (begun, refused) at done))
          ]
        where
          no_row : ¬ (◌≡◌ {A = Result CreateVideoResult × VideoDb} (err internal, db) (ok c, db'))
          no_row p = cc

-- A row that clashes with no other is found by its public id once it is inserted.
find-inserted :
    (v : Video) (db : VideoDb)
    → clashes v db.videos ≡ false
    → find_by_public_id v.public_id (record db { videos = insert v db.videos }) ≡ some v
unfolding find_by_public_id clashes
find-inserted v db new = elim (Option-cases (find_one (has_public_id v.public_id) db.videos)) [
  | inl missing ↦
      find_one-insert_new (has_public_id v.public_id) v db.videos missing (text_eq_refl v.public_id)
  | inr (w, found) ↦ absurd (ground arith)
]

-- A row with a new identifier is found by it once it is inserted and started.
find-inserted_by_id :
    (v : Video) (videos : List Video)
    → All (λ w. w.id ≢ v.id) videos
    → find_one (has_id v.id) (update_where (has_id v.id) start_processing (insert v videos))
      ≡ some (start_processing v)
find-inserted_by_id v videos fresh =
    let self = ==_refl v.id in
    find_one-update_where (has_id v.id) (has_id v.id) start_processing (insert v videos)
      (λ x. ground arith)
    ∙ rw (
      find_one-insert_new (has_id v.id) v videos
          (find_one-none (has_id v.id) videos (All-other videos fresh)) self,
      self,
    )
  where
    All-other :
        (videos : List Video)
        → All (λ w. w.id ≢ v.id) videos
        → All (λ w. has_id v.id w ≡ false) videos
    All-other [] h = tt
    All-other (w ∷ videos) (other, h) = (ground arith, All-other videos h)

-- What the worker does to a row that it finds and that is not ready.
process-ready :
    (w : Worker) (job : Job) (db : VideoDb) (v : Video) (micros : ℕ) (key : Text)
    → find_one (has_id job.video_id) db.videos ≡ some v
    → is_ready v.status ≡ false
    → w.mkdtemp ≡ true
    → try_process w job.storage_key ≡ some (micros, key)
    → process w job db
      ≡ (ok tt, update_video job.video_id (set_ready (round_seconds micros) key) db)
unfolding process
process-ready w job db v micros key found early dir done = rw (found, early) (rw (done, dir))

-- The row is found with the worker's results.
find-ready :
    (public_id : Text) (v : Video) (seconds : ℕ) (key : Text) (db : VideoDb)
    → find_by_public_id public_id db ≡ some v
    → find_by_public_id public_id (update_video v.id (set_ready seconds key) db)
      ≡ some (set_ready seconds key v)
unfolding find_by_public_id update_video
find-ready public_id v seconds key db found =
    find_one-update_where (has_public_id public_id) (has_id v.id) (set_ready seconds key) db.videos
      (λ x. ground arith)
    ∙ rw (found, ==_refl v.id)

-- From an upload that can be completed to its playback.
complete-to-playback :
    (s3 : S3) (owner_id : ℕ) (public_id : Text) (parts : List CompletedPart) (db : VideoDb)
    (v : Video) (w : Worker) (micros : ℕ) (key : Text) (requester_id : Option ℕ)
    → Completes s3 owner_id public_id parts db v
    → find_one (has_id v.id) (update_where (has_id v.id) start_processing db.videos)
      ≡ some (start_processing v)
    → w.mkdtemp ≡ true
    → try_process w v.storage_key ≡ some (micros, key)
    → let db2 = (complete_upload s3 true owner_id public_id parts db).1 in
      let job : Job = record { video_id = v.id; storage_key = v.storage_key } in
      let db3 = (process w job db2).1 in
      (r : VideoPlaybackResult) × ((get_for_playback s3 public_id requester_id db3).0 ≡ ok r)
      × (r.playback_url ≡ some (get_presigned_get_url s3 v.storage_key none))
      × (r.duration_seconds ≡ some (round_seconds micros))
unfolding add_job update_video
complete-to-playback s3 owner_id public_id parts db v w micros key requester_id completes by_id dir
      worked =
    let job : Job = record { video_id = v.id; storage_key = v.storage_key } in
    let started = add_job job (update_video v.id start_processing db) in
    let completed =
      complete_upload-of_Completes s3 true owner_id public_id parts db v completes refl in
    let processed =
      process-ready w job started (start_processing v) micros key by_id refl dir worked in
    let found =
      find-ready public_id (start_processing v) (round_seconds micros) key started
        (find-started public_id v job db completes.found) in
    let shown =
      (get_for_playback_iff s3 public_id requester_id _ _ _).1 (_, found, inl refl, refl, refl) in
    rw (completed, processed) (_, ap (λ t. t.0) shown, refl, refl)

-- A video that was created, completed with the object of the declared size while the queue accepts
-- its job, and worked on without an error, is shown to everybody: playback answers with a URL for
-- the storage key of the draft and with the rounded duration. The identifier of the row must be
-- new.
pub create-to-playback :
    (s3 : S3) (part_size : ℕ) (d : Draw) (owner_id : ℕ) (dto : CreateVideoDto) (db : VideoDb)
    (c : CreateVideoResult) (db' : VideoDb) (parts : List CompletedPart) (w : Worker) (micros : ℕ)
    (key : Text) (requester_id : Option ℕ)
    → All (λ v. v.id ≢ d.row_id) db.videos
    → create_draft s3 part_size d owner_id dto db ≡ (ok c, db')
    → complete_multipart_upload s3 c.storage_key c.upload_id parts ≡ resolved tt
    → head_object s3 c.storage_key ≡ ok (some dto.size_bytes)
    → w.mkdtemp ≡ true
    → try_process w c.storage_key ≡ some (micros, key)
    → let db2 = (complete_upload s3 true owner_id c.public_id parts db').1 in
      let job : Job = record { video_id = d.row_id; storage_key = c.storage_key } in
      let db3 = (process w job db2).1 in
      (r : VideoPlaybackResult) × ((get_for_playback s3 c.public_id requester_id db3).0 ≡ ok r)
      × (r.playback_url ≡ some (get_presigned_get_url s3 c.storage_key none))
      × (r.duration_seconds ≡ some (round_seconds micros))
unfolding draft
create-to-playback s3 part_size d owner_id dto db c db' parts w micros key requester_id fresh
      created assembled stored dir worked =
    let made = create_draft-Created s3 part_size d owner_id dto db c db' created in
    let v = draft d owner_id dto c.upload_id in
    let e = made.storage_key in
    rw (made.public_id, e, made.written)
      (complete-to-playback s3 owner_id d.public_id parts _ v w micros key requester_id
        (record {
          found = find-inserted v db made.new;
          owned = refl;
          waiting = refl;
          started = made.started;
          assembled = rw e at assembled;
          stored = rw e at stored;
        })
        (find-inserted_by_id v db.videos fresh) dir (rw e at worked))
