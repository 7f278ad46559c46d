-- ===== src/Videos/Interleaving/Rows.antt =====
-- No command takes a row of the table of videos away, or gives it another identifier or key.
use videum_video_platform.Common.{
  ℕ, ◌-◌, ◌≡◌, refl, sym, ap, ◌∙◌, inl, inr, Bool, true, ◌&&◌, List, [], ◌∷◌, Option, none, some,
  Text, text_eq, text_eq_refl, text_eq_iff, Result, ok, err, is_some, find_one, update_where,
  insert, All, All-map_of, Bool-cases, Option-cases, arith, ◌==◌, ==_refl,
}
use videum_video_platform.Common.Tables.Laws.{find_one_sound, find_one-All}
use videum_video_platform.Storage.{S3, CompletedPart, head_object}
use videum_video_platform.Videos.Model.{
  Video, VideoDb, Job, has_id, update_video, add_job, find_by_public_id, is_ready,
}
use videum_video_platform.Videos.Service.{start_processing, complete_upload}
use videum_video_platform.Videos.Processing.{
  Worker, process, process_found, finish, try_process, set_ready, set_failed, round_seconds,
}
use videum_video_platform.Videos.Reconciliation.{
  stale_videos, reconcile, reconcile_head, reconcile_all, sweep,
}
use videum_video_platform.Videos.Commands.{
  Command, create, complete, work, reconcile_stale, nth_job, run,
}
use videum_video_platform.Videos.Invariant.{IsValid, IsValidVideo}
use videum_video_platform.Videos.Preservation.{
  complete_upload-writes, complete_upload-unknown, create_draft-writes,
}

-- A row of the same identifier and storage key.
abbrev is_row_of : Video → Video → Bool
is_row_of v w = w.id == v.id && text_eq w.storage_key v.storage_key

abbrev pub HasRow : VideoDb → Video → Type 0
HasRow db v = is_some (find_one (is_row_of v) db.videos) ≡ true

is_some-find_one_update :
    (v : Video) (p : Video → Bool) (change : Video → Video) (rows : List Video)
    → ((w : Video) → is_row_of v (change w) ≡ is_row_of v w)
    → is_some (find_one (is_row_of v) (update_where p change rows))
      ≡ is_some (find_one (is_row_of v) rows)
unfolding find_one update_where
is_some-find_one_update v p change [] same = refl
is_some-find_one_update v p change (w ∷ rows) same = elim (Bool-cases (p w)) [
  | inl hit ↦
      rw (hit, same w)
        (elim (Bool-cases (is_row_of v w)) [
          | inl here ↦ rw here
          | inr other ↦ rw other (is_some-find_one_update v p change rows same)
        ])
  | inr miss ↦ rw miss (elim (Bool-cases (is_row_of v w)) [
    | inl here ↦ rw here
    | inr other ↦ rw other (is_some-find_one_update v p change rows same)
  ])
]

is_some-find_one_insert :
    (p : Video → Bool) (x : Video) (rows : List Video)
    → is_some (find_one p rows) ≡ true
    → is_some (find_one p (insert x rows)) ≡ true
unfolding find_one insert
is_some-find_one_insert p x [] found = cc
is_some-find_one_insert p x (w ∷ rows) found = elim (Bool-cases (p w)) [
  | inl here ↦ rw here
  | inr other ↦ rw other (is_some-find_one_insert p x rows (rw other at found))
]

-- A change of rows that keeps identifiers and storage keys.
HasRow-update_video :
    (v : Video) (id : ℕ) (change : Video → Video) (db : VideoDb)
    → ((w : Video) → is_row_of v (change w) ≡ is_row_of v w)
    → HasRow db v
    → HasRow (update_video id change db) v
unfolding update_video
HasRow-update_video v id change db same has =
    rw (is_some-find_one_update v (has_id id) change db.videos same) has

HasRow-complete_upload :
    (s3 : S3) (queue_accepts : Bool) (user : ℕ) (public_id : Text) (parts : List CompletedPart)
    (db : VideoDb) (v : Video)
    → HasRow db v
    → HasRow (complete_upload s3 queue_accepts user public_id parts db).1 v
unfolding add_job
HasRow-complete_upload s3 queue_accepts user public_id parts db v has =
    elim (Option-cases (find_by_public_id public_id db)) [
      | inl unknown ↦
          rw (complete_upload-unknown s3 queue_accepts user public_id parts db unknown) has
      | inr (w, found) ↦
          elim (complete_upload-writes s3 queue_accepts user public_id parts db w found) [
            | inl same ↦ rw same has
            | inr (inl row) ↦
                rw row (HasRow-update_video v w.id start_processing db (λ x. refl) has)
            | inr (inr both) ↦
                rw both (HasRow-update_video v w.id start_processing db (λ x. refl) has)
          ]
    ]

pub HasRow-reconcile_head :
    (queue_accepts : ℕ → Bool) (w : Video) (head : Result (Option ℕ)) (db : VideoDb) (v : Video)
    → HasRow db v
    → HasRow (reconcile_head queue_accepts w head db).1 v
unfolding add_job
HasRow-reconcile_head queue_accepts w (err e) db v has = has
HasRow-reconcile_head queue_accepts w (ok none) db v has =
    HasRow-update_video v w.id set_failed db (λ x. refl) has
HasRow-reconcile_head queue_accepts w (ok (some size)) db v has =
    elim (Bool-cases (queue_accepts w.id)) [
      | inl accepted ↦ rw accepted (HasRow-update_video v w.id start_processing db (λ x. refl) has)
      | inr refused ↦ rw refused (HasRow-update_video v w.id start_processing db (λ x. refl) has)
    ]

HasRow-reconcile_all :
    (s3 : S3) (queue_accepts : ℕ → Bool) (stale : List Video) (db : VideoDb) (v : Video)
    → HasRow db v
    → HasRow (reconcile_all s3 queue_accepts stale db) v
unfolding reconcile_all reconcile
HasRow-reconcile_all s3 queue_accepts [] db v has = has
HasRow-reconcile_all s3 queue_accepts (w ∷ stale) db v has =
    HasRow-reconcile_all s3 queue_accepts stale _ v
      (HasRow-reconcile_head queue_accepts w (head_object s3 w.storage_key) db v has)

HasRow-finish :
    (id : ℕ) (o : Option (ℕ × Text)) (db : VideoDb) (v : Video)
    → HasRow db v
    → HasRow (finish id o db).1 v
HasRow-finish id none db v has = HasRow-update_video v id set_failed db (λ x. refl) has
HasRow-finish id (some (micros, key)) db v has =
    HasRow-update_video v id (set_ready (round_seconds micros) key) db (λ x. refl) has

HasRow-process_found :
    (w : Worker) (job : Job) (o : Option Video) (db : VideoDb) (v : Video)
    → HasRow db v
    → HasRow (process_found w job o db).1 v
unfolding try_process
HasRow-process_found w job none db v has = has
HasRow-process_found w job (some video) db v has = elim (Bool-cases (is_ready video.status)) [
  | inl done ↦ rw done has
  | inr pending ↦ elim (Bool-cases w.mkdtemp) [
    | inr no_dir ↦ rw (pending, no_dir) has
    | inl dir ↦
        rw (pending, dir) (HasRow-finish job.video_id (try_process w job.storage_key) db v has)
  ]
]

pub HasRow-run : (c : Command) (db : VideoDb) (v : Video) → HasRow db v → HasRow (run c db) v
unfolding run sweep process
HasRow-run (create s3 part_size d owner_id dto) db v has =
    elim (create_draft-writes s3 part_size d owner_id dto db) [
      | inl same ↦ rw same has
      | inr (upload_id, whole, added) ↦
          rw added (is_some-find_one_insert (is_row_of v) _ db.videos has)
    ]
HasRow-run (complete s3 queue_accepts user public_id parts) db v has =
    HasRow-complete_upload s3 queue_accepts user public_id parts db v has
HasRow-run (work w n) db v has = elim (Option-cases (nth_job n db.jobs)) [
  | inl no_job ↦ rw no_job has
  | inr (job, taken) ↦
      rw taken (HasRow-process_found w job (find_one (has_id job.video_id) db.videos) db v has)
]
HasRow-run (reconcile_stale s3 queue_accepts now timeout) db v has =
    HasRow-reconcile_all s3 queue_accepts (stale_videos (now - timeout) db.videos) db v has

-- A row of the table is its own.
pub rows-HasRow : (rows : List Video) → All (λ v. is_some (find_one (is_row_of v) rows) ≡ true) rows
unfolding find_one
rows-HasRow [] = tt
rows-HasRow (x ∷ rows) = (
  rw (==_refl x.id, text_eq_refl x.storage_key),
  All-map_of _ _ rows
      (λ v has. elim (Bool-cases (is_row_of v x)) [ inl here ↦ rw here | inr other ↦ rw other has ])
      (rows-HasRow rows),
)

pub HasRow-keyed :
    (key_of : ℕ → Text) (db : VideoDb) (v : Video)
    → IsValid key_of db
    → HasRow db v
    → v.storage_key ≡ key_of v.id
HasRow-keyed key_of db v valid has = elim (Option-cases (find_one (is_row_of v) db.videos)) [
  | inl missing ↦ absurd (ground arith)
  | inr (w, found) ↦
      let hit = find_one_sound (is_row_of v) db.videos found in
      let same_id : w.id ≡ v.id = ground arith in
      let same_key : w.storage_key ≡ v.storage_key =
        (text_eq_iff w.storage_key v.storage_key).0 (ground arith) in
      let keyed = (find_one-All _ (IsValidVideo key_of) _ valid.videos found).keyed in
      sym same_key ∙ keyed ∙ ap key_of same_id
]
