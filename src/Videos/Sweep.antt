-- ===== src/Videos/Sweep.antt =====
-- The sweep of nestjs-project/src/videos/processors/upload-reconciliation.processor.ts against a
-- description of its effect on each row.
use videum_video_platform.Common.{
  ℕ, ◌-◌, ◌≡◌, refl, ap, ◌∙◌, sym, ◌≢◌, Bool, true, false, inl, inr, List, [], ◌∷◌, map, Option,
  none, some, Result, ok, err, Bool-cases, arith, ◌==◌, ==_refl, update_where, All, All-zip,
  All-map_of, if◌then◌else◌,
}
use videum_video_platform.Storage.{S3, head_object}
use videum_video_platform.Videos.Model.{Video, VideoDb, has_id, update_video, add_job}
use videum_video_platform.Videos.Service.{start_processing}
use videum_video_platform.Videos.Processing.{set_failed}
use videum_video_platform.Videos.Reconciliation.{
  is_stale, stale_videos, reconcile, reconcile_head, reconcile_all, sweep,
}

-- The change that the answer for an object asks for.
abbrev pub change_for : Result (Option ℕ) → Video → Video
change_for (err e) v = v
change_for (ok none) v = set_failed v
change_for (ok (some size)) v = start_processing v

-- What a sweep makes of a row.
abbrev pub reconciled : S3 → ℕ → Video → Video
reconciled s3 cutoff v =
    if is_stale cutoff v then change_for (head_object s3 v.storage_key) v else v

-- No two rows have the same identifier.
abbrev pub UniqueIds : List Video → Type 0
UniqueIds [] = Unit
UniqueIds (v ∷ videos) = All (λ w. w.id ≢ v.id) videos × UniqueIds videos

-- The changes of a list of stale rows, as a later row meets them.
abbrev apply_all : S3 → List Video → Video → Video
apply_all s3 [] r = r
apply_all s3 (v ∷ stale) r =
    apply_all s3 stale (if r.id == v.id then change_for (head_object s3 v.storage_key) r else r)

update_where-eq-map :
    (p : Video → Bool) (f : Video → Video) (rows : List Video)
    → update_where p f rows ≡ map (λ r. if p r then f r else r) rows
unfolding update_where
update_where-eq-map p f [] = refl
update_where-eq-map p f (r ∷ rows) = rw (update_where-eq-map p f rows)

map-map : (f g : Video → Video) (rows : List Video) → map g (map f rows) ≡ map (λ r. g (f r)) rows
map-map f g [] = refl
map-map f g (r ∷ rows) = rw (map-map f g rows)

map-same :
    (f g : Video → Video) (rows : List Video) → All (λ r. f r ≡ g r) rows → map f rows ≡ map g rows
map-same f g [] h = refl
map-same f g (r ∷ rows) h = rw (h.0, map-same f g rows h.1)

map-if_same : (p : Video → Bool) (rows : List Video) → map (λ r. if p r then r else r) rows ≡ rows
map-if_same p [] = refl
map-if_same p (r ∷ rows) = elim (Bool-cases (p r)) [
  | inl hit ↦ rw (hit, map-if_same p rows)
  | inr miss ↦ rw (miss, map-if_same p rows)
]

map-same_id : (s3 : S3) (rows : List Video) → rows ≡ map (apply_all s3 []) rows
map-same_id s3 [] = refl
map-same_id s3 (r ∷ rows) = ap (λ t. r ∷ t) (map-same_id s3 rows)

module _ (s3 : S3) (queue_accepts : ℕ → Bool) where
  reconcile_head-eq-map :
      (v : Video) (head : Result (Option ℕ)) (db : VideoDb)
      → (reconcile_head queue_accepts v head db).1.videos
        ≡ map (λ r. if r.id == v.id then change_for head r else r) db.videos
  unfolding update_video add_job
  reconcile_head-eq-map v (err e) db = sym (map-if_same (has_id v.id) db.videos)
  reconcile_head-eq-map v (ok none) db = update_where-eq-map (has_id v.id) set_failed db.videos
  reconcile_head-eq-map v (ok (some size)) db = elim (Bool-cases (queue_accepts v.id)) [
    | inl accepted ↦ rw accepted (update_where-eq-map (has_id v.id) start_processing db.videos)
    | inr refused ↦ rw refused (update_where-eq-map (has_id v.id) start_processing db.videos)
  ]

  reconcile_all-eq-map :
      (stale : List Video) (db : VideoDb)
      → (reconcile_all s3 queue_accepts stale db).videos ≡ map (apply_all s3 stale) db.videos
  unfolding reconcile_all reconcile
  reconcile_all-eq-map [] db = map-same_id s3 db.videos
  reconcile_all-eq-map (v ∷ stale) db =
      reconcile_all-eq-map stale (reconcile s3 queue_accepts v db).1
      ∙ rw (reconcile_head-eq-map v (head_object s3 v.storage_key) db) (map-map _ _ db.videos)

change_for-id : (head : Result (Option ℕ)) (v : Video) → (change_for head v).id ≡ v.id
change_for-id (err e) v = refl
change_for-id (ok none) v = refl
change_for-id (ok (some size)) v = refl

-- A row that is not among the stale ones stays as it is.
apply_all-other :
    (s3 : S3) (stale : List Video) (r : Video)
    → All (λ v. v.id ≢ r.id) stale
    → apply_all s3 stale r ≡ r
apply_all-other s3 [] r h = refl
apply_all-other s3 (v ∷ stale) r h =
    let other : (r.id == v.id) ≡ false = ground (arith, h.0) in
    rw other (apply_all-other s3 stale r h.1)

pub stale_videos-All :
    (P : Video → Type 0) (cutoff : ℕ) (rows : List Video)
    → All P rows
    → All P (stale_videos cutoff rows)
unfolding stale_videos
stale_videos-All P cutoff [] h = tt
stale_videos-All P cutoff (v ∷ rows) h = elim (Bool-cases (is_stale cutoff v)) [
  | inl old ↦ rw old (h.0, stale_videos-All P cutoff rows h.1)
  | inr young ↦ rw young (stale_videos-All P cutoff rows h.1)
]

module _ (cutoff : ℕ) (v : Video) (rows : List Video) where
  stale_videos-old :
      is_stale cutoff v ≡ true → stale_videos cutoff (v ∷ rows) ≡ v ∷ stale_videos cutoff rows
  unfolding stale_videos
  stale_videos-old old = rw old

  stale_videos-young :
      is_stale cutoff v ≡ false → stale_videos cutoff (v ∷ rows) ≡ stale_videos cutoff rows
  unfolding stale_videos
  stale_videos-young young = rw young

module _ (s3 : S3) (v : Video) (stale : List Video) where
  apply_all_self :
      apply_all s3 (v ∷ stale) v ≡ apply_all s3 stale (change_for (head_object s3 v.storage_key) v)
  apply_all_self =
      ap (λ b. apply_all s3 stale (if b then change_for (head_object s3 v.storage_key) v else v))
        (==_refl v.id)

  apply_all-miss : (r : Video) → r.id ≢ v.id → apply_all s3 (v ∷ stale) r ≡ apply_all s3 stale r
  apply_all-miss r other =
      let no : (r.id == v.id) ≡ false = ground arith in
      ap (λ b. apply_all s3 stale (if b then change_for (head_object s3 v.storage_key) r else r)) no

-- In a table without double identifiers every row meets only its own change.
apply_all-stale_videos :
    (s3 : S3) (cutoff : ℕ) (rows : List Video)
    → UniqueIds rows
    → All (λ r. apply_all s3 (stale_videos cutoff rows) r ≡ reconciled s3 cutoff r) rows
apply_all-stale_videos s3 cutoff [] h = tt
apply_all-stale_videos s3 cutoff (v ∷ rows) (fresh, unique) =
    let ih = apply_all-stale_videos s3 cutoff rows unique in
    let stale = stale_videos cutoff rows in
    let head = head_object s3 v.storage_key in
    let others = stale_videos-All (λ w. w.id ≢ v.id) cutoff rows fresh in
    elim (Bool-cases (is_stale cutoff v)) [
      | inl old ↦
          let grown = stale_videos-old cutoff v rows old in
          (
            ap (λ t. apply_all s3 t v) grown
                ∙ apply_all_self s3 v stale
                ∙ apply_all-other s3 stale (change_for head v) (rw (change_for-id head v) others)
                ∙ sym (ap (λ b. if b then change_for head v else v) old),
            All-map_of (λ r. (r.id ≢ v.id) × (apply_all s3 stale r ≡ reconciled s3 cutoff r)) _ rows
                (λ r both.
                  ap (λ t. apply_all s3 t r) grown ∙ apply_all-miss s3 v stale r both.0 ∙ both.1)
                (All-zip _ _ rows fresh ih),
          )
      | inr young ↦
          let same = stale_videos-young cutoff v rows young in
          (
            ap (λ t. apply_all s3 t v) same
                ∙ apply_all-other s3 stale v others
                ∙ sym (ap (λ b. if b then change_for head v else v) young),
            All-map_of _ _ rows (λ r e. ap (λ t. apply_all s3 t r) same ∙ e) ih,
          )
    ]

-- In a table without double identifiers a sweep treats each row by itself: a row that waits for its
-- upload and is older than the timeout goes to `processing` if its object is stored, and to
-- `failed` if it is not; where the storage does not answer, and for every other row, nothing
-- changes. It does not matter to the rows whether the queue accepts the jobs.
pub sweep-eq-map :
    (s3 : S3) (queue_accepts : ℕ → Bool) (now timeout : ℕ) (db : VideoDb)
    → UniqueIds db.videos
    → (sweep s3 queue_accepts now timeout db).videos ≡ map (reconciled s3 (now - timeout)) db.videos
unfolding sweep
sweep-eq-map s3 queue_accepts now timeout db unique =
    reconcile_all-eq-map s3 queue_accepts (stale_videos (now - timeout) db.videos) db
    ∙ map-same _ _ db.videos (apply_all-stale_videos s3 (now - timeout) db.videos unique)
