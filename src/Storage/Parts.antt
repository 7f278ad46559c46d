-- ===== src/Storage/Parts.antt =====
-- The parts of a multipart upload.
use Prim.Native.Nat.{max}
use mathlib.Core.List.{Perm}
use mathlib.Core.List.Perm
use native.Mathlib.Decide.{dec_le}
use native.Mathlib.Nat.{div-add-mod, mod-lt}
use videum_video_platform.Common.{
  ℕ, zero, suc, ◌+◌, ◌-◌, ◌*◌, ◌%◌, true, ◌^◌, ◌/◌, ◌≤◌, ◌<◌, ◌≡◌, refl, Option, none, some, ok,
  ok-injective, subst, inl, inr, List, [], ◌∷◌, map, Text, leb, Bool-cases, All, All-map_of, arith,
}
use videum_video_platform.Storage.{
  S3, PresignedPart, CompletedPart, part_count, presign_from, get_presigned_part_urls, insert_part,
  sort_parts, complete_multipart_upload, initiate_multipart_upload, initiated, MultipartUploadInit,
  Reply, resolved, rejected, truthy,
}

-- What the quotient and the remainder of the rounded division say.
part_count_core :
    (part size q r : ℕ)
    → 0 < part
    → part * q + r ≡ size + (part - 1)
    → r < part
    → (size ≤ max 1 q * part) × (1 < max 1 q → (max 1 q - 1) * part < size)
part_count_core part size zero r h e lt = (omega arith, λ p. absurd (omega arith))
part_count_core part size (suc zero) r h e lt = (omega arith, λ p. absurd (omega arith))
part_count_core part size (suc (suc q)) r h e lt =
    let top : max 1 (suc (suc q)) ≡ suc (suc q) = omega arith in
    let less : suc (suc q) - 1 ≡ suc q = omega arith in
    rw (top, less) (omega arith, λ p. omega arith)

-- With parts of positive size, the parts of an upload hold all its bytes, and where there is more
-- than one part, one part less would not; there is at least one part.
pub part_count_covers :
    (part size : ℕ)
    → 0 < part
    → (size ≤ part_count part size * part)
      × (1 < part_count part size → (part_count part size - 1) * part < size)
      × (1 ≤ part_count part size)
unfolding part_count
part_count_covers part size h =
    let total = size + (part - 1) in
    let core =
      part_count_core part size (total / part) (total % part) h (div-add-mod total part)
        (mod-lt total h) in
    (core.0, core.1, omega arith)

-- An upload of at most 10 GiB in parts of 100 MiB or more has at most 103 parts, and so stays
-- below the 10000 parts that S3 allows.
pub part_count-le :
    (part size : ℕ) → 100 * 1024 ^ 2 ≤ part → size ≤ 10 * 1024 ^ 3 → part_count part size ≤ 103
part_count-le part size big small =
    let (covers, tight, least) = part_count_covers part size (omega arith) in
    at_most (part_count part size) tight
  where
    too_many : (n : ℕ) → (n - 1) * part < size → 103 ≤ n - 1 → ⊥
    too_many n tight many = grind arith

    at_most : (n : ℕ) → (1 < n → (n - 1) * part < size) → n ≤ 103
    at_most n tight = elim (dec_le n 103) [
      | yes h ↦ h
      | no h ↦ absurd (too_many n (tight (omega arith)) (omega arith))
    ]

-- `1, 2, …`: the numbers from the first, as many as are asked for.
abbrev pub count_up : ℕ → ℕ → List ℕ
count_up first zero = []
count_up first (suc n) = first ∷ count_up (suc first) n

presign_from-numbers :
    (s3 : S3) (key id : Text) (first n : ℕ)
    → map (λ (p : PresignedPart). p.part_number) (presign_from s3 key id first n) ≡ count_up first n
unfolding presign_from
presign_from-numbers s3 key id first zero = refl
presign_from-numbers s3 key id first (suc n) = rw (presign_from-numbers s3 key id (suc first) n)

-- The list is sorted by part number.
abbrev pub IsSorted : List CompletedPart → Type 0
IsSorted [] = Unit
IsSorted (p ∷ parts) = All (λ q. p.part_number ≤ q.part_number) parts × IsSorted parts

insert_part-perm :
    (p : CompletedPart) (parts : List CompletedPart) → Perm (insert_part p parts) (p ∷ parts)
unfolding insert_part
insert_part-perm p [] = Perm.refl _
insert_part-perm p (q ∷ parts) = elim (Bool-cases (leb p.part_number q.part_number)) [
  | inl first ↦ rw first (Perm.refl _)
  | inr later ↦ rw later (Perm.trans (Perm.cons q (insert_part-perm p parts)) (Perm.swap p q parts))
]

insert_part-All :
    (P : CompletedPart → Type 0) (p : CompletedPart) (parts : List CompletedPart)
    → P p
    → All P parts
    → All P (insert_part p parts)
unfolding insert_part
insert_part-All P p [] h all = (h, tt)
insert_part-All P p (q ∷ parts) h all = elim (Bool-cases (leb p.part_number q.part_number)) [
  | inl first ↦ rw first (h, all)
  | inr later ↦ rw later (all.0, insert_part-All P p parts h all.1)
]

insert_part-IsSorted :
    (p : CompletedPart) (parts : List CompletedPart)
    → IsSorted parts
    → IsSorted (insert_part p parts)
unfolding insert_part
insert_part-IsSorted p [] h = (tt, tt)
insert_part-IsSorted p (q ∷ parts) (least, sorted) =
    elim (Bool-cases (leb p.part_number q.part_number)) [
      | inl first ↦
          rw first
            (((omega_le first, All-map_of _ _ parts (λ r le. ground arith) least), (least, sorted)))
      | inr later ↦
          rw later
            (insert_part-All _ p parts (ground arith) least, insert_part-IsSorted p parts sorted)
    ]
  where
    omega_le : leb p.part_number q.part_number ≡ true → p.part_number ≤ q.part_number
    omega_le h = ground arith

sort_parts-IsSorted : (parts : List CompletedPart) → IsSorted (sort_parts parts)
unfolding sort_parts
sort_parts-IsSorted [] = tt
sort_parts-IsSorted (p ∷ parts) =
    insert_part-IsSorted p (sort_parts parts) (sort_parts-IsSorted parts)

sort_parts-perm : (parts : List CompletedPart) → Perm (sort_parts parts) parts
unfolding sort_parts
sort_parts-perm [] = Perm.refl []
sort_parts-perm (p ∷ parts) =
    Perm.trans (insert_part-perm p (sort_parts parts)) (Perm.cons p (sort_parts-perm parts))

-- The parts that are sent to the storage are the client's, in the order of their numbers.
pub complete_multipart_upload_sorts :
    (s3 : S3) (key id : Text) (parts : List CompletedPart)
    → (sent : List CompletedPart) × (complete_multipart_upload s3 key id parts
        ≡ s3.complete_multipart_upload key id sent)
      × IsSorted sent
      × Perm sent parts
unfolding complete_multipart_upload
complete_multipart_upload_sorts s3 key id parts =
    (sort_parts parts, refl, sort_parts-IsSorted parts, sort_parts-perm parts)

-- An initiated upload has a part for each number from 1 to the count of its size, in order, and
-- its identifier is the one that the storage returned, which is not empty.
pub initiate_multipart_upload_parts :
    (s3 : S3) (part size : ℕ) (key content_type : Text) (init : MultipartUploadInit)
    → initiate_multipart_upload s3 part key content_type size ≡ ok init
    → (map (λ (p : PresignedPart). p.part_number) init.parts ≡ count_up 1 (part_count part size))
      × (s3.create_multipart_upload key content_type ≡ resolved (some init.upload_id))
      × (truthy (some init.upload_id) ≡ true)
unfolding initiate_multipart_upload get_presigned_part_urls
initiate_multipart_upload_parts s3 part size key content_type init done =
    go (s3.create_multipart_upload key content_type) refl done
  where
    go :
        (reply : Reply (Option Text))
        → s3.create_multipart_upload key content_type ≡ reply
        → initiated s3 part key size reply ≡ ok init
        → (map (λ (p : PresignedPart). p.part_number) init.parts
            ≡ count_up 1 (part_count part size))
          × (s3.create_multipart_upload key content_type ≡ resolved (some init.upload_id))
          × (truthy (some init.upload_id) ≡ true)
    go (rejected error) e done = cc
    go (resolved none) e done = cc
    go (resolved (some [])) e done = cc
    go (resolved (some (c ∷ id))) e done =
        subst
          (λ (i : MultipartUploadInit).
            (map (λ (p : PresignedPart). p.part_number) i.parts ≡ count_up 1 (part_count part size))
            × (s3.create_multipart_upload key content_type ≡ resolved (some i.upload_id))
            × (truthy (some i.upload_id) ≡ true))
          (ok-injective done)
          (presign_from-numbers s3 key (c ∷ id) 1 (part_count part size), e, refl)
