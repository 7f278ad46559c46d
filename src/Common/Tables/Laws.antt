-- ===== src/Common/Tables/Laws.antt =====
-- The laws of the statements on tables.
use mathlib.Core.Path.{◌≡◌, refl, subst}
use mathlib.Core.Bool.{Bool, true, false}
use mathlib.Core.Option
use mathlib.Core.Option.{Option, none, some}
use mathlib.Core.Logic.{inl, inr}
use mathlib.Core.List.{List, [], ◌∷◌}
use native.Mathlib.Omega.{arith}
use videum_video_platform.Common.Tests.{if◌then◌else◌, Bool-cases}
use videum_video_platform.Common.Lists.{All, All-concat}
use videum_video_platform.Common.Tables.{find_one, update_where, delete_where, insert}

module _ {A : Type 0} (p : A → Bool) where
  -- What a lookup returns meets its condition.
  pub find_one_sound : (xs : List A) {x : A} → find_one p xs ≡ some x → p x ≡ true
  unfolding find_one
  find_one_sound [] h = cc
  find_one_sound (y ∷ xs) {x} h = ground (arith, find_one_sound xs {x = x})

  pub find_one-All :
      (P : A → Type 0) (xs : List A) {x : A} → All P xs → find_one p xs ≡ some x → P x
  unfolding find_one
  find_one-All P [] all h = cc
  find_one-All P (y ∷ xs) {x} all h = elim (Bool-cases (p y)) [
    | inl yes_y ↦ (let e : y ≡ x = ground arith in subst P e all.0)
    | inr no_y ↦ find_one-All P xs all.1 (rw no_y at h)
  ]

  pub find_one-none : (xs : List A) → All (λ x. p x ≡ false) xs → find_one p xs ≡ none
  unfolding find_one
  find_one-none [] h = refl
  find_one-none (x ∷ xs) h = rw h.0 (find_one-none xs h.1)

  pub find_one-none-All : (xs : List A) → find_one p xs ≡ none → All (λ x. p x ≡ false) xs
  unfolding find_one
  find_one-none-All [] h = tt
  find_one-none-All (x ∷ xs) h = elim (Bool-cases (p x)) [
    | inl yes_x ↦ absurd (ground arith)
    | inr no_x ↦ (no_x, find_one-none-All xs (rw no_x at h))
  ]

  pub find_one-delete_where : (xs : List A) → find_one p (delete_where p xs) ≡ none
  unfolding find_one delete_where
  find_one-delete_where [] = refl
  find_one-delete_where (x ∷ xs) = elim (Bool-cases (p x)) [
    | inl gone ↦ rw gone (find_one-delete_where xs)
    | inr kept ↦ rw kept (rw kept (find_one-delete_where xs))
  ]

  pub find_one-insert_new :
      (x : A) (xs : List A) → find_one p xs ≡ none → p x ≡ true → find_one p (insert x xs) ≡ some x
  unfolding find_one insert
  find_one-insert_new x [] h e = rw e
  find_one-insert_new x (y ∷ xs) h e = ground (arith, find_one-insert_new x xs)

  pub find_one-insert_old :
      (x : A) (xs : List A) → p x ≡ false → find_one p (insert x xs) ≡ find_one p xs
  unfolding find_one insert
  find_one-insert_old x [] e = rw e
  find_one-insert_old x (y ∷ xs) e = ground (arith, find_one-insert_old x xs)

  -- An update by which no row's condition changes only changes the row that is found.
  pub find_one-update_where :
      (q : A → Bool) (f : A → A) (xs : List A)
      → ((x : A) → p (if q x then f x else x) ≡ p x)
      → find_one p (update_where q f xs) ≡ Option.map (λ x. if q x then f x else x) (find_one p xs)
  unfolding find_one update_where
  find_one-update_where q f [] same = refl
  find_one-update_where q f (x ∷ xs) same = rw (same x) (elim (Bool-cases (p x)) [
    | inl yes_x ↦ rw yes_x
    | inr no_x ↦ rw no_x (find_one-update_where q f xs same)
  ])

module _ {A : Type 0} (P Q : A → Type 0) where
  pub All-update_where :
      (p : A → Bool) (f : A → A) (xs : List A)
      → ((x : A) → P x → p x ≡ true → Q (f x))
      → ((x : A) → P x → p x ≡ false → Q x)
      → All P xs
      → All Q (update_where p f xs)
  unfolding update_where
  All-update_where p f [] hit miss h = tt
  All-update_where p f (x ∷ xs) hit miss h = elim (Bool-cases (p x)) [
    | inl e ↦ rw e (hit x h.0 e, All-update_where p f xs hit miss h.1)
    | inr e ↦ rw e (miss x h.0 e, All-update_where p f xs hit miss h.1)
  ]

module _ {A : Type 0} (P : A → Type 0) where
  pub All-insert : (x : A) (xs : List A) → All P xs → P x → All P (insert x xs)
  unfolding insert
  All-insert x xs h p = All-concat P xs x h p

  -- An update keeps a predicate that each change keeps.
  pub All-update_where_same :
      (p : A → Bool) (f : A → A) (xs : List A)
      → ((x : A) → P x → P (f x))
      → All P xs
      → All P (update_where p f xs)
  All-update_where_same p f xs keep h =
      All-update_where P P p f xs (λ x px e. keep x px) (λ x px e. px) h

  pub All-delete_where : (p : A → Bool) (xs : List A) → All P xs → All P (delete_where p xs)
  unfolding delete_where
  All-delete_where p [] h = tt
  All-delete_where p (x ∷ xs) h = elim (Bool-cases (p x)) [
    | inl e ↦ rw e (All-delete_where p xs h.1)
    | inr e ↦ rw e (h.0, All-delete_where p xs h.1)
  ]
