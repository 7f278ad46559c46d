-- ===== src/Common/Tables.antt =====
-- A database table as the list of its rows in the order of insertion, with the statements that
-- the services issue: a lookup by a condition, an update of all rows that meet one, a deletion,
-- and an insertion. Where several rows meet a lookup's condition the first stands for the one
-- that the database picks.
pub mod Laws
use mathlib.Core.Bool.{Bool, true, false}
use mathlib.Core.Option.{Option, none, some}
use mathlib.Core.List.{List, [], ◌∷◌, ◌++◌}
use native.Mathlib.Omega.{arith}
use videum_video_platform.Common.Tests.{if◌then◌else◌, Bool-cases}
use videum_video_platform.Common.Lists.{All}

module _ {A : Type 0} where
  unfoldable pub find_one : (A → Bool) → List A → Option A
  find_one p [] = none
  find_one p (x ∷ xs) = if p x then some x else find_one p xs

  unfoldable pub update_where : (A → Bool) → (A → A) → List A → List A
  update_where p f [] = []
  update_where p f (x ∷ xs) = (if p x then f x else x) ∷ update_where p f xs

  unfoldable pub delete_where : (A → Bool) → List A → List A
  delete_where p [] = []
  delete_where p (x ∷ xs) = if p x then delete_where p xs else x ∷ delete_where p xs

  unfoldable pub insert : A → List A → List A
  insert x xs = xs ++ x ∷ []
