-- ===== src/Common/Threads.antt =====
-- Threads over one shared memory, interleaved in any order: a thread stands at a point of its
-- program, and a move relation says what the thread of an index may do there.
use Prim.Native.Nat.{ℕ}
use mathlib.Core.Path.{◌≡◌, subst}
use mathlib.Core.Logic.{◌≢◌, inl, inr}
use native.Mathlib.Omega.{arith}
use videum_video_platform.Common.Tests.{if◌then◌else◌, ◌==◌, Bool-cases}

abbrev pub update {ℓ} : {A : Type ℓ} → (ℕ → A) → ℕ → A → ℕ → A
update f i a j = if i == j then a else f j

pub record System (M P : Type 0) : Type 0 where
  pub memory : M
  pub point : ℕ → P

module _ {M P : Type 0} (Move : ℕ → M → P → M → P → Type 0) where
  pub data Step (s : System M P) : System M P → Type 0 where
    pick :
        (i : ℕ) {m : M} {p : P}
        → Move i s.memory (s.point i) m p
        → Step s (record { memory = m; point = update s.point i p })

  pub data Reach (s : System M P) : System M P → Type 0 where
    start : Reach s s
    later : {t u : System M P} → Reach s t → Step t u → Reach s u

-- An assertion on the memory and one on each thread's point, which every move keeps, its own
-- thread's and the others', hold in all states that are reached.
module _ {M P : Type 0} {Move : ℕ → M → P → M → P → Type 0} (I : M → Type 0)
    (Q : ℕ → M → P → Type 0)
    (own : (i : ℕ) (m : M) (p : P) (m' : M) (p' : P)
      → Move i m p m' p'
      → I m
      → Q i m p
      → I m' × Q i m' p')
    (others : (i j : ℕ) (m : M) (p : P) (m' : M) (p' q : P)
      → i ≢ j
      → Move i m p m' p'
      → I m
      → Q i m p
      → Q j m q
      → Q j m' q) where
  abbrev pub Holds : System M P → Type 0
  Holds s = I s.memory × ((i : ℕ) → Q i s.memory (s.point i))

  pub Step-Holds : {s t : System M P} → Step Move s t → Holds s → Holds t
  Step-Holds {s} (pick i {m} {p} move) (inv, at) =
      let kept = own i _ _ _ _ move inv (at i) in (kept.0, all kept.1)
    where
      all : Q i m p → (j : ℕ) → Q j m (update s.point i p j)
      all here j = elim (Bool-cases (i == j)) [
        | inl same ↦ let e : i ≡ j = ground arith in rw same (subst (λ n. Q n m p) e here)
        | inr other ↦ rw other (others i j _ _ _ _ _ (ground arith) move inv (at i) (at j))
      ]

  pub Reach-Holds : {s t : System M P} → Reach Move s t → Holds s → Holds t
  Reach-Holds start h = h
  Reach-Holds (later r step) h = Step-Holds step (Reach-Holds r h)

pub Reach-append :
    {M P : Type 0} {Move : ℕ → M → P → M → P → Type 0} {s t u : System M P}
    → Reach Move s t
    → Reach Move t u
    → Reach Move s u
Reach-append first start = first
Reach-append first (later r step) = later (Reach-append first r) step
