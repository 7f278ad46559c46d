-- ===== src/Database/Undo.antt =====
-- Each statement that creates something is undone by the one that drops it.
use videum_video_platform.Common.{
  ◌≡◌, refl, ap, sym, ◌∙◌, inl, inr, Bool, true, false, not, ◌&&◌, List, [], ◌∷◌, some, Text,
  text_eq, text_eq_refl, text_eq_iff, find_one, delete_where, insert, is_some, All, All-map_of,
  Bool-cases, Option-cases, arith,
}
use videum_video_platform.Common.Tables.Laws.{find_one-none-All}
use videum_video_platform.Database.{
  ColumnType, varchar, enum_type, uuid, boolean, timestamp, bigint, integer, Column, Table, Index,
  ForeignKey, EnumType, Schema, has_type, has_table, has_index, is_constraint, is_known_type,
  is_of_type, all_known, uses_type, drop_constraint, drop_index, drop_table, drop_type, execute,
}

module _ {A : Type 0} (p : A → Bool) where
  delete_where-none : (xs : List A) → All (λ x. p x ≡ false) xs → delete_where p xs ≡ xs
  unfolding delete_where
  delete_where-none [] h = refl
  delete_where-none (x ∷ xs) (out, h) = rw out (ap (λ ys. x ∷ ys) (delete_where-none xs h))

  -- A row that is inserted as the only one of its kind is all that a deletion takes.
  delete_where-insert :
      (x : A) (xs : List A)
      → p x ≡ true
      → All (λ y. p y ≡ false) xs
      → delete_where p (insert x xs) ≡ xs
  unfolding delete_where insert
  delete_where-insert x [] hit h = rw hit
  delete_where-insert x (y ∷ xs) hit (out, h) =
      rw out (ap (λ ys. y ∷ ys) (delete_where-insert x xs hit h))

  missing-All : (xs : List A) → is_some (find_one p xs) ≡ false → All (λ x. p x ≡ false) xs
  missing-All xs missing = elim (Option-cases (find_one p xs)) [
    | inl unknown ↦ find_one-none-All p xs unknown
    | inr (x, found) ↦ absurd (let no : true ≡ false = rw found at missing in cc)
  ]

  All-missing : (xs : List A) → All (λ x. p x ≡ false) xs → is_some (find_one p xs) ≡ false
  unfolding find_one
  All-missing [] h = refl
  All-missing (x ∷ xs) (out, h) = rw out (All-missing xs h)

  pub is_some-insert_new :
      (x : A) (xs : List A) → p x ≡ true → is_some (find_one p (insert x xs)) ≡ true
  unfolding find_one insert
  is_some-insert_new x [] hit = rw hit
  is_some-insert_new x (y ∷ xs) hit = elim (Bool-cases (p y)) [
    | inl here ↦ rw here
    | inr other ↦ rw other (is_some-insert_new x xs hit)
  ]

  pub is_some-insert_old :
      (x : A) (xs : List A)
      → is_some (find_one p xs) ≡ true
      → is_some (find_one p (insert x xs)) ≡ true
  unfolding find_one insert
  is_some-insert_old x [] found = cc
  is_some-insert_old x (y ∷ xs) found = elim (Bool-cases (p y)) [
    | inl here ↦ rw here
    | inr other ↦ rw other (is_some-insert_old x xs (rw other at found))
  ]

-- A name that is known differs from one that is not.
other_name :
    (has : Text → Bool) (known unknown : Text)
    → has known ≡ true
    → has unknown ≡ false
    → text_eq known unknown ≡ false
other_name has known unknown yes_known no_unknown = elim (Bool-cases (text_eq known unknown)) [
  | inr other ↦ other
  | inl same ↦ absurd (
      let e = ap has ((text_eq_iff known unknown).0 same) in
      let clash : true ≡ false = sym yes_known ∙ e ∙ no_unknown in cc)
]

-- Every index and foreign key is on a table and refers to one, and every column has a known type.
pub record IsValidSchema (s : Schema) : Type 0 where
  pub columns : All (λ t. all_known s.types t.columns ≡ true) s.tables
  pub indexes : All (λ i. has_table s.tables i.table ≡ true) s.indexes
  pub owners : All (λ f. has_table s.tables f.table ≡ true) s.foreign_keys
  pub references : All (λ f. has_table s.tables f.references ≡ true) s.foreign_keys

-- Columns of known types do not use a type that is unknown.
uses_type-unknown :
    (types : List EnumType) (name : Text) (columns : List Column)
    → has_type types name ≡ false
    → all_known types columns ≡ true
    → uses_type name columns ≡ false
uses_type-unknown types name [] unknown known = refl
uses_type-unknown types name (c ∷ columns) unknown known =
    let here : is_known_type types c.type ≡ true = ground arith in
    let rest : all_known types columns ≡ true = ground arith in
    rw (other c.type here, uses_type-unknown types name columns unknown rest)
  where
    other : (t : ColumnType) → is_known_type types t ≡ true → is_of_type name t ≡ false
    other (enum_type used) known_t = other_name (λ n. has_type types n) used name known_t unknown
    other (varchar n) known_t = refl
    other uuid known_t = refl
    other boolean known_t = refl
    other timestamp known_t = refl
    other bigint known_t = refl
    other integer known_t = refl
    other ColumnType.text known_t = refl

module _ (s : Schema) (valid : IsValidSchema s) where
  pub undo_create_type :
      (t : EnumType)
      → has_type s.types t.name ≡ false
      → execute (drop_type t.name) (record s { types = insert t s.types }) ≡ some s
  unfolding execute
  undo_create_type t missing =
      let present =
        is_some-insert_new (λ (x : EnumType). text_eq x.name t.name) t s.types
          (text_eq_refl t.name) in
      let unused =
        All-missing (λ (x : Table). uses_type t.name x.columns) s.tables
          (All-map_of _ _ s.tables
            (λ x known. uses_type-unknown s.types t.name x.columns missing known) valid.columns) in
      let gone =
        delete_where-insert (λ (x : EnumType). text_eq x.name t.name) t s.types
          (text_eq_refl t.name) (missing-All _ s.types missing) in
      rw (present, unused, gone)

  pub undo_create_table :
      (t : Table)
      → has_table s.tables t.name ≡ false
      → execute (drop_table t.name) (record s { tables = insert t s.tables }) ≡ some s
  unfolding execute
  undo_create_table t missing =
      let present =
        is_some-insert_new (λ (x : Table). text_eq x.name t.name) t s.tables
          (text_eq_refl t.name) in
      let unreferenced =
        All-missing
          (λ (f : ForeignKey). text_eq f.references t.name && not (text_eq f.table t.name))
          s.foreign_keys
          (All-map_of _ _ s.foreign_keys
            (λ f there.
              let other =
                other_name (λ n. has_table s.tables n) f.references t.name there missing in
              rw other)
            valid.references) in
      let gone =
        delete_where-insert (λ (x : Table). text_eq x.name t.name) t s.tables (text_eq_refl t.name)
          (missing-All _ s.tables missing) in
      let no_index =
        delete_where-none (λ (i : Index). text_eq i.table t.name) s.indexes
          (All-map_of _ _ s.indexes
            (λ i there. other_name (λ n. has_table s.tables n) i.table t.name there missing)
            valid.indexes) in
      let no_key =
        delete_where-none (λ (f : ForeignKey). text_eq f.table t.name) s.foreign_keys
          (All-map_of _ _ s.foreign_keys
            (λ f there. other_name (λ n. has_table s.tables n) f.table t.name there missing)
            valid.owners) in
      rw (present, unreferenced, gone, no_index, no_key)

pub undo_create_index :
    (s : Schema) (i : Index)
    → has_index s.indexes i.name ≡ false
    → execute (drop_index i.name) (record s { indexes = insert i s.indexes }) ≡ some s
unfolding execute
undo_create_index s i missing =
    let present =
      is_some-insert_new (λ (x : Index). text_eq x.name i.name) i s.indexes (text_eq_refl i.name) in
    let gone =
      delete_where-insert (λ (x : Index). text_eq x.name i.name) i s.indexes (text_eq_refl i.name)
        (missing-All _ s.indexes missing) in
    rw (present, gone)

pub undo_add_foreign_key :
    (s : Schema) (f : ForeignKey)
    → is_some (find_one (is_constraint f.table f.name) s.foreign_keys) ≡ false
    → execute (drop_constraint f.table f.name) (record s { foreign_keys = insert f s.foreign_keys })
      ≡ some s
unfolding execute
undo_add_foreign_key s f missing =
    let self : is_constraint f.table f.name f ≡ true =
      rw (text_eq_refl f.table, text_eq_refl f.name) in
    let present = is_some-insert_new (is_constraint f.table f.name) f s.foreign_keys self in
    let gone =
      delete_where-insert (is_constraint f.table f.name) f s.foreign_keys self
        (missing-All _ s.foreign_keys missing) in
    rw (present, gone)
