-- ===== src/Database/Reversal.antt =====
-- Each migration of nestjs-project/src/database/migrations is undone by its `down`.
use videum_video_platform.Common.{
  ◌≡◌, refl, ap, sym, ◌∙◌, inl, inr, Bool, true, false, ◌&&◌, List, [], ◌∷◌, ◌++◌, Option, none,
  some, find_one, insert, is_some, All-map_of, Option-cases, arith, if◌then◌else◌, subst,
}
use videum_video_platform.Common.Tables.Laws.{All-insert}
use videum_video_platform.Database.{
  ColumnType, varchar, enum_type, uuid, boolean, timestamp, bigint, integer, Column, EnumType,
  Schema, has_type, has_table, has_index, is_constraint, is_known_type, all_known, Statement,
  create_type, create_table, create_index, add_foreign_key, drop_constraint, drop_index, drop_table,
  drop_type, execute, then_execute, execute_all,
}
use videum_video_platform.Database.Undo.{
  IsValidSchema, is_some-insert_old, undo_create_type, undo_create_table, undo_create_index,
  undo_add_foreign_key,
}
use videum_video_platform.Database.Migrations.{
  Migration, create_users_and_channels, create_auth_tokens, create_videos, up, down,
}

-- The statement that takes back one that creates.
abbrev inverse : Statement → Statement
inverse (create_type t) = drop_type t.name
inverse (create_table t) = drop_table t.name
inverse (create_index i) = drop_index i.name
inverse (add_foreign_key f) = drop_constraint f.table f.name
inverse q = q

abbrev pub creates : Statement → Bool
creates (create_type t) = true
creates (create_table t) = true
creates (create_index i) = true
creates (add_foreign_key f) = true
creates _ = false

is_known_type-insert :
    (t : EnumType) (types : List EnumType) (type : ColumnType)
    → is_known_type types type ≡ true
    → is_known_type (insert t types) type ≡ true
is_known_type-insert t types (enum_type name) known = is_some-insert_old _ t types known
is_known_type-insert t types (varchar n) known = refl
is_known_type-insert t types uuid known = refl
is_known_type-insert t types boolean known = refl
is_known_type-insert t types timestamp known = refl
is_known_type-insert t types bigint known = refl
is_known_type-insert t types integer known = refl
is_known_type-insert t types ColumnType.text known = refl

all_known-insert :
    (t : EnumType) (types : List EnumType) (columns : List Column)
    → all_known types columns ≡ true
    → all_known (insert t types) columns ≡ true
all_known-insert t types [] known = refl
all_known-insert t types (c ∷ columns) known =
    let here : is_known_type types c.type ≡ true = ground arith in
    let rest : all_known types columns ≡ true = ground arith in
    rw (is_known_type-insert t types c.type here, all_known-insert t types columns rest)

-- What a statement that succeeds has checked.
done-of_if :
    (refused : Bool) (s s' : Schema)
    → (if refused then none else some s) ≡ some s'
    → (refused ≡ false) × (s ≡ s')
done-of_if true s s' done = cc
done-of_if false s s' done = (refl, some-injective done)
  where
    value : Option Schema → Schema
    value none = s
    value (some x) = x

    some-injective : some s ≡ some s' → s ≡ s'
    some-injective e = ap value e

-- A statement that creates is undone by its inverse, and keeps the schema valid.
execute-inverse :
    (q : Statement) (s s' : Schema)
    → creates q ≡ true
    → IsValidSchema s
    → execute q s ≡ some s'
    → (execute (inverse q) s' ≡ some s) × IsValidSchema s'
unfolding execute
execute-inverse (create_type t) s s' new valid done =
    let (missing, same) = done-of_if (has_type s.types t.name) _ s' done in
    subst (λ x. (execute (drop_type t.name) x ≡ some s) × IsValidSchema x) same
      (
        undo_create_type s valid t missing,
        record {
          columns =
              All-map_of _ _ s.tables (λ x known. all_known-insert t s.types x.columns known)
                valid.columns;
          indexes = valid.indexes;
          owners = valid.owners;
          references = valid.references;
        },
      )
execute-inverse (create_table t) s s' new valid done =
    let (open_name, same) = done-of_if _ _ s' done in
    let missing : has_table s.tables t.name ≡ false = ground arith in
    let known : all_known s.types t.columns ≡ true = ground arith in
    subst (λ x. (execute (drop_table t.name) x ≡ some s) × IsValidSchema x) same
      (
        undo_create_table s valid t missing,
        record {
          columns = All-insert _ t s.tables valid.columns known;
          indexes =
              All-map_of _ _ s.indexes (λ i there. is_some-insert_old _ t s.tables there)
                valid.indexes;
          owners =
              All-map_of _ _ s.foreign_keys (λ f there. is_some-insert_old _ t s.tables there)
                valid.owners;
          references =
              All-map_of _ _ s.foreign_keys (λ f there. is_some-insert_old _ t s.tables there)
                valid.references;
        },
      )
execute-inverse (create_index i) s s' new valid done =
    let (open_name, same) = done-of_if _ _ s' done in
    let missing : has_index s.indexes i.name ≡ false = ground arith in
    let there : has_table s.tables i.table ≡ true = ground arith in
    subst (λ x. (execute (drop_index i.name) x ≡ some s) × IsValidSchema x) same
      (
        undo_create_index s i missing,
        record {
          columns = valid.columns;
          indexes = All-insert _ i s.indexes valid.indexes there;
          owners = valid.owners;
          references = valid.references;
        },
      )
execute-inverse (add_foreign_key f) s s' new valid done =
    let (open_name, same) = done-of_if _ _ s' done in
    let missing : is_some (find_one (is_constraint f.table f.name) s.foreign_keys) ≡ false =
      ground arith in
    let owner : has_table s.tables f.table ≡ true = ground arith in
    let there : has_table s.tables f.references ≡ true = ground arith in
    subst (λ x. (execute (drop_constraint f.table f.name) x ≡ some s) × IsValidSchema x) same
      (
        undo_add_foreign_key s f missing,
        record {
          columns = valid.columns;
          indexes = valid.indexes;
          owners = All-insert _ f s.foreign_keys valid.owners owner;
          references = All-insert _ f s.foreign_keys valid.references there;
        },
      )
execute-inverse (drop_constraint table name) s s' new valid done = cc
execute-inverse (drop_index name) s s' new valid done = cc
execute-inverse (drop_table name) s s' new valid done = cc
execute-inverse (drop_type name) s s' new valid done = cc

abbrev all_create : List Statement → Bool
all_create [] = true
all_create (q ∷ queries) = creates q && all_create queries

-- The inverses, the last one first.
abbrev inverse_all : List Statement → List Statement
inverse_all [] = []
inverse_all (q ∷ queries) = inverse_all queries ++ inverse q ∷ []

execute_all-append :
    (first second : List Statement) (s : Schema)
    → execute_all (first ++ second) s
      ≡ then_execute (λ x. execute_all second x) (execute_all first s)
unfolding execute_all
execute_all-append [] second s = refl
execute_all-append (q ∷ first) second s = elim (Option-cases (execute q s)) [
  | inl failed ↦ rw failed
  | inr (t, done) ↦ rw done (execute_all-append first second t)
]

execute_all-inverse :
    (queries : List Statement) (s s' : Schema)
    → all_create queries ≡ true
    → IsValidSchema s
    → execute_all queries s ≡ some s'
    → (execute_all (inverse_all queries) s' ≡ some s) × IsValidSchema s'
unfolding execute_all
execute_all-inverse [] s s' new valid done =
    let (_, same) = done-of_if false s s' done in
    (ap some (sym same), subst IsValidSchema same valid)
execute_all-inverse (q ∷ queries) s s' new valid done = elim (Option-cases (execute q s)) [
  | inl failed ↦ absurd (let no : none ≡ some s' = rw failed at done in cc)
  | inr (t, first) ↦
      let one : creates q ≡ true = ground arith in
      let others : all_create queries ≡ true = ground arith in
      let rest : execute_all queries t ≡ some s' = rw first at done in
      let (undo, valid') = execute-inverse q s t one valid first in
      let (undo_rest, valid'') = execute_all-inverse queries t s' others valid' rest in
      (execute_all-append (inverse_all queries) (inverse q ∷ []) s' ∙ rw (undo_rest, undo), valid'')
]

-- Where `up` of a migration runs on a schema whose indexes and foreign keys are on tables that are
-- there, and whose columns have types that are there, `down` runs on the result and gives the schema
-- back; the result is again such a schema.
pub down-up :
    (m : Migration) (s s' : Schema)
    → IsValidSchema s
    → execute_all (up m) s ≡ some s'
    → (execute_all (down m) s' ≡ some s) × IsValidSchema s'
unfolding up down
down-up create_users_and_channels s s' valid done = execute_all-inverse _ s s' refl valid done
down-up create_auth_tokens s s' valid done = execute_all-inverse _ s s' refl valid done
down-up create_videos s s' valid done = execute_all-inverse _ s s' refl valid done
