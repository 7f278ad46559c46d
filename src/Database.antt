-- ===== src/Database.antt =====
-- The schema of the database, and the SQL statements of the migrations in
-- nestjs-project/src/database/migrations as functions on it. A statement that PostgreSQL refuses is
-- `none`; the columns that an index or a foreign key names are not looked up.
pub mod Migrations
pub mod Undo
pub mod Reversal
pub mod Columns
use videum_video_platform.Common.{
  ℕ, Bool, true, false, not, ◌&&◌, ◌||◌, List, [], ◌∷◌, Option, none, some, Text, text_eq, find_one,
  delete_where, insert, is_some, if◌then◌else◌,
}

pub data ColumnType : Type 0 where
  -- `character varying`, with a length where it has one
  varchar : Option ℕ → ColumnType
  enum_type : Text → ColumnType
  uuid text boolean timestamp bigint integer : ColumnType

pub data ColumnDefault : Type 0 where
  uuid_generate_v4 now_time false_value : ColumnDefault
  label : Text → ColumnDefault

pub record Column : Type 0 where
  pub name : Text
  pub type : ColumnType
  pub is_nullable : Bool
  pub default_value : Option ColumnDefault

-- A constraint or an index on columns of a table.
pub record Key : Type 0 where
  pub name : Text
  pub columns : List Text

pub record Table : Type 0 where
  pub name : Text
  pub columns : List Column
  pub uniques : List Key
  pub primary_key : Key

pub record Index : Type 0 where
  pub name : Text
  pub table : Text
  pub columns : List Text

pub record ForeignKey : Type 0 where
  pub name : Text
  pub table : Text
  pub column : Text
  pub references : Text

pub record EnumType : Type 0 where
  pub name : Text
  pub labels : List Text

pub record Schema : Type 0 where
  pub types : List EnumType
  pub tables : List Table
  pub indexes : List Index
  pub foreign_keys : List ForeignKey

abbrev pub has_type : List EnumType → Text → Bool
has_type types name = is_some (find_one (λ t. text_eq t.name name) types)

abbrev pub has_table : List Table → Text → Bool
has_table tables name = is_some (find_one (λ t. text_eq t.name name) tables)

abbrev pub has_index : List Index → Text → Bool
has_index indexes name = is_some (find_one (λ i. text_eq i.name name) indexes)

-- The constraint of a name on a table.
abbrev pub is_constraint : Text → Text → ForeignKey → Bool
is_constraint table name f = text_eq f.table table && text_eq f.name name

abbrev pub is_known_type : List EnumType → ColumnType → Bool
is_known_type types (enum_type name) = has_type types name
is_known_type types _ = true

abbrev pub is_of_type : Text → ColumnType → Bool
is_of_type name (enum_type name') = text_eq name' name
is_of_type name _ = false

abbrev pub all_known : List EnumType → List Column → Bool
all_known types [] = true
all_known types (c ∷ columns) = is_known_type types c.type && all_known types columns

abbrev pub uses_type : Text → List Column → Bool
uses_type name [] = false
uses_type name (c ∷ columns) = is_of_type name c.type || uses_type name columns

pub data Statement : Type 0 where
  create_type : EnumType → Statement
  create_table : Table → Statement
  create_index : Index → Statement
  add_foreign_key : ForeignKey → Statement
  -- `ALTER TABLE … DROP CONSTRAINT …` of a foreign key
  drop_constraint : Text → Text → Statement
  drop_index drop_table drop_type : Text → Statement

-- One statement. `DROP TABLE` is refused while a foreign key of another table refers to the table,
-- and takes the table's own indexes and foreign keys with it; `DROP TYPE` is refused while a column
-- has the type.
unfoldable pub execute : Statement → Schema → Option Schema
execute (create_type t) s =
    if has_type s.types t.name then none else some (record s { types = insert t s.types })
execute (create_table t) s =
    if has_table s.tables t.name || not (all_known s.types t.columns)
    then none
    else some (record s { tables = insert t s.tables })
execute (create_index i) s =
    if has_index s.indexes i.name || not (has_table s.tables i.table)
    then none
    else some (record s { indexes = insert i s.indexes })
execute (add_foreign_key f) s =
    if is_some (find_one (is_constraint f.table f.name) s.foreign_keys)
      || not (has_table s.tables f.table)
      || not (has_table s.tables f.references)
    then none
    else some (record s { foreign_keys = insert f s.foreign_keys })
execute (drop_constraint table name) s =
    if is_some (find_one (is_constraint table name) s.foreign_keys)
    then some (record s { foreign_keys = delete_where (is_constraint table name) s.foreign_keys })
    else none
execute (drop_index name) s =
    if has_index s.indexes name
    then some (record s { indexes = delete_where (λ i. text_eq i.name name) s.indexes })
    else none
execute (drop_table name) s =
    if not (has_table s.tables name)
      || is_some
          (find_one (λ f. text_eq f.references name && not (text_eq f.table name)) s.foreign_keys)
    then none
    else some (record s {
      tables = delete_where (λ t. text_eq t.name name) s.tables;
      indexes = delete_where (λ i. text_eq i.table name) s.indexes;
      foreign_keys = delete_where (λ f. text_eq f.table name) s.foreign_keys;
    })
execute (drop_type name) s =
    if not (has_type s.types name) || is_some (find_one (λ t. uses_type name t.columns) s.tables)
    then none
    else some (record s { types = delete_where (λ t. text_eq t.name name) s.types })

abbrev pub then_execute : (Schema → Option Schema) → Option Schema → Option Schema
then_execute f none = none
then_execute f (some s) = f s

-- The queries of a migration, one after the other.
unfoldable pub execute_all : List Statement → Schema → Option Schema
execute_all [] s = some s
execute_all (q ∷ queries) s = then_execute (λ s'. execute_all queries s') (execute q s)
