-- ===== src/Database/Columns.antt =====
-- The lengths that the code checks against the lengths of the columns that the migrations create.
use videum_video_platform.Common.{
  ◌≡◌, refl, Bool, true, false, ◌&&◌, List, [], ◌∷◌, Option, none, some, Text, codes, text_eq,
  char_count, leb, Option-cases, inl, inr, if◌then◌else◌,
}
use videum_video_platform.Videos.Model.{Video, fits_columns}
use videum_video_platform.Database.{ColumnType, varchar, Column}
use videum_video_platform.Database.Migrations.{videos_table}

-- A value fits a column of a length; one that is absent, or not a text, fits every column.
abbrev pub fits_type : ColumnType → Option Text → Bool
fits_type (varchar (some n)) (some value) = leb (char_count value) n
fits_type _ _ = true

abbrev pub fits_all : List Column → (Text → Option Text) → Bool
fits_all [] row = true
fits_all (c ∷ columns) row = fits_type c.type (row c.name) && fits_all columns row

-- The texts of a row by the names of their columns.
unfoldable pub texts_of : Video → Text → Option Text
texts_of v name =
    if text_eq name (codes "title")
    then some v.title
    else if text_eq name (codes "original_filename")
    then some v.original_filename
    else if text_eq name (codes "storage_key")
    then some v.storage_key
    else if text_eq name (codes "content_type")
    then some v.content_type
    else if text_eq name (codes "upload_id")
    then v.upload_id
    else if text_eq name (codes "thumbnail_key")
    then v.thumbnail_key
    else none

and_four : (a b c d e : Bool) → (a && (b && (c && (d && (e && true))))) ≡ (a && b && c && e && d)
and_four false b c d e = refl
and_four true false c d e = refl
and_four true true false d e = refl
and_four true true true false false = refl
and_four true true true false true = refl
and_four true true true true false = refl
and_four true true true true true = refl

-- A row without a thumbnail fits the model's columns exactly if it fits the columns of the table
-- that the migration creates.
pub fits_all-videos_table :
    (v : Video)
    → v.thumbnail_key ≡ none
    → fits_all videos_table.columns (texts_of v) ≡ fits_columns v
unfolding texts_of text_eq fits_columns
fits_all-videos_table v none_yet = elim (Option-cases v.upload_id) [
  | inl no_id ↦
      rw (none_yet, no_id)
        (and_four (leb (char_count v.title) 255) (leb (char_count v.original_filename) 255)
          (leb (char_count v.storage_key) 512) true (leb (char_count v.content_type) 127))
  | inr (id, has_id) ↦
      rw (none_yet, has_id)
        (and_four (leb (char_count v.title) 255) (leb (char_count v.original_filename) 255)
          (leb (char_count v.storage_key) 512) (leb (char_count id) 255)
          (leb (char_count v.content_type) 127))
]
