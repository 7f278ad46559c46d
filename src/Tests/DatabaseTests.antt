-- ===== src/Tests/DatabaseTests.antt =====
-- The migrations on an empty database, and the columns of the table of videos.
use videum_video_platform.Common.{◌≡◌, refl, true, [], some, text_eq, find_one, insert, is_some}
use videum_video_platform.Database.{Schema, then_execute, execute, execute_all}
use videum_video_platform.Database.Undo.{IsValidSchema}
use videum_video_platform.Database.Migrations.{
  create_users_and_channels, create_auth_tokens, create_videos, up, down,
}
use videum_video_platform.Database.Reversal.{down-up}

abbrev empty_schema : Schema
empty_schema = record { types = []; tables = []; indexes = []; foreign_keys = [] }

-- All three migrations run on an empty database.
migrations-run :
    is_some (
      then_execute
        (λ s. execute_all (up create_videos) s)
        (then_execute
          (λ s. execute_all (up create_auth_tokens) s)
          (execute_all (up create_users_and_channels) empty_schema)))
    ≡ true
unfolding execute_all execute up find_one insert text_eq
migrations-run = refl

first-run : (s : Schema) × (execute_all (up create_users_and_channels) empty_schema ≡ some s)
unfolding execute_all execute up find_one insert text_eq
first-run = (_, refl)

empty-IsValidSchema : IsValidSchema empty_schema
empty-IsValidSchema = record { columns = tt; indexes = tt; owners = tt; references = tt }

down-up_example :
    (execute_all (down create_users_and_channels) first-run.0 ≡ some empty_schema)
    × IsValidSchema first-run.0
down-up_example =
    down-up create_users_and_channels empty_schema first-run.0 empty-IsValidSchema first-run.1
