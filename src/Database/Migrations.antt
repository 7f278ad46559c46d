-- ===== src/Database/Migrations.antt =====
-- The migrations of nestjs-project/src/database/migrations, statement by statement.
use videum_video_platform.Common.{true, false, List, [], ◌∷◌, none, some, Text, codes}
use videum_video_platform.Database.{
  ColumnType, varchar, enum_type, uuid, text, boolean, timestamp, bigint, integer, uuid_generate_v4,
  now_time, false_value, label, Column, Key, Table, Statement, create_type, create_table,
  create_index, add_foreign_key, drop_constraint, drop_index, drop_table, drop_type,
}

abbrev pub column : Text → ColumnType → Column
column name type = record { name = name; type = type; is_nullable = false; default_value = none }

abbrev pub nullable : Column → Column
nullable c = record c { is_nullable = true }

abbrev pub id_column : Column
id_column = record (column (codes "id") uuid) { default_value = some uuid_generate_v4 }

abbrev pub time_column : Text → Column
time_column name = record (column name timestamp) { default_value = some now_time }

abbrev pub key_on : Text → Text → Key
key_on name column_name = record { name = name; columns = column_name ∷ [] }

-- `CREATE TABLE "channels"`
abbrev pub channels_table : Table
channels_table = record {
  name = codes "channels";
  columns =
      id_column
      ∷ column (codes "name") (varchar (some 50))
      ∷ column (codes "nickname") (varchar (some 50))
      ∷ nullable (column (codes "description") text)
      ∷ column (codes "user_id") uuid
      ∷ time_column (codes "created_at")
      ∷ time_column (codes "updated_at")
      ∷ [];
  uniques =
      key_on (codes "UQ_a221f571edb63f68938f1bdd969") (codes "nickname")
      ∷ key_on (codes "UQ_23dc7937150c9567d37869313ce") (codes "user_id")
      ∷ key_on (codes "REL_23dc7937150c9567d37869313c") (codes "user_id")
      ∷ [];
  primary_key = key_on (codes "PK_bc603823f3f741359c2339389f9") (codes "id");
}

-- `CREATE TABLE "users"`
abbrev pub users_table : Table
users_table = record {
  name = codes "users";
  columns =
      id_column
      ∷ column (codes "email") (varchar none)
      ∷ column (codes "password") (varchar none)
      ∷ record (column (codes "is_confirmed") boolean) { default_value = some false_value }
      ∷ time_column (codes "created_at")
      ∷ time_column (codes "updated_at")
      ∷ [];
  uniques = key_on (codes "UQ_97672ac88f789774dd47f7c8be3") (codes "email") ∷ [];
  primary_key = key_on (codes "PK_a3ffb1c0c8416b9fc6f907b7433") (codes "id");
}

-- `CreateUsersAndChannels.up`
unfoldable pub create_users_and_channels_up : List Statement
create_users_and_channels_up =
    create_table channels_table
    ∷ create_table users_table
    ∷ add_foreign_key (record {
      name = codes "FK_23dc7937150c9567d37869313ce";
      table = codes "channels";
      column = codes "user_id";
      references = codes "users";
    })
    ∷ []

-- `CreateUsersAndChannels.down`
unfoldable pub create_users_and_channels_down : List Statement
create_users_and_channels_down =
    drop_constraint (codes "channels") (codes "FK_23dc7937150c9567d37869313ce")
    ∷ drop_table (codes "users")
    ∷ drop_table (codes "channels")
    ∷ []

-- `CREATE TABLE "verification_tokens"`
abbrev pub verification_tokens_table : Table
verification_tokens_table = record {
  name = codes "verification_tokens";
  columns =
      id_column
      ∷ column (codes "token_hash") (varchar none)
      ∷ column (codes "type") (enum_type (codes "verification_tokens_type_enum"))
      ∷ column (codes "user_id") uuid
      ∷ column (codes "expires_at") timestamp
      ∷ nullable (column (codes "used_at") timestamp)
      ∷ time_column (codes "created_at")
      ∷ [];
  uniques = [];
  primary_key = key_on (codes "PK_f2d4d7a2aa57ef199e61567db22") (codes "id");
}

-- `CREATE TABLE "refresh_tokens"`
abbrev pub refresh_tokens_table : Table
refresh_tokens_table = record {
  name = codes "refresh_tokens";
  columns =
      id_column
      ∷ column (codes "token_hash") (varchar none)
      ∷ column (codes "family") uuid
      ∷ column (codes "user_id") uuid
      ∷ column (codes "expires_at") timestamp
      ∷ nullable (column (codes "revoked_at") timestamp)
      ∷ time_column (codes "created_at")
      ∷ [];
  uniques = [];
  primary_key = key_on (codes "PK_7d8bee0204106019488c4c50ffa") (codes "id");
}

-- `CreateAuthTokens.up`
unfoldable pub create_auth_tokens_up : List Statement
create_auth_tokens_up =
    create_type (record {
      name = codes "verification_tokens_type_enum";
      labels = codes "email_confirmation" ∷ codes "password_reset" ∷ [];
    })
    ∷ create_table verification_tokens_table
    ∷ create_index (record {
      name = codes "IDX_19d8484a0754cd015ca11302a5";
      table = codes "verification_tokens";
      columns = codes "token_hash" ∷ [];
    })
    ∷ create_table refresh_tokens_table
    ∷ create_index (record {
      name = codes "IDX_a7838d2ba25be1342091b6695f";
      table = codes "refresh_tokens";
      columns = codes "token_hash" ∷ [];
    })
    ∷ create_index (record {
      name = codes "IDX_46561d7f0169611662bbc8f542";
      table = codes "refresh_tokens";
      columns = codes "family" ∷ codes "revoked_at" ∷ [];
    })
    ∷ add_foreign_key (record {
      name = codes "FK_31d2079dc4079b80517d31cf4f2";
      table = codes "verification_tokens";
      column = codes "user_id";
      references = codes "users";
    })
    ∷ add_foreign_key (record {
      name = codes "FK_3ddc983c5f7bcf132fd8732c3f4";
      table = codes "refresh_tokens";
      column = codes "user_id";
      references = codes "users";
    })
    ∷ []

-- `CreateAuthTokens.down`
unfoldable pub create_auth_tokens_down : List Statement
create_auth_tokens_down =
    drop_constraint (codes "refresh_tokens") (codes "FK_3ddc983c5f7bcf132fd8732c3f4")
    ∷ drop_constraint (codes "verification_tokens") (codes "FK_31d2079dc4079b80517d31cf4f2")
    ∷ drop_index (codes "IDX_46561d7f0169611662bbc8f542")
    ∷ drop_index (codes "IDX_a7838d2ba25be1342091b6695f")
    ∷ drop_table (codes "refresh_tokens")
    ∷ drop_index (codes "IDX_19d8484a0754cd015ca11302a5")
    ∷ drop_table (codes "verification_tokens")
    ∷ drop_type (codes "verification_tokens_type_enum")
    ∷ []

-- `CREATE TABLE "videos"`
abbrev pub videos_table : Table
videos_table = record {
  name = codes "videos";
  columns =
      id_column
      ∷ column (codes "public_id") uuid
      ∷ column (codes "owner_id") uuid
      ∷ column (codes "title") (varchar (some 255))
      ∷ column (codes "original_filename") (varchar (some 255))
      ∷ column (codes "storage_key") (varchar (some 512))
      ∷ nullable (column (codes "upload_id") (varchar (some 255)))
      ∷ column (codes "size_bytes") bigint
      ∷ column (codes "content_type") (varchar (some 127))
      ∷ record (column (codes "status") (enum_type (codes "videos_status_enum"))) {
        default_value = some (label (codes "uploading"));
      }
      ∷ nullable (column (codes "duration_seconds") integer)
      ∷ nullable (column (codes "thumbnail_key") (varchar (some 512)))
      ∷ time_column (codes "created_at")
      ∷ time_column (codes "updated_at")
      ∷ [];
  uniques =
      key_on (codes "UQ_39a1f0fe7991162aace659078ec") (codes "public_id")
      ∷ key_on (codes "UQ_6ce3c9805943abd5b2950847b64") (codes "storage_key")
      ∷ [];
  primary_key = key_on (codes "PK_e4c86c0cf95aff16e9fb8220f6b") (codes "id");
}

-- `CreateVideos.up`
unfoldable pub create_videos_up : List Statement
create_videos_up =
    create_type (record {
      name = codes "videos_status_enum";
      labels = codes "uploading" ∷ codes "processing" ∷ codes "ready" ∷ codes "failed" ∷ [];
    })
    ∷ create_table videos_table
    ∷ create_index (record {
      name = codes "IDX_fa92ce74fa6331a7ad7743dea5";
      table = codes "videos";
      columns = codes "status" ∷ codes "created_at" ∷ [];
    })
    ∷ add_foreign_key (record {
      name = codes "FK_b89ed5035c8cb525f39f7f8b6b9";
      table = codes "videos";
      column = codes "owner_id";
      references = codes "users";
    })
    ∷ []

-- `CreateVideos.down`
unfoldable pub create_videos_down : List Statement
create_videos_down =
    drop_constraint (codes "videos") (codes "FK_b89ed5035c8cb525f39f7f8b6b9")
    ∷ drop_index (codes "IDX_fa92ce74fa6331a7ad7743dea5")
    ∷ drop_table (codes "videos")
    ∷ drop_type (codes "videos_status_enum")
    ∷ []

-- What `migrations` of nestjs-project/src/database/data-source.ts loads.
pub data Migration : Type 0 where
  create_users_and_channels create_auth_tokens create_videos : Migration

-- The queries of `up` and of `down`.
unfoldable pub up : Migration → List Statement
unfolding create_users_and_channels_up create_auth_tokens_up create_videos_up
up create_users_and_channels = create_users_and_channels_up
up create_auth_tokens = create_auth_tokens_up
up create_videos = create_videos_up

unfoldable pub down : Migration → List Statement
unfolding create_users_and_channels_down create_auth_tokens_down create_videos_down
down create_users_and_channels = create_users_and_channels_down
down create_auth_tokens = create_auth_tokens_down
down create_videos = create_videos_down
