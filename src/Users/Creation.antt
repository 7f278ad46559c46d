-- ===== src/Users/Creation.antt =====
-- The outcomes of `createUserWithChannel` of nestjs-project/src/users/users.service.ts.
use videum_video_platform.Common.{
  ℕ, ◌≡◌, false, List, none, Text, ok, err, Exception, Action, insert, delete_where,
}
use videum_video_platform.Channels.Channel.{Channel}
use videum_video_platform.Auth.Model.{User, AuthDb}
use videum_video_platform.Users.{find_by_email, has_id, save_new_user, create_user_with_channel}

-- The row of a new user.
abbrev pub new_user : ℕ → Text → Text → User
new_user id email hashed_password = record {
  id = id;
  email = email;
  password = hashed_password;
  is_confirmed = false;
}

module _ (create_channel : ℕ → Text → Action (List Channel) Channel) (id : ℕ)
    (email hashed_password : Text) (db : AuthDb) (channels : List Channel) where
  save_new_user-free :
      find_by_email email db ≡ none
      → save_new_user (new_user id email hashed_password) db ≡ (
        ok (new_user id email hashed_password),
        record db { users = insert (new_user id email hashed_password) db.users },
      )
  unfolding save_new_user find_by_email
  save_new_user-free free = rw free

  pub create_user_with_channel-ok :
      (channel : Channel)
      → find_by_email email db ≡ none
      → create_channel id email db.channels ≡ (ok channel, channels)
      → create_user_with_channel create_channel id email hashed_password db ≡ (
        ok (new_user id email hashed_password, channel),
        record db {
          users = insert (new_user id email hashed_password) db.users;
          channels = channels;
        },
      )
  unfolding create_user_with_channel
  create_user_with_channel-ok channel free made = rw (save_new_user-free free, made)

  -- Where no channel can be made, the user is taken out again.
  pub create_user_with_channel-err :
      (failure : Exception)
      → find_by_email email db ≡ none
      → create_channel id email db.channels ≡ (err failure, channels)
      → create_user_with_channel create_channel id email hashed_password db ≡ (
        err failure,
        record db {
          users = delete_where (has_id id) (insert (new_user id email hashed_password) db.users);
          channels = channels;
        },
      )
  unfolding create_user_with_channel
  create_user_with_channel-err failure free made = rw (save_new_user-free free, made)
