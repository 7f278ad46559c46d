-- ===== src/Users.antt =====
-- nestjs-project/src/users/users.service.ts over the tables of users and channels. The channels
-- service is an argument: a call on the table of channels.
pub mod Creation
use videum_video_platform.Common.{
  ℕ, Bool, false, List, Option, none, some, Text, text_eq, Result, ok, err, Action, internal,
  find_one, delete_where, insert, is_some, if◌then◌else◌, ◌==◌,
}
use videum_video_platform.Channels.Channel.{Channel}
use videum_video_platform.Auth.Model.{User, AuthDb}

-- The condition `user.email = :email`.
abbrev pub has_email : Text → User → Bool
has_email email user = text_eq user.email email

abbrev pub has_id : ℕ → User → Bool
has_id id user = user.id == id

-- `findByEmail`; the digest is selected with the row.
unfoldable pub find_by_email : Text → AuthDb → Option User
find_by_email email db = find_one (has_email email) db.users

-- The one-to-one relation `user.channel`.
unfoldable pub channel_of : ℕ → AuthDb → Option Channel
channel_of user_id db = find_one (λ c. c.user_id == user_id) db.channels

abbrev pub with_channel : AuthDb → Option User → Option (User × Option Channel)
with_channel db none = none
with_channel db (some user) = some (user, channel_of user.id db)

-- `findByEmailWithChannel`
unfoldable pub find_by_email_with_channel : Text → AuthDb → Option (User × Option Channel)
unfolding find_by_email
find_by_email_with_channel email db = with_channel db (find_by_email email db)

-- `userRepository.save` of a new user: the column `email` is unique.
unfoldable pub save_new_user : User → Action AuthDb User
save_new_user user db =
    if is_some (find_one (has_email user.email) db.users)
    then (err internal, db)
    else (ok user, record db { users = insert user db.users })

-- The `try` and `catch` around `createChannel`: the user is deleted before the error is thrown on.
abbrev pub or_delete_user :
    User → Result Channel × List Channel → AuthDb → Result (User × Channel) × AuthDb
or_delete_user user (ok channel, channels) db =
    (ok (user, channel), record db { channels = channels })
or_delete_user user (err e, channels) db =
    (err e, record db { channels = channels; users = delete_where (has_id user.id) db.users })

-- What follows the `save` of the user.
abbrev pub with_new_channel :
    (ℕ → Text → Action (List Channel) Channel)
    → Text
    → Result User × AuthDb
    → Result (User × Channel) × AuthDb
with_new_channel create_channel email (err e, db) = (err e, db)
with_new_channel create_channel email (ok user, db) =
    or_delete_user user (create_channel user.id email db.channels) db

-- `createUserWithChannel`; `id` is the identifier that the database gives to the user.
unfoldable pub create_user_with_channel :
    (ℕ → Text → Action (List Channel) Channel) → ℕ → Text → Text → Action AuthDb (User × Channel)
unfolding save_new_user
create_user_with_channel create_channel id email hashed_password db =
    let user : User = record {
      id = id;
      email = email;
      password = hashed_password;
      is_confirmed = false;
    } in
    with_new_channel create_channel email (save_new_user user db)
