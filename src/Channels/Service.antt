-- ===== src/Channels/Service.antt =====
-- nestjs-project/src/channels/channels.service.ts. The transaction's entity manager is an argument,
-- and so are `toLowerCase` and the random bytes.
use videum_video_platform.Common.{
  ℕ, zero, suc, Bool, true, false, ◌&&◌, ◌||◌, List, [], ◌∷◌, Option, none, some, Text, codes,
  text_eq, Result, ok, err, internal, Action, ◌==◌, if◌then◌else◌,
}
use videum_video_platform.Channels.Channel.{Channel}
use videum_video_platform.Channels.Nickname.{sanitize_nickname, append_random_suffix}

-- An error that `manager.save` throws; the code and the detail are those of the driver.
pub record SaveError : Type 0 where
  pub is_query_failed_error : Bool
  pub code : Text
  pub detail : Option Text

pub data SaveReply : Type 0 where
  saved : Channel → SaveReply
  failed : SaveError → SaveReply

-- The fields that `manager.create(Channel, …)` is given.
pub record NewChannel : Type 0 where
  pub name : Text
  pub nickname : Text
  pub user_id : ℕ

-- A transaction of the data source, in a state of the given type over the table of channels.
pub record DataSource (T : Type 0) : Type 0 where
  pub begin : List Channel → T
  pub find_one : Text → T → Result (Option Channel) × T
  pub save : NewChannel → T → SaveReply × T
  pub commit : T → List Channel
  pub rollback : T → List Channel

-- `text.includes(word)`
unfoldable pub starts_with : Text → Text → Bool
starts_with [] t = true
starts_with (c ∷ s) [] = false
starts_with (c ∷ s) (d ∷ t) = c == d && starts_with s t

unfoldable pub includes : Text → Text → Bool
unfolding starts_with
includes word [] = starts_with word []
includes word (c ∷ s) = starts_with word (c ∷ s) || includes word s

-- `PG_UNIQUE_VIOLATION`, `NICKNAME_COLUMN`, `MAX_RETRIES`
abbrev pub pg_unique_violation : Text
pg_unique_violation = codes "23505"

abbrev pub nickname_column : Text
nickname_column = codes "nickname"

abbrev pub max_retries : ℕ
max_retries = 5

abbrev pub detail_includes : Text → Option Text → Bool
detail_includes column none = false
detail_includes column (some detail) = includes column detail

-- `isPgUniqueViolationOnColumn`
unfoldable pub is_pg_unique_violation_on_column : SaveError → Text → Bool
unfolding includes
is_pg_unique_violation_on_column e column =
    e.is_query_failed_error && text_eq e.code pg_unique_violation && detail_includes column e.detail

-- `email.split('@')[0]`
unfoldable pub before_at : Text → Text
before_at [] = []
before_at (c ∷ s) = if c == b'@' then [] else c ∷ before_at s

module _ {T : Type 0} where
  -- The `catch` around `manager.save`: a violation on the nickname goes to the next round.
  abbrev pub after_save : (T → Result Channel × T) → SaveReply × T → Result Channel × T
  after_save retry (saved channel, t) = (ok channel, t)
  after_save retry (failed e, t) =
      if is_pg_unique_violation_on_column e nickname_column then retry t else (err internal, t)

  -- What follows `manager.findOne`.
  abbrev pub after_find :
      DataSource T
      → NewChannel
      → (T → Result Channel × T)
      → Result (Option Channel) × T
      → Result Channel × T
  after_find ds new retry (err e, t) = (err e, t)
  after_find ds new retry (ok (some existing), t) = retry t
  after_find ds new retry (ok none, t) = after_save retry (ds.save new t)

  -- The loop, with the given number of rounds left, from a nickname. The bytes are those that a
  -- round's `appendRandomSuffix` draws.
  unfoldable pub create_from :
      DataSource T → (ℕ → List ℕ) → Text → ℕ → ℕ → Text → T → Result Channel × T
  create_from ds bytes base user_id zero nickname t = (err internal, t)
  create_from ds bytes base user_id (suc left) nickname t =
      after_find ds (record { name = base; nickname = nickname; user_id = user_id })
        (create_from ds bytes base user_id left (append_random_suffix (bytes left) base))
        (ds.find_one nickname t)

  -- The end of `dataSource.transaction`.
  abbrev pub end_transaction : DataSource T → Result Channel × T → Result Channel × List Channel
  end_transaction ds (ok channel, t) = (ok channel, ds.commit t)
  end_transaction ds (err e, t) = (err e, ds.rollback t)

  -- `createChannel`; the first bytes are those that `sanitizeNickname` draws.
  unfoldable pub create_channel :
      DataSource T
      → (Text → Text)
      → List ℕ
      → (ℕ → List ℕ)
      → ℕ
      → Text
      → Action (List Channel) Channel
  unfolding create_from before_at
  create_channel ds to_lower_case base_bytes bytes user_id email channels =
      let base = sanitize_nickname to_lower_case base_bytes (before_at email) in
      end_transaction ds
        (create_from ds bytes base user_id (suc max_retries) base (ds.begin channels))
