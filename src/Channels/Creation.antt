-- ===== src/Channels/Creation.antt =====
-- What `createChannel` of nestjs-project/src/channels/channels.service.ts saves, and when it fails.
use videum_video_platform.Common.{
  ℕ, zero, suc, ◌≤◌, ◌≡◌, refl, ap, sym, ◌∙◌, List, Option, none, some, Text, length, Result, ok,
  err, internal, Bool-cases, inl, inr, arith, ok-injective,
}
use videum_video_platform.Channels.Channel.{Channel}
use videum_video_platform.Channels.Nickname.{sanitize_nickname, append_random_suffix}
use videum_video_platform.Channels.Bounds.{
  IsNickname, sanitize_nickname_bounds, append_random_suffix_bounds,
}
use videum_video_platform.Channels.Service.{
  SaveError, SaveReply, saved, failed, NewChannel, DataSource, is_pg_unique_violation_on_column,
  nickname_column, after_save, after_find, create_from, create_channel, end_transaction, before_at,
  max_retries,
}

-- `save` returns the row that it was given.
pub record IsStore {T : Type 0} (ds : DataSource T) : Type 0 where
  pub keeps :
      (new : NewChannel) (t : T) (c : Channel)
      → (ds.save new t).0 ≡ saved c
      → (c.name ≡ new.name) × (c.nickname ≡ new.nickname) × (c.user_id ≡ new.user_id)

-- What a channel looks like that was made for a base.
pub record IsMadeFor (base : Text) (user_id : ℕ) (c : Channel) : Type 0 where
  pub named : c.name ≡ base
  pub owned : c.user_id ≡ user_id
  pub fits : length c.nickname ≤ 50
  pub spelled : IsNickname c.nickname

module _ {T : Type 0} (ds : DataSource T) (store : IsStore ds) (bytes : ℕ → List ℕ) (base : Text)
    (user_id : ℕ) (base_ok : IsNickname base) where
  -- One round keeps what its saved channel and the next round promise.
  after_find-IsMadeFor :
      (nickname : Text) (retry : T → Result Channel × T) (reply : Result (Option Channel) × T)
      (c : Channel)
      → length nickname ≤ 50
      → IsNickname nickname
      → ((t : T) → (retry t).0 ≡ ok c → IsMadeFor base user_id c)
      → (after_find ds
          (record { name = base; nickname = nickname; user_id = user_id })
          retry
          reply).0
        ≡ ok c
      → IsMadeFor base user_id c
  after_find-IsMadeFor nickname retry (err e, t) c short spelled again done = cc
  after_find-IsMadeFor nickname retry (ok (some existing), t) c short spelled again done =
      again t done
  after_find-IsMadeFor nickname retry (ok none, t) c short spelled again done =
      stored (ds.save new t) refl done
    where
      new : NewChannel
      new = record { name = base; nickname = nickname; user_id = user_id }

      no_channel : ¬ (◌≡◌ {A = Result Channel} (err internal) (ok c))
      no_channel p = cc

      stored :
          (reply : SaveReply × T)
          → ds.save new t ≡ reply
          → (after_save retry reply).0 ≡ ok c
          → IsMadeFor base user_id c
      stored (saved c', t') e done' =
          let (named, nicked, owned) =
            store.keeps new t c (ap (λ x. x.0) e ∙ ap saved (ok-injective done')) in
          record {
            named = named;
            owned = owned;
            fits = rw nicked short;
            spelled = rw nicked spelled;
          }
      stored (failed e', t') e done' =
          elim (Bool-cases (is_pg_unique_violation_on_column e' nickname_column)) [
            | inl clash ↦ again t' (rw clash at done')
            | inr other ↦ absurd (no_channel (rw other at done'))
          ]

  create_from-IsMadeFor :
      (left : ℕ) (nickname : Text) (t : T) (c : Channel)
      → length nickname ≤ 50
      → IsNickname nickname
      → (create_from ds bytes base user_id left nickname t).0 ≡ ok c
      → IsMadeFor base user_id c
  unfolding create_from
  create_from-IsMadeFor zero nickname t c short spelled done = cc
  create_from-IsMadeFor (suc left) nickname t c short spelled done =
      let next = append_random_suffix_bounds (bytes left) base base_ok in
      after_find-IsMadeFor nickname _ (ds.find_one nickname t) c short spelled
        (λ t' done'.
          create_from-IsMadeFor left (append_random_suffix (bytes left) base) t' c next.0 next.1
            done')
        done

module _ {T : Type 0} (ds : DataSource T) where
  -- The transaction's end does not change the result.
  end_transaction-result : (r : Result Channel × T) → (end_transaction ds r).0 ≡ r.0
  end_transaction-result (ok c, t) = refl
  end_transaction-result (err e, t) = refl

  after_find-err :
      (new : NewChannel) (retry : T → Result Channel × T) (reply : Result (Option Channel) × T)
      → reply.0 ≡ err internal
      → (after_find ds new retry reply).0 ≡ err internal
  after_find-err new retry (err e, t) failed' = ground arith
  after_find-err new retry (ok found, t) failed' = cc

  -- In a transaction where no lookup succeeds, the loop fails.
  create_from-aborted :
      (bytes : ℕ → List ℕ) (base : Text) (user_id left : ℕ) (nickname : Text) (t : T)
      → ((n : Text) → (ds.find_one n t).0 ≡ err internal)
      → (create_from ds bytes base user_id left nickname t).0 ≡ err internal
  unfolding create_from
  create_from-aborted bytes base user_id zero nickname t aborted = refl
  create_from-aborted bytes base user_id (suc left) nickname t aborted =
      after_find-err _ _ (ds.find_one nickname t) (aborted nickname)

  after_save-err :
      (retry : T → Result Channel × T) (e : SaveError) (reply : SaveReply × T)
      → reply.0 ≡ failed e
      → (retry reply.1).0 ≡ err internal
      → (after_save retry reply).0 ≡ err internal
  after_save-err retry e (saved c, t) refused stuck = cc
  after_save-err retry e (failed e', t) refused stuck =
      elim (Bool-cases (is_pg_unique_violation_on_column e' nickname_column)) [
        | inl clash ↦ rw clash stuck
        | inr other ↦ rw other
      ]

-- A channel that `createChannel` returns belongs to the user, is named after the prefix of the email
-- as `sanitizeNickname` cuts it, and has a nickname of permitted characters that fits the column of
-- 50 units, whether it was saved at the first attempt or with a random suffix. Assumed of the
-- data source is that a saved channel has the fields that it was given.
pub create_channel-IsMadeFor :
    {T : Type 0} (ds : DataSource T) (to_lower_case : Text → Text) (base_bytes : List ℕ)
    (bytes : ℕ → List ℕ) (user_id : ℕ) (email : Text) (channels : List Channel) (c : Channel)
    → IsStore ds
    → (create_channel ds to_lower_case base_bytes bytes user_id email channels).0 ≡ ok c
    → IsMadeFor (sanitize_nickname to_lower_case base_bytes (before_at email)) user_id c
unfolding create_channel
create_channel-IsMadeFor {T} ds to_lower_case base_bytes bytes user_id email channels c store done =
    let (_, short, spelled) = sanitize_nickname_bounds to_lower_case base_bytes (before_at email) in
    create_from-IsMadeFor ds store bytes _ user_id spelled (suc max_retries) _ (ds.begin channels) c
      (omega (arith, short)) spelled (sym (end_transaction-result ds _) ∙ done)

-- PostgreSQL's documented behaviour: after a statement of a transaction has failed, every further
-- statement of it fails until it is rolled back.
abbrev pub AbortsOnError : {T : Type 0} → DataSource T → Type 0
AbortsOnError {T} ds =
    (new : NewChannel) (t : T) (e : SaveError) (nickname : Text)
    → (ds.save new t).0 ≡ failed e
    → (ds.find_one nickname (ds.save new t).1).0 ≡ err internal

-- The retry of `createChannel` after a violation cannot succeed on a database that aborts a
-- transaction at its first error: where the prefix's nickname is not found and its insertion
-- violates the unique column, the call fails, whatever the later nicknames are.
pub violation-fails :
    {T : Type 0} (ds : DataSource T) (to_lower_case : Text → Text) (base_bytes : List ℕ)
    (bytes : ℕ → List ℕ) (user_id : ℕ) (email : Text) (channels : List Channel) (t : T)
    (e : SaveError)
    → AbortsOnError ds
    → let base = sanitize_nickname to_lower_case base_bytes (before_at email) in
      ds.find_one base (ds.begin channels) ≡ (ok none, t)
      → (ds.save (record { name = base; nickname = base; user_id = user_id }) t).0 ≡ failed e
      → (create_channel ds to_lower_case base_bytes bytes user_id email channels).0 ≡ err internal
unfolding create_channel create_from
violation-fails ds to_lower_case base_bytes bytes user_id email channels t e aborts free refused =
    let base = sanitize_nickname to_lower_case base_bytes (before_at email) in
    let new : NewChannel = record { name = base; nickname = base; user_id = user_id } in
    let retry =
      create_from ds bytes base user_id max_retries
        (append_random_suffix (bytes max_retries) base) in
    end_transaction-result ds _
    ∙ ap (λ reply. (after_find ds new retry reply).0) free
    ∙ after_save-err ds retry e (ds.save new t) refused (
        create_from-aborted ds bytes base user_id max_retries _ (ds.save new t).1
          (λ n. aborts new t e n refused))
