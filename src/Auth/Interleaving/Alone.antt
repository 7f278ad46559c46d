-- ===== src/Auth/Interleaving/Alone.antt =====
-- A call of `refresh` that no other call interrupts does what `refresh` of Sessions does.
use videum_video_platform.Common.{
  ℕ, ◌≡◌, refl, ◌≢◌, ◌↔◌, ◌∙◌, sym, ap, true, inl, inr, List, [], ◌∷◌, Option, none, some, Text,
  Result, err, internal, invalid_token, token_reuse_detected, find_one, update_where, insert,
  is_some, leb, ltb, ◌==◌, ◌-◌, if◌then◌else◌, Bool-cases, Option-cases, arith, subst,
}
use videum_video_platform.Auth.Model.{
  User, RefreshToken, AuthDb, AuthConfig, Crypto, Env, TokenPair,
}
use videum_video_platform.Auth.Sessions.{
  refresh, refresh_found, refresh_revoked, rotate, answer_refresh, token_reuse_grace_period_ms,
  has_token_hash, is_active_of_user, is_active_in_family, revoke, revoke_where,
  insert_refresh_token, user_of, new_refresh_token,
}
use videum_video_platform.Users.{has_id}
use videum_video_platform.Auth.Interleaving.{
  Point, refreshing, looking_for_active, revoking_family, saving, saving_new, saving_old, refreshed,
  logging_out, logged_out, answer_for, after_row, after_lookup, raw_of, row_of, save_old, save_new,
  Move, look_up, look_for_active, revoke_family, old_first, new_first, new_last, old_last, log_out,
}

-- A new row is not met by an update of the old one.
pub update_where-insert :
    (r new : RefreshToken) (time : ℕ) (rows : List RefreshToken)
    → new.id ≢ r.id
    → update_where (λ row. row.id == r.id) (revoke time) (insert new rows)
      ≡ insert new (update_where (λ row. row.id == r.id) (revoke time) rows)
unfolding update_where insert
update_where-insert r new time [] other = ground arith
update_where-insert r new time (x ∷ rows) other =
    ap (λ xs. (if x.id == r.id then revoke time x else x) ∷ xs)
      (update_where-insert r new time rows other)

module _ (k : Crypto) (cfg : AuthConfig) where
  -- The moves of one call.
  pub data Run (db : AuthDb) (p : Point) : AuthDb → Point → Type 0 where
    here : Run db p db p
    next :
        {db' db'' : AuthDb} {p' p'' : Point}
        → Run db p db' p'
        → Move k cfg db' p' db'' p''
        → Run db p db'' p''

  -- What is left of a call, done at once.
  unfoldable finish : Point → AuthDb → Result TokenPair × AuthDb
  unfolding refresh
  finish (refreshing e raw) db = refresh k cfg e raw db
  finish (looking_for_active e raw r user) db = (
    if is_some (find_one (is_active_in_family r.family) db.refresh_tokens)
        then answer_for k cfg e r user raw
        else err invalid_token,
    db,
  )
  finish (revoking_family e raw r) db =
      (err token_reuse_detected, revoke_where (is_active_in_family r.family) e.now db)
  finish (saving e raw r user) db =
      (answer_for k cfg e r user (raw_of k cfg e r), save_new k cfg e r (save_old k cfg e r db))
  finish (saving_new e raw r user) db =
      (answer_for k cfg e r user (raw_of k cfg e r), save_new k cfg e r db)
  finish (saving_old e raw r user) db =
      (answer_for k cfg e r user (raw_of k cfg e r), save_old k cfg e r db)
  finish (refreshed raw answer) db = (answer, db)
  finish (logging_out e user_id) db =
      (err internal, revoke_where (is_active_of_user user_id) e.latest db)
  finish (logged_out user_id) db = (err internal, db)

  finish-after_row :
      (e : Env) (raw : Text) (db : AuthDb) (r : RefreshToken) (o : Option ℕ)
      → finish (after_row k cfg e raw r (user_of r.user_id db) o) db
        ≡ refresh_found k cfg e raw r o db
  unfolding finish insert_refresh_token revoke_where user_of answer_refresh refresh_revoked rotate
  finish-after_row e raw db r none = elim (Option-cases (find_one (has_id r.user_id) db.users)) [
    | inl no_user ↦ rw no_user
    | inr (user, has_user) ↦ rw has_user
  ]
  finish-after_row e raw db r (some time) =
      elim (Bool-cases (leb (e.now - time) token_reuse_grace_period_ms)) [
        | inr late ↦ rw late
        | inl graced ↦
            elim (Bool-cases
              (is_some (find_one (is_active_in_family r.family) db.refresh_tokens))) [
                | inr dead ↦ rw (graced, dead)
                | inl alive ↦ elim (Option-cases (find_one (has_id r.user_id) db.users)) [
                  | inl no_user ↦ rw (graced, alive, no_user)
                  | inr (user, has_user) ↦ rw (graced, alive, has_user)
                ]
              ]
      ]

  finish-after_lookup :
      (e : Env) (raw : Text) (db : AuthDb)
      → finish
          (after_lookup k cfg e raw db (find_one (has_token_hash (k.sha256 raw)) db.refresh_tokens))
          db
        ≡ refresh k cfg e raw db
  unfolding finish refresh
  finish-after_lookup e raw db =
      elim (Option-cases (find_one (has_token_hash (k.sha256 raw)) db.refresh_tokens)) [
        | inl unknown ↦ rw unknown
        | inr (r, found) ↦ elim (Bool-cases (ltb r.expires_at e.now)) [
          | inl expired ↦ rw (found, expired)
          | inr live ↦ rw (found, live, finish-after_row e raw db r r.revoked_at)
        ]
      ]

  -- The identifier that the database gives to the new row is not the old row's.
  abbrev IsFresh : AuthDb → Point → Type 0
  IsFresh db (refreshing e raw) =
      (r : RefreshToken)
      → find_one (has_token_hash (k.sha256 raw)) db.refresh_tokens ≡ some r
      → e.row_id ≢ r.id
  IsFresh db (saving e raw r user) = e.row_id ≢ r.id
  IsFresh db (saving_new e raw r user) = e.row_id ≢ r.id
  IsFresh db (saving_old e raw r user) = e.row_id ≢ r.id
  IsFresh db _ = Unit

  IsFresh-after_row :
      (e : Env) (raw : Text) (db : AuthDb) (r : RefreshToken) (user : Option User) (o : Option ℕ)
      → e.row_id ≢ r.id
      → IsFresh db (after_row k cfg e raw r user o)
  IsFresh-after_row e raw db r user none fresh = fresh
  IsFresh-after_row e raw db r user (some time) fresh =
      elim (Bool-cases (leb (e.now - time) token_reuse_grace_period_ms)) [
        | inl graced ↦ rw graced tt
        | inr late ↦ rw late tt
      ]

  IsFresh-after_lookup :
      (e : Env) (raw : Text) (db : AuthDb)
      → IsFresh db (refreshing e raw)
      → IsFresh db
          (after_lookup k cfg e raw db (find_one (has_token_hash (k.sha256 raw)) db.refresh_tokens))
  IsFresh-after_lookup e raw db fresh =
      elim (Option-cases (find_one (has_token_hash (k.sha256 raw)) db.refresh_tokens)) [
        | inl unknown ↦ rw unknown tt
        | inr (r, found) ↦ elim (Bool-cases (ltb r.expires_at e.now)) [
          | inl expired ↦ rw (found, expired) tt
          | inr live ↦
              rw (found, live)
                (IsFresh-after_row e raw db r (user_of r.user_id db) r.revoked_at (fresh r found))
        ]
      ]

  Move-finish :
      {db db' : AuthDb} {p p' : Point}
      → Move k cfg db p db' p'
      → IsFresh db p
      → IsFresh db' p' × (finish p' db' ≡ finish p db)
  unfolding finish insert_refresh_token revoke_where new_refresh_token
  Move-finish {db} (look_up e raw) fresh =
      (IsFresh-after_lookup e raw db fresh, finish-after_lookup e raw db)
  Move-finish (look_for_active e raw r user) fresh = (tt, refl)
  Move-finish (revoke_family e raw r) fresh = (tt, refl)
  Move-finish (old_first e raw r user) fresh = (fresh, refl)
  Move-finish {db} (new_first e raw r user) fresh =
      (fresh, rw (update_where-insert r (row_of k cfg e r) e.now db.refresh_tokens fresh))
  Move-finish (new_last e raw r user) fresh = (tt, refl)
  Move-finish (old_last e raw r user) fresh = (tt, refl)
  Move-finish (log_out e user_id) fresh = (tt, refl)

  Run-finish :
      {db : AuthDb} {p : Point} {db' : AuthDb} {p' : Point}
      → Run db p db' p'
      → IsFresh db p
      → IsFresh db' p' × (finish p' db' ≡ finish p db)
  Run-finish here fresh = (fresh, refl)
  Run-finish (next run move) fresh =
      let (fresh', same) = Run-finish run fresh in
      let (fresh'', same') = Move-finish move fresh' in (fresh'', same' ∙ same)

  -- The token that a call presented, once its first lookup is done.
  abbrev text_of : Point → Option Text
  text_of (looking_for_active e raw r user) = some raw
  text_of (revoking_family e raw r) = some raw
  text_of (saving e raw r user) = some raw
  text_of (saving_new e raw r user) = some raw
  text_of (saving_old e raw r user) = some raw
  text_of (refreshed raw answer) = some raw
  text_of _ = none

  text_of-after_row :
      (e : Env) (raw : Text) (r : RefreshToken) (user : Option User) (o : Option ℕ)
      → text_of (after_row k cfg e raw r user o) ≡ some raw
  text_of-after_row e raw r user none = refl
  text_of-after_row e raw r user (some time) = ground arith

  text_of-after_lookup :
      (e : Env) (raw : Text) (db : AuthDb) (o : Option RefreshToken)
      → text_of (after_lookup k cfg e raw db o) ≡ some raw
  text_of-after_lookup e raw db none = refl
  text_of-after_lookup e raw db (some r) = elim (Bool-cases (ltb r.expires_at e.now)) [
    | inl expired ↦ rw expired
    | inr live ↦ rw live (text_of-after_row e raw r (user_of r.user_id db) r.revoked_at)
  ]

  -- The moves left to a call after its first lookup, behind those that it has made.
  Run-of_finish :
      {db : AuthDb} {p : Point} {db' : AuthDb} (p' : Point)
      → is_some (text_of p') ≡ true
      → Run db p db' p'
      → (raw : Text) × (text_of p' ≡ some raw)
        × Run db p (finish p' db').1 (refreshed raw (finish p' db').0)
  unfolding finish
  Run-of_finish (refreshing e raw) none_yet run = cc
  Run-of_finish (looking_for_active e raw r user) started run =
      (raw, refl, next run (look_for_active e raw r user))
  Run-of_finish (revoking_family e raw r) started run =
      (raw, refl, next run (revoke_family e raw r))
  Run-of_finish (saving e raw r user) started run =
      (raw, refl, next (next run (old_first e raw r user)) (new_last e raw r user))
  Run-of_finish (saving_new e raw r user) started run =
      (raw, refl, next run (new_last e raw r user))
  Run-of_finish (saving_old e raw r user) started run =
      (raw, refl, next run (old_last e raw r user))
  Run-of_finish (refreshed raw answer) started run = (raw, refl, run)
  Run-of_finish (logging_out e user_id) none_yet run = cc
  Run-of_finish (logged_out user_id) none_yet run = cc

  Run-of_refresh :
      (e : Env) (raw : Text) (db : AuthDb)
      → Run db
          (refreshing e raw)
          (refresh k cfg e raw db).1
          (refreshed raw (refresh k cfg e raw db).0)
  Run-of_refresh e raw db =
      let found = find_one (has_token_hash (k.sha256 raw)) db.refresh_tokens in
      let at = text_of-after_lookup e raw db found in
      let (raw', at', run) =
        Run-of_finish (after_lookup k cfg e raw db found) (rw at) (next here (look_up e raw)) in
      let same : raw' ≡ raw = ground arith in
      let rest = finish (after_lookup k cfg e raw db found) db in
      subst (λ t. Run db (refreshing e raw) t.1 (refreshed raw t.0)) (finish-after_lookup e raw db)
        (subst (λ t. Run db (refreshing e raw) rest.1 (refreshed t rest.0)) same run)

  -- A call of refresh that no other call interrupts can come to an end with an answer and with new
  -- tables exactly if these are those of `refresh`, in whichever order its two saves are done. The
  -- database must not give the new row the identifier of the old one.
  pub Run-refresh_iff :
      (e : Env) (raw : Text) (db db' : AuthDb) (answer : Result TokenPair)
      → ((r : RefreshToken)
          → find_one (has_token_hash (k.sha256 raw)) db.refresh_tokens ≡ some r
          → e.row_id ≢ r.id)
      → Run db (refreshing e raw) db' (refreshed raw answer)
        ↔ (refresh k cfg e raw db ≡ (answer, db'))
  unfolding finish
  Run-refresh_iff e raw db db' answer fresh = (
    λ run. sym (Run-finish run fresh).1,
    λ done.
        subst (λ t. Run db (refreshing e raw) t.1 (refreshed raw t.0)) done
          (Run-of_refresh e raw db),
  )
