-- ===== src/Auth/Sessions/Rotation.antt =====
-- `refresh` of nestjs-project/src/auth/auth.service.ts at a token that is known and not expired.
use videum_video_platform.Common.{
  ℕ, ◌+◌, ◌-◌, ◌≡◌, refl, ap, ◌≢◌, ◌≤◌, ◌<◌, true, false, inl, inr, List, none, some, Text,
  find_one, update_where, insert, leb, ltb, ◌==◌, Bool-cases, arith, if◌then◌else◌, ok, err,
  is_some, token_reuse_detected, invalid_token, ◌∙◌,
}
use videum_video_platform.Common.Tables.Laws.{
  find_one-insert_new, find_one-insert_old, find_one-update_where,
}
use videum_video_platform.Auth.Model.{
  User, RefreshToken, AuthDb, AuthConfig, Crypto, Env, TokenPair,
}
use videum_video_platform.Auth.Duration.{jwt_expiration_to_ms}
use videum_video_platform.Auth.Sessions.{
  has_token_hash, revoke, refresh, is_active_in_family, user_of, generate_access_token,
  generate_refresh_token, new_refresh_token, token_reuse_grace_period_ms,
}

-- The row that a digest finds once another row has been revoked and a row of another digest added.
find-after_rotation :
    (h : ℕ) (r new : RefreshToken) (time : ℕ) (rows : List RefreshToken)
    → find_one (has_token_hash h) rows ≡ some r
    → new.token_hash ≢ h
    → find_one (has_token_hash h) (insert new (update_where (λ x. x.id == r.id) (revoke time) rows))
      ≡ some (revoke time r)
find-after_rotation h r new time rows found other =
    find_one-insert_old (has_token_hash h) new _ (ground arith)
    ∙ find_one-update_where (has_token_hash h) (λ x. x.id == r.id) (revoke time) rows
        (λ x. ground arith)
    ∙ rw found (ground arith)

find-new_after_rotation :
    (r new : RefreshToken) (time : ℕ) (rows : List RefreshToken)
    → find_one (has_token_hash new.token_hash) rows ≡ none
    → find_one
        (has_token_hash new.token_hash)
        (insert new (update_where (λ x. x.id == r.id) (revoke time) rows))
      ≡ some new
find-new_after_rotation r new time rows fresh =
    find_one-insert_new (has_token_hash new.token_hash) new _
      (find_one-update_where (has_token_hash new.token_hash) (λ x. x.id == r.id) (revoke time) rows
          (λ x. ground arith)
        ∙ rw fresh)
      (ground arith)

-- A digest that is found differs from one that is not.
new_digest-ne :
    {h h' : ℕ} (rows : List RefreshToken) {r : RefreshToken}
    → find_one (has_token_hash h) rows ≡ some r
    → find_one (has_token_hash h') rows ≡ none
    → h' ≢ h
new_digest-ne rows found fresh same = absurd (cc (ap (λ h. find_one (has_token_hash h) rows) same))

module _ (k : Crypto) (cfg : AuthConfig) (e : Env) (raw : Text) (db : AuthDb) (r : RefreshToken)
    (found : find_one (has_token_hash (k.sha256 raw)) db.refresh_tokens ≡ some r)
    (live : e.now ≤ r.expires_at) where
  -- A token that is known, not expired and not revoked is exchanged: the answer is an access token
  -- for its user and a new refresh token, whose row has the same family and user, is active and
  -- expires one lifetime later; the old row is revoked. The digest of the new token must be new.
  pub refresh_rotates :
      (user : User)
      → r.revoked_at ≡ none
      → user_of r.user_id db ≡ some user
      → find_one
          (has_token_hash (k.sha256 (generate_refresh_token k cfg e r.user_id r.family)))
          db.refresh_tokens
        ≡ none
      → let raw' = generate_refresh_token k cfg e r.user_id r.family in
        let (answer, db') = refresh k cfg e raw db in
        (answer
          ≡ ok (record {
            access_token = k.sign_access r.user_id user.email cfg.jwt_access_expiration e.now;
            refresh_token = raw';
          }))
        × (find_one (has_token_hash (k.sha256 raw')) db'.refresh_tokens
            ≡ some (record {
              id = e.row_id;
              token_hash = k.sha256 raw';
              family = r.family;
              user_id = r.user_id;
              expires_at = e.now + jwt_expiration_to_ms cfg.jwt_refresh_expiration;
              revoked_at = none;
            }))
        × (find_one (has_token_hash (k.sha256 raw)) db'.refresh_tokens ≡ some (revoke e.now r))
  unfolding refresh new_refresh_token generate_access_token user_of
  refresh_rotates user active has_user fresh =
      let raw' = generate_refresh_token k cfg e r.user_id r.family in
      let new = new_refresh_token k cfg e raw' r.family r.user_id in
      let not_expired : ltb r.expires_at e.now ≡ false = ground arith in
      rw (found, not_expired, active, has_user)
        (
          refl,
          find-new_after_rotation r new e.now db.refresh_tokens fresh,
          find-after_rotation (k.sha256 raw) r new e.now db.refresh_tokens found
              (λ same. new_digest-ne db.refresh_tokens found fresh same),
        )

  -- A token that was revoked at most ten seconds ago is answered with an access token and with
  -- itself if its family has an active token, and is invalid otherwise; one that was revoked
  -- earlier is a reuse. Only the reuse writes: it revokes the active tokens of the family.
  pub refresh-of_revoked :
      (user : User) (revoked_at : ℕ)
      → r.revoked_at ≡ some revoked_at
      → user_of r.user_id db ≡ some user
      → let within_grace = leb (e.now - revoked_at) token_reuse_grace_period_ms in
        let active = is_some (find_one (is_active_in_family r.family) db.refresh_tokens) in
        let answer : TokenPair = record {
          access_token = k.sign_access r.user_id user.email cfg.jwt_access_expiration e.now;
          refresh_token = raw;
        } in
        refresh k cfg e raw db ≡ (
          if within_grace then (if active then ok answer else err invalid_token, db) else (
            err token_reuse_detected,
            record db {
              refresh_tokens =
                  update_where (is_active_in_family r.family) (revoke e.now) db.refresh_tokens;
            },
          ))
  unfolding refresh generate_access_token user_of
  refresh-of_revoked user revoked_at gone has_user =
      let not_expired : ltb r.expires_at e.now ≡ false = ground arith in
      elim (Bool-cases (leb (e.now - revoked_at) token_reuse_grace_period_ms)) [
        | inl graced ↦
            elim (Bool-cases
              (is_some (find_one (is_active_in_family r.family) db.refresh_tokens))) [
                | inl alive ↦ rw (found, not_expired, gone, graced, alive, has_user)
                | inr dead ↦ rw (found, not_expired, gone, graced, dead)
              ]
        | inr late ↦ rw (found, not_expired, gone, late)
      ]

-- The token that `refresh` answers with in the ten seconds of grace is the revoked one: presented
-- once the grace is over, and before it expires, it counts as a reuse, so that the family's active
-- tokens are revoked. This holds where the user and an active token of the family exist.
pub grace_token-IsReuse :
    (k : Crypto) (cfg : AuthConfig) (e e' : Env) (raw : Text) (db : AuthDb) (r : RefreshToken)
    (user : User) (revoked_at : ℕ)
    → find_one (has_token_hash (k.sha256 raw)) db.refresh_tokens ≡ some r
    → r.revoked_at ≡ some revoked_at
    → user_of r.user_id db ≡ some user
    → is_some (find_one (is_active_in_family r.family) db.refresh_tokens) ≡ true
    → e.now ≤ r.expires_at
    → e.now ≤ revoked_at + 10000
    → revoked_at + 10000 < e'.now
    → e'.now ≤ r.expires_at
    → (pair : TokenPair) × (refresh k cfg e raw db ≡ (ok pair, db))
      × (refresh k cfg e' pair.refresh_token db ≡ (
        err token_reuse_detected,
        record db {
          refresh_tokens =
              update_where (is_active_in_family r.family) (revoke e'.now) db.refresh_tokens;
        },
      ))
grace_token-IsReuse k cfg e e' raw db r user revoked_at found gone has_user alive live soon late
      live' =
    let graced : leb (e.now - revoked_at) token_reuse_grace_period_ms ≡ true = ground arith in
    let over : leb (e'.now - revoked_at) token_reuse_grace_period_ms ≡ false = ground arith in
    (
      record {
        access_token = k.sign_access r.user_id user.email cfg.jwt_access_expiration e.now;
        refresh_token = raw;
      },
      refresh-of_revoked k cfg e raw db r found live user revoked_at gone has_user
          ∙ rw (graced, alive),
      refresh-of_revoked k cfg e' raw db r found live' user revoked_at gone has_user ∙ rw over,
    )
