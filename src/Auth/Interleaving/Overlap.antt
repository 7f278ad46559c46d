-- ===== src/Auth/Interleaving/Overlap.antt =====
-- What goes wrong where two calls overlap: no later step of `refresh` looks at the row again.
use videum_video_platform.Common.{
  ℕ, zero, suc, ◌≡◌, refl, ◌≢◌, ap, ◌+◌, ◌≤◌, true, false, Bool, inl, inr, List, [], ◌∷◌, none,
  some, Text, ok, find_one, update_where, insert, is_some, ltb, ◌==◌, Bool-cases, arith, subst,
  System, Reach, start, later, pick,
}
use videum_video_platform.Auth.Model.{
  User, RefreshToken, AuthDb, AuthConfig, Crypto, Env, TokenPair,
}
use videum_video_platform.Auth.Sessions.{
  has_token_hash, is_active_of_user, revoke, revoke_where, insert_refresh_token, user_of,
  generate_access_token, new_refresh_token,
}
use videum_video_platform.Auth.Duration.{jwt_expiration_to_ms}
use videum_video_platform.Auth.Interleaving.Alone.{update_where-insert}
use videum_video_platform.Auth.Interleaving.{
  Point, refreshing, saving, refreshed, logging_out, logged_out, raw_of, row_of, Move, look_up,
  saving_new, old_first, new_last, log_out,
}

-- Two calls, and none beside them.
abbrev pub two_calls : Point → Point → ℕ → Point
two_calls p q zero = p
two_calls p q (suc zero) = q
two_calls p q (suc (suc i)) = logged_out 0

is_some-find_one_insert :
    (p : RefreshToken → Bool) (x : RefreshToken) (xs : List RefreshToken)
    → p x ≡ true
    → is_some (find_one p (insert x xs)) ≡ true
unfolding find_one insert
is_some-find_one_insert p x [] hit = rw hit
is_some-find_one_insert p x (y ∷ xs) hit = elim (Bool-cases (p y)) [
  | inl here ↦ rw here
  | inr other ↦ rw other (is_some-find_one_insert p x xs hit)
]

module _ (k : Crypto) (cfg : AuthConfig) (raw : Text) (db : AuthDb) (r : RefreshToken) (user : User)
    (found : find_one (has_token_hash (k.sha256 raw)) db.refresh_tokens ≡ some r)
    (active : r.revoked_at ≡ none) (has_user : user_of r.user_id db ≡ some user) where
  look_up-active :
      (e : Env)
      → e.now ≤ r.expires_at
      → Move k cfg db (refreshing e raw) db (saving e raw r (some user))
  look_up-active e live =
      let not_expired : ltb r.expires_at e.now ≡ false = ground arith in
      subst (λ p. Move k cfg db (refreshing e raw) db p) (rw (found, not_expired, active, has_user))
        (look_up e raw)

  -- Two calls of refresh that present one active token can both look it up before either revokes
  -- it. Both are then answered with new tokens, and the table has a new row for each, both active.
  -- The token must not be expired, its user must exist, and the first new row must have another
  -- identifier than the old one.
  pub refresh-exchanged_twice :
      (e e' : Env)
      → e.now ≤ r.expires_at
      → e'.now ≤ r.expires_at
      → e.row_id ≢ r.id
      → let rows' =
          update_where
            (λ row. row.id == r.id)
            (revoke e'.now)
            (update_where (λ row. row.id == r.id) (revoke e.now) db.refresh_tokens) in
        let new : Env → RefreshToken = λ env. record {
          id = env.row_id;
          token_hash = k.sha256 (raw_of k cfg env r);
          family = r.family;
          user_id = r.user_id;
          expires_at = env.now + jwt_expiration_to_ms cfg.jwt_refresh_expiration;
          revoked_at = none;
        } in
        let answer : Env → TokenPair = λ env. record {
          access_token = generate_access_token k cfg env r.user_id user.email;
          refresh_token = raw_of k cfg env r;
        } in
        (t : System AuthDb Point) × Reach
          (λ i. Move k cfg)
          (record { memory = db; point = two_calls (refreshing e raw) (refreshing e' raw) })
          t
        × (t.point 0 ≡ refreshed raw (ok (answer e)))
        × (t.point 1 ≡ refreshed raw (ok (answer e')))
        × (t.memory.refresh_tokens ≡ insert (new e') (insert (new e) rows'))
  unfolding insert_refresh_token revoke_where new_refresh_token
  refresh-exchanged_twice e e' live live' fresh = (
    _,
    later
        (later
          (later
            (later
              (later (later start (pick 0 (look_up-active e live)))
                (pick 1 (look_up-active e' live')))
              (pick 0 (old_first e raw r (some user))))
            (pick 0 (new_last e raw r (some user))))
          (pick 1 (old_first e' raw r (some user))))
        (pick 1 (new_last e' raw r (some user))),
    refl,
    refl,
    ap (insert (row_of k cfg e' r)) (
        update_where-insert r (row_of k cfg e r) e'.now
          (update_where (λ row. row.id == r.id) (revoke e.now) db.refresh_tokens) fresh),
  )

  -- A logout can begin and end between the two saves of a refresh, and then misses the new row: in
  -- the end both calls are done, the refresh is answered with new tokens, and the user has an active
  -- token. The refresh presents an active token that is not expired, and its user exists.
  pub logout-outlived :
      (e e' : Env)
      → e.now ≤ r.expires_at
      → (s u t : System AuthDb Point) × Reach
          (λ i. Move k cfg)
          (record { memory = db; point = two_calls (refreshing e raw) (logging_out e' r.user_id) })
          s
        × (s.point 0 ≡ saving_new e raw r (some user))
        × (s.point 1 ≡ logging_out e' r.user_id)
        × Reach (λ i. Move k cfg) s u
        × (u.point 0 ≡ saving_new e raw r (some user))
        × (u.point 1 ≡ logged_out r.user_id)
        × Reach (λ i. Move k cfg) u t
        × (t.point 0
            ≡ refreshed raw (
                ok (record {
                  access_token = generate_access_token k cfg e r.user_id user.email;
                  refresh_token = raw_of k cfg e r;
                })))
        × (t.point 1 ≡ logged_out r.user_id)
        × (is_some (find_one (is_active_of_user r.user_id) t.memory.refresh_tokens) ≡ true)
  unfolding insert_refresh_token revoke_where new_refresh_token
  logout-outlived e e' live = (
    _,
    _,
    _,
    later (later start (pick 0 (look_up-active e live))) (pick 0 (old_first e raw r (some user))),
    refl,
    refl,
    later start (pick 1 (log_out e' r.user_id)),
    refl,
    refl,
    later start (pick 0 (new_last e raw r (some user))),
    refl,
    refl,
    is_some-find_one_insert _ (row_of k cfg e r) _ (ground arith),
  )
