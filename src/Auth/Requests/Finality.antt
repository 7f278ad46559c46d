-- ===== src/Auth/Requests/Finality.antt =====
-- Revocation is final over any sequence of requests.
use videum_video_platform.Common.{
  ℕ, ◌≡◌, ◌≢◌, Bool, ◌&&◌, inl, inr, List, [], ◌∷◌, some, Text, Action, All, find_one, update_where,
  subst, leb, ltb, ◌==◌, ◌-◌, Bool-cases, Option-cases, arith, ok, err, token_reuse_detected,
}
use videum_video_platform.Common.Tables.Laws.{All-update_where, All-update_where_same}
use videum_video_platform.Channels.Channel.{Channel}
use videum_video_platform.Auth.Model.{RefreshToken, AuthDb, AuthConfig, Crypto, Env, TokenPair}
use videum_video_platform.Auth.Sessions.{
  has_token_hash, revoke, refresh, logout, is_active, token_reuse_grace_period_ms,
}
use videum_video_platform.Auth.Requests.{
  Request, log_in, login_user, login_family, IsFreshFamily, run, run_all,
}
use videum_video_platform.Auth.Requests.Spec.{run-SessionStep}
use videum_video_platform.Auth.Requests.Revocation.{
  NoneActive, FamiliesOwned, SessionStep-NoneActive, SessionStep-FamiliesOwned,
  refresh-of_dead_family, refresh-of_dead_user,
}

-- A `logout` or a detected reuse leaves no active row that meets its condition.
pub NoneActive-revoke_active :
    (c : ℕ → ℕ → Bool) (time : ℕ) (rows : List RefreshToken)
    → NoneActive c (update_where (λ r. c r.family r.user_id && is_active r) (revoke time) rows)
NoneActive-revoke_active c time rows =
    All-update_where (λ r. Unit {0}) _ _ (revoke time) rows (λ r h e. ground arith) (λ r h e. e)
      (All-trivial rows)
  where
    All-trivial : (rows : List RefreshToken) → All (λ r. Unit {0}) rows
    All-trivial [] = tt
    All-trivial (r ∷ rows) = (tt, All-trivial rows)

module _ (k : Crypto) (cfg : AuthConfig) (e : Env) (raw : Text) (db : AuthDb) where
  -- The detection of a reused token revokes its family.
  pub reuse-dead_family :
      (r : RefreshToken)
      → find_one (has_token_hash (k.sha256 raw)) db.refresh_tokens ≡ some r
      → (refresh k cfg e raw db).0 ≡ err token_reuse_detected
      → NoneActive (λ g v. g == r.family) (refresh k cfg e raw db).1.refresh_tokens
  unfolding refresh
  reuse-dead_family r found reused =
      let dead = NoneActive-revoke_active (λ g v. g == r.family) e.now db.refresh_tokens in
      elim (Bool-cases (ltb r.expires_at e.now)) [
        | inl expired ↦ absurd (ground arith)
        | inr live ↦ elim (Option-cases r.revoked_at) [
          | inl active ↦ absurd (ground arith)
          | inr (time, gone) ↦ elim (Bool-cases (leb (e.now - time) token_reuse_grace_period_ms)) [
            | inl graced ↦ absurd (ground arith)
            | inr late ↦ rw (found, live, gone, late) dead
          ]
        ]
      ]

module _ (k : Crypto) (cfg : AuthConfig)
    (create_channel : ℕ → Text → Action (List Channel) Channel) where
  -- No request of the sequence is a login for the user, and each login draws a family that is new.
  abbrev pub AvoidsUser : ℕ → List Request → AuthDb → Type 0
  AvoidsUser u [] db = Unit
  AvoidsUser u (req ∷ reqs) db =
      (login_user req db ≢ some u)
      × IsFreshFamily req db
      × AvoidsUser u reqs (run k cfg create_channel req db)

  -- No login of the sequence draws the family.
  abbrev pub AvoidsFamily : ℕ → List Request → Type 0
  AvoidsFamily f [] = Unit
  AvoidsFamily f (req ∷ reqs) = (login_family req ≢ some f) × AvoidsFamily f reqs

  run-FamiliesOwned :
      (req : Request) (db : AuthDb) (owner : ℕ → ℕ)
      → IsFreshFamily req db
      → FamiliesOwned owner db.refresh_tokens
      → (owner' : ℕ → ℕ) × FamiliesOwned owner' (run k cfg create_channel req db).refresh_tokens
  run-FamiliesOwned req db owner fresh h =
      SessionStep-FamiliesOwned _ _ _ _ owner (run-SessionStep k cfg create_channel req db)
        (new_family req db fresh) h
    where
      new_family :
          (req : Request) (db : AuthDb)
          → IsFreshFamily req db
          → (f : ℕ) → login_family req ≡ some f
          → All (λ r. r.family ≢ f) db.refresh_tokens
      new_family (log_in e email password) db fresh f drawn =
          let same : e.family ≡ f = ground arith in
          subst (λ g. All (λ r. r.family ≢ g) db.refresh_tokens) same fresh
      new_family _ db fresh f drawn = cc

  run_all-dead_user :
      (u : ℕ) (reqs : List Request) (db : AuthDb) (owner : ℕ → ℕ)
      → FamiliesOwned owner db.refresh_tokens
      → NoneActive (λ f v. v == u) db.refresh_tokens
      → AvoidsUser u reqs db
      → let db' = run_all k cfg create_channel reqs db in
        (owner' : ℕ → ℕ) × FamiliesOwned owner' db'.refresh_tokens
        × NoneActive (λ f v. v == u) db'.refresh_tokens
  unfolding run_all
  run_all-dead_user u [] db owner owned dead avoids = (owner, owned, dead)
  run_all-dead_user u (req ∷ reqs) db owner owned dead (other, fresh, avoids) =
      let (owner', owned') = run-FamiliesOwned req db owner fresh owned in
      run_all-dead_user u reqs (run k cfg create_channel req db) owner' owned'
        (SessionStep-NoneActive (λ f v. v == u) _ _ _ _
          (run-SessionStep k cfg create_channel req db) (λ f v drawn who. ground arith) dead)
        avoids

  run_all-dead_family :
      (f : ℕ) (reqs : List Request) (db : AuthDb)
      → NoneActive (λ g v. g == f) db.refresh_tokens
      → AvoidsFamily f reqs
      → NoneActive (λ g v. g == f) (run_all k cfg create_channel reqs db).refresh_tokens
  unfolding run_all
  run_all-dead_family f [] db dead avoids = dead
  run_all-dead_family f (req ∷ reqs) db dead (other, avoids) =
      run_all-dead_family f reqs (run k cfg create_channel req db)
        (SessionStep-NoneActive (λ g v. g == f) _ _ _ _
          (run-SessionStep k cfg create_channel req db) (λ g v drawn who. ground arith) dead)
        avoids

  -- After `logout` of a user, whatever requests follow, as long as none is a login for that user
  -- and each login draws a new family, no refresh token of the user is accepted at any time. It is
  -- assumed that before the logout each family of tokens belonged to one user.
  pub refresh-after_logout :
      (e : Env) (u : ℕ) (db : AuthDb) (owner : ℕ → ℕ) (reqs : List Request) (e' : Env) (raw : Text)
      (r : RefreshToken) (pair : TokenPair)
      → FamiliesOwned owner db.refresh_tokens
      → AvoidsUser u reqs (logout e u db).1
      → let db' = run_all k cfg create_channel reqs (logout e u db).1 in
        find_one (has_token_hash (k.sha256 raw)) db'.refresh_tokens ≡ some r
        → r.user_id ≡ u
        → (refresh k cfg e' raw db').0 ≢ ok pair
  unfolding logout
  refresh-after_logout e u db owner reqs e' raw r pair owned avoids found of_u =
      let (owner', owned', dead) =
        run_all-dead_user u reqs (logout e u db).1 owner
          (All-update_where_same _ _ (revoke e.latest) _ (λ x own. own) owned)
          (NoneActive-revoke_active (λ f v. v == u) e.latest db.refresh_tokens) avoids in
      refresh-of_dead_user k cfg e' raw _ owner' r found owned' (rw of_u dead) pair

  -- Once `refresh` has detected that a token is used again, no token of the same family is accepted
  -- after any sequence of requests whose logins draw other families.
  pub refresh-after_reuse :
      (e : Env) (raw : Text) (db : AuthDb) (r : RefreshToken) (reqs : List Request) (e' : Env)
      (raw' : Text) (r' : RefreshToken) (pair : TokenPair)
      → find_one (has_token_hash (k.sha256 raw)) db.refresh_tokens ≡ some r
      → (refresh k cfg e raw db).0 ≡ err token_reuse_detected
      → AvoidsFamily r.family reqs
      → let db' = run_all k cfg create_channel reqs (refresh k cfg e raw db).1 in
        find_one (has_token_hash (k.sha256 raw')) db'.refresh_tokens ≡ some r'
        → r'.family ≡ r.family
        → (refresh k cfg e' raw' db').0 ≢ ok pair
  refresh-after_reuse e raw db r reqs e' raw' r' pair found reused avoids found' same =
      let dead : NoneActive (λ g v. g == r.family) (refresh k cfg e raw db).1.refresh_tokens =
        reuse-dead_family k cfg e raw db r found reused in
      refresh-of_dead_family k cfg e' raw' _ r' found'
        (rw same (run_all-dead_family r.family reqs _ dead avoids)) pair
