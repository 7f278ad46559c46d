-- ===== src/Auth/Requests/Revocation.antt =====
-- Revocation is final: what `logout`, `resetPassword` and the detection of a reused token revoke
-- stays revoked, whatever requests follow, until the user logs in again.
use videum_video_platform.Common.{
  ℕ, ◌≡◌, ◌≢◌, Bool, false, ◌&&◌, inl, inr, List, Option, none, some, Text, All, All-zip,
  All-map_of, find_one, update_where, ltb, ◌==◌, Bool-cases, arith, if◌then◌else◌, ok,
}
use videum_video_platform.Common.Tables.Laws.{
  find_one-All, find_one-none, All-update_where_same, All-insert,
}
use videum_video_platform.Auth.Model.{RefreshToken, AuthDb, AuthConfig, Crypto, Env, TokenPair}
use videum_video_platform.Auth.Sessions.{
  has_token_hash, revoke, refresh, is_active, is_active_in_family,
}
use videum_video_platform.Auth.Requests.Spec.{SessionStep, idle, revoked, opened, rotated}

-- No row whose family and user meet the condition is active.
abbrev pub NoneActive : (ℕ → ℕ → Bool) → List RefreshToken → Type 0
NoneActive c rows = All (λ r. (c r.family r.user_id && is_active r) ≡ false) rows

-- All rows of a family belong to one user.
abbrev pub FamiliesOwned : (ℕ → ℕ) → List RefreshToken → Type 0
FamiliesOwned owner rows = All (λ r. r.user_id ≡ owner r.family) rows

module _ (c : ℕ → ℕ → Bool) where
  NoneActive-revoked :
      (p : RefreshToken → Bool) (time : ℕ) (rows : List RefreshToken)
      → NoneActive c rows
      → NoneActive c (update_where p (revoke time) rows)
  NoneActive-revoked p time rows h =
      All-update_where_same _ p (revoke time) rows (λ r dead. ground arith) h

  -- A step that opens no session which meets the condition keeps all such sessions revoked.
  pub SessionStep-NoneActive :
      (opener family : Option ℕ) (rows rows' : List RefreshToken)
      → SessionStep opener family rows rows'
      → ((f v : ℕ) → family ≡ some f → opener ≡ some v → c f v ≡ false)
      → NoneActive c rows
      → NoneActive c rows'
  SessionStep-NoneActive opener family rows rows' (idle same) barred h = rw same h
  SessionStep-NoneActive opener family rows rows' (revoked p time e) barred h =
      rw e (NoneActive-revoked p time rows h)
  SessionStep-NoneActive opener family rows rows' (opened r who drawn e) barred h =
      rw e (All-insert _ r rows h (ground (arith, barred r.family r.user_id drawn who)))
  SessionStep-NoneActive opener family rows rows'
        (rotated p old new time found active same_family same_user e) barred h =
      let dead : (c old.family old.user_id && is_active old) ≡ false =
        find_one-All p (λ r. (c r.family r.user_id && is_active r) ≡ false) rows h found in
      rw e (All-insert _ new _ (NoneActive-revoked _ time rows h) (ground arith))

-- A step whose login draws a family that is new to the table keeps every family with one user.
pub SessionStep-FamiliesOwned :
    (opener family : Option ℕ) (rows rows' : List RefreshToken) (owner : ℕ → ℕ)
    → SessionStep opener family rows rows'
    → ((f : ℕ) → family ≡ some f → All (λ r. r.family ≢ f) rows)
    → FamiliesOwned owner rows
    → (owner' : ℕ → ℕ) × FamiliesOwned owner' rows'
SessionStep-FamiliesOwned opener family rows rows' owner (idle same) fresh h = (owner, rw same h)
SessionStep-FamiliesOwned opener family rows rows' owner (revoked p time e) fresh h =
    (owner, rw e (All-update_where_same _ p (revoke time) rows (λ r own. own) h))
SessionStep-FamiliesOwned opener family rows rows' owner (opened new who drawn e) fresh h = (
  λ f. if f == new.family then new.user_id else owner f,
  rw e (
      All-insert _ new rows
        (All-map_of (λ r. (r.user_id ≡ owner r.family) × (r.family ≢ new.family)) _ rows
          (λ r both. ground arith) (All-zip _ _ rows h (fresh new.family drawn)))
        (ground arith)),
)
SessionStep-FamiliesOwned opener family rows rows' owner
      (rotated p old new time found active same_family same_user e) fresh h =
    let own : old.user_id ≡ owner old.family =
      find_one-All p (λ r. r.user_id ≡ owner r.family) rows h found in
    (
      owner,
      rw e (
          All-insert _ new _ (All-update_where_same _ _ (revoke time) rows (λ r own. own) h)
            (ground arith)),
    )

module _ (k : Crypto) (cfg : AuthConfig) (e : Env) (raw : Text) (db : AuthDb) where
  -- A token of a family without active tokens is refused.
  pub refresh-of_dead_family :
      (r : RefreshToken)
      → find_one (has_token_hash (k.sha256 raw)) db.refresh_tokens ≡ some r
      → All (λ x. is_active_in_family r.family x ≡ false) db.refresh_tokens
      → (pair : TokenPair) → (refresh k cfg e raw db).0 ≢ ok pair
  unfolding refresh
  refresh-of_dead_family r found dead pair =
      let gone : is_active_in_family r.family r ≡ false =
        find_one-All _ (λ x. is_active_in_family r.family x ≡ false) _ dead found in
      let no_active : find_one (is_active_in_family r.family) db.refresh_tokens ≡ none =
        find_one-none _ _ dead in
      elim (Bool-cases (ltb r.expires_at e.now)) [
        | inl expired ↦ rw (found, expired) (λ p. cc)
        | inr live ↦ rw (found, live) (ground arith)
      ]

  -- So is a token of a user without active tokens, where each family has one user.
  pub refresh-of_dead_user :
      (owner : ℕ → ℕ) (r : RefreshToken)
      → find_one (has_token_hash (k.sha256 raw)) db.refresh_tokens ≡ some r
      → FamiliesOwned owner db.refresh_tokens
      → NoneActive (λ f v. v == r.user_id) db.refresh_tokens
      → (pair : TokenPair) → (refresh k cfg e raw db).0 ≢ ok pair
  refresh-of_dead_user owner r found owned dead pair =
      let own : r.user_id ≡ owner r.family =
        find_one-All _ (λ x. x.user_id ≡ owner x.family) _ owned found in
      refresh-of_dead_family r found
        (All-map_of
          (λ x. (x.user_id ≡ owner x.family) × ((x.user_id == r.user_id && is_active x) ≡ false)) _
          _ (λ x both. ground (arith, both)) (All-zip _ _ _ owned dead))
        pair
