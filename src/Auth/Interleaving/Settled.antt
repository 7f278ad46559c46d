-- ===== src/Auth/Interleaving/Settled.antt =====
-- What no interleaving of calls undoes: a token that is revoked stays so, and is never exchanged.
use videum_video_platform.Common.{ℕ, ◌≡◌, ◌≢◌, false, ◌&&◌, ok, All, ◌==◌}
use videum_video_platform.Auth.Model.{AuthDb, AuthConfig, Crypto}
use videum_video_platform.Auth.Sessions.{is_active}
use videum_video_platform.Auth.Interleaving.{Point, saving, saving_new, saving_old, refreshed}

-- No row of the digest is active.
abbrev pub IsRevoked : ℕ → AuthDb → Type 0
IsRevoked h db = All (λ r. (r.token_hash == h && is_active r) ≡ false) db.refresh_tokens

module _ (k : Crypto) (cfg : AuthConfig) (h : ℕ) where
  -- The call is not about to exchange the token of the digest, and if it has answered it with
  -- tokens then with the same one.
  abbrev pub KeepsToken : Point → Type 0
  KeepsToken (saving e raw r user) = k.sha256 raw ≢ h
  KeepsToken (saving_new e raw r user) = k.sha256 raw ≢ h
  KeepsToken (saving_old e raw r user) = k.sha256 raw ≢ h
  KeepsToken (refreshed raw (ok pair)) = k.sha256 raw ≡ h → pair.refresh_token ≡ raw
  KeepsToken _ = Unit
