-- ===== src/Tests/OverlapTests.antt =====
-- Calls of `refresh` and `logout` that overlap, at the database with Ann and her token.
use videum_video_platform.Common.{
  ◌+◌, ◌≡◌, refl, ◌↔◌, true, [], ◌∷◌, none, some, codes, ok, find_one, update_where, insert,
  is_some, arith, System, update, Reach,
}
use videum_video_platform.Auth.Model.{RefreshToken, AuthDb, Env, TokenPair}
use videum_video_platform.Auth.Sessions.{
  refresh, is_active_of_user, user_of, generate_access_token, generate_refresh_token,
}
use videum_video_platform.Auth.Duration.{jwt_expiration_to_ms}
use videum_video_platform.Auth.Interleaving.{
  Point, refreshing, saving_new, raw_of, looking_for_active, refreshed, logging_out, logged_out,
  Move,
}
use videum_video_platform.Auth.Interleaving.Alone.{Run, Run-refresh_iff}
use videum_video_platform.Auth.Interleaving.Overlap.{
  two_calls, refresh-exchanged_twice, logout-outlived,
}
use videum_video_platform.Tests.AuthTests.{
  digest, crypto, config, env_at, ann, ann_token, db, reused_db,
}

Run-refresh_iff_example :
    Run crypto config db
      (refreshing (env_at 50 1) (2 ∷ []))
      (refresh crypto config (env_at 50 1) (2 ∷ []) db).1
      (refreshed (2 ∷ []) (refresh crypto config (env_at 50 1) (2 ∷ []) db).0)
    ↔ (refresh crypto config (env_at 50 1) (2 ∷ []) db ≡ (
      (refresh crypto config (env_at 50 1) (2 ∷ []) db).0,
      (refresh crypto config (env_at 50 1) (2 ∷ []) db).1,
    ))
unfolding find_one
Run-refresh_iff_example =
    Run-refresh_iff crypto config (env_at 50 1) (2 ∷ []) db
      (refresh crypto config (env_at 50 1) (2 ∷ []) db).1
      (refresh crypto config (env_at 50 1) (2 ∷ []) db).0 (λ r found. ground arith)

abbrev graced : System AuthDb Point
graced = record {
  memory = reused_db;
  point = two_calls (refreshing (env_at 5000 1) (2 ∷ [])) (logging_out (env_at 5000 2) 9);
}

abbrev graced_end : System AuthDb Point
graced_end = record {
  memory = reused_db;
  point =
      update
        (update graced.point 0 (
          looking_for_active (env_at 5000 1) (2 ∷ []) (record ann_token { revoked_at = some 1000 })
            (some ann)))
        0
        (refreshed (2 ∷ []) (ok (record { access_token = 1 ∷ 5000 ∷ []; refresh_token = 2 ∷ [] })));
}

refresh-exchanged_twice_example :
    let e = env_at 50 1 in
    let e' = env_at 51 2 in
    let new : Env → RefreshToken = λ env. record {
      id = env.row_id;
      token_hash = digest (1 ∷ 20 ∷ env.jti ∷ []);
      family = 20;
      user_id = 1;
      expires_at = env.now + jwt_expiration_to_ms (codes "7d");
      revoked_at = none;
    } in
    let answer : Env → TokenPair =
      λ env. record { access_token = 1 ∷ env.now ∷ []; refresh_token = 1 ∷ 20 ∷ env.jti ∷ [] } in
    (t : System AuthDb Point) × Reach
      (λ i. Move crypto config)
      (record { memory = db; point = two_calls (refreshing e (2 ∷ [])) (refreshing e' (2 ∷ [])) })
      t
    × (t.point 0 ≡ refreshed (2 ∷ []) (ok (answer e)))
    × (t.point 1 ≡ refreshed (2 ∷ []) (ok (answer e')))
    × (t.memory.refresh_tokens ≡ record ann_token { revoked_at = some 51 } ∷ new e ∷ new e' ∷ [])
unfolding find_one user_of generate_access_token generate_refresh_token update_where insert
refresh-exchanged_twice_example =
    refresh-exchanged_twice crypto config (2 ∷ []) db ann_token ann refl refl refl (env_at 50 1)
      (env_at 51 2) (omega arith) (omega arith) (ground arith)

logout-outlived_example :
    (s u t : System AuthDb Point) × Reach
      (λ i. Move crypto config)
      (record {
        memory = db;
        point = two_calls (refreshing (env_at 50 1) (2 ∷ [])) (logging_out (env_at 51 2) 1);
      })
      s
    × (s.point 0 ≡ saving_new (env_at 50 1) (2 ∷ []) ann_token (some ann))
    × (s.point 1 ≡ logging_out (env_at 51 2) 1)
    × Reach (λ i. Move crypto config) s u
    × (u.point 0 ≡ saving_new (env_at 50 1) (2 ∷ []) ann_token (some ann))
    × (u.point 1 ≡ logged_out 1)
    × Reach (λ i. Move crypto config) u t
    × (t.point 0
        ≡ refreshed (2 ∷ []) (
            ok (record {
              access_token = generate_access_token crypto config (env_at 50 1) 1 ann.email;
              refresh_token = raw_of crypto config (env_at 50 1) ann_token;
            })))
    × (t.point 1 ≡ logged_out 1)
    × (is_some (find_one (is_active_of_user 1) t.memory.refresh_tokens) ≡ true)
unfolding find_one user_of
logout-outlived_example =
    logout-outlived crypto config (2 ∷ []) db ann_token ann refl refl refl (env_at 50 1)
      (env_at 51 2) (omega arith)
