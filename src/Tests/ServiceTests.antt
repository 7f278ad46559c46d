-- ===== src/Tests/ServiceTests.antt =====
-- The theorems on channels, on the routes and on the frontend, at concrete inputs.
use videum_video_platform.Common.{
  ℕ, zero, suc, ◌<◌, ◌≤◌, ◌≡◌, ◌≢◌, ◌↔◌, ◌⊎◌, refl, Bool, true, false, List, [], ◌∷◌, ◌++◌, Option,
  none, some, Text, codes, length, Result, ok, err, internal, arith, char_count, count_chars,
  find_one, has_variation_selector,
}
use videum_video_platform.Channels.Channel.{Channel}
use videum_video_platform.Channels.Nickname.{sanitize_nickname, is_nickname_unit}
use videum_video_platform.Channels.Bounds.{IsNickname, sanitize_nickname_bounds}
use videum_video_platform.Channels.Service.{
  NewChannel, SaveError, SaveReply, saved, failed, DataSource, create_channel, before_at,
}
use videum_video_platform.Channels.Creation.{
  IsStore, IsMadeFor, create_channel-IsMadeFor, violation-fails,
}
use videum_video_platform.Http.Guard.{
  JwtPayload, activated, can_activate, bearer_prefix, can_activate-protected_iff,
}
use videum_video_platform.Http.Errors.{filter_domain_exception}
use videum_video_platform.Http.Routes.{get_for_playback_route, documented, member, respond}
use videum_video_platform.Http.Handlers.{Services, get_for_playback_request, handle, serve}
use videum_video_platform.Http.Conformance.{serve-documented}
use videum_video_platform.Tests.AuthTests.{crypto, config, env_at, db, no_channel}
use videum_video_platform.Tests.VideoTests.{s3}
use videum_video_platform.Http.Bodies.{is_valid_create_video, fits_columns-draft_iff}
use videum_video_platform.Videos.Model.{fits_columns}
use videum_video_platform.Videos.Service.{
  CreateVideoDto, Draw, draft, get_for_playback, find_visible_video,
}
use videum_video_platform.Frontend.Session.{
  SessionData, empty_session, TokenReply, with_refresh, fetched,
}
use videum_video_platform.Frontend.Refresh.{RefreshEnds, with_refresh_cases}

-- A transaction over the rows, and whether a statement of it has failed. The rows of another session
-- that commits between the lookup and the insertion are seen by the unique column only.
abbrev Tx : Type 0
Tx = List Channel × Bool

abbrev row_of : NewChannel → Channel
row_of new = record {
  id = 1;
  name = new.name;
  nickname = new.nickname;
  description = none;
  user_id = new.user_id;
}

abbrev violation : SaveError
violation = record {
  is_query_failed_error = true;
  code = codes "23505";
  detail = some (codes "Key (nickname)=(ann) already exists.");
}

abbrev lookup : Text → Tx → Result (Option Channel) × Tx
lookup nickname (rows, true) = (err internal, (rows, true))
lookup nickname (rows, false) = (ok none, (rows, false))

-- A database that accepts every row.
abbrev free_source : DataSource Tx
free_source = record {
  begin = λ rows. (rows, false);
  find_one = lookup;
  save = λ new t. (saved (row_of new), (row_of new ∷ t.0, t.1));
  commit = λ t. t.0;
  rollback = λ t. [];
}

-- A database in which every nickname was taken since it was looked for.
abbrev taken_source : DataSource Tx
taken_source = record free_source { save = λ new t. (failed violation, (t.0, true)) }

abbrev to_lower : Text → Text
to_lower s = s

abbrev no_bytes : ℕ → List ℕ
no_bytes n = []

free_source-IsStore : IsStore free_source
free_source-IsStore = record { keeps = keeps }
  where
    keeps :
        (new : NewChannel) (t : Tx) (c : Channel)
        → ◌≡◌ {A = SaveReply} (saved (row_of new)) (saved c)
        → (c.name ≡ new.name) × (c.nickname ≡ new.nickname) × (c.user_id ≡ new.user_id)
    keeps new t c e = (ground arith, ground arith, ground arith)

create_channel-IsMadeFor_example :
    IsMadeFor
      (sanitize_nickname to_lower [] (before_at (codes "ann@x.org")))
      7
      (row_of (record { name = codes "ann"; nickname = codes "ann"; user_id = 7 }))
unfolding create_channel sanitize_nickname is_nickname_unit
create_channel-IsMadeFor_example =
    create_channel-IsMadeFor free_source to_lower [] no_bytes 7 (codes "ann@x.org") []
      (row_of (record { name = codes "ann"; nickname = codes "ann"; user_id = 7 }))
      free_source-IsStore refl

violation-fails_example :
    (create_channel taken_source to_lower [] no_bytes 7 (codes "ann@x.org") []).0 ≡ err internal
violation-fails_example =
    violation-fails taken_source to_lower [] no_bytes 7 (codes "ann@x.org") [] ([], false) violation
      (λ new t e nickname refused. refl) refl refl

sanitize_nickname_bounds_example :
    let nickname = sanitize_nickname to_lower [] (codes "ann") in
    (0 < length nickname) × (length nickname ≤ 46) × IsNickname nickname
sanitize_nickname_bounds_example = sanitize_nickname_bounds to_lower [] (codes "ann")

abbrev verify : Text → Option JwtPayload
verify [] = none
verify (c ∷ s) = some (record { sub = 7; email = codes "ann@x.org" })

can_activate-protected_iff_example :
    (can_activate verify false false (some (codes "Bearer t"))
      ≡ activated (some (record { sub = 7; email = codes "ann@x.org" })))
    ↔ ((token : Text) × (payload : JwtPayload) × (some (codes "Bearer t")
          ≡ some (bearer_prefix ++ token))
        × (verify token ≡ some payload)
        × (some (record { sub = 7; email = codes "ann@x.org" }) ≡ some payload))
can_activate-protected_iff_example =
    can_activate-protected_iff verify (some (codes "Bearer t"))
      (some (record { sub = 7; email = codes "ann@x.org" }))

abbrev repeated : ℕ → ℕ → Text
repeated zero c = []
repeated (suc n) c = c ∷ repeated n c

abbrev services : Services
services = record {
  k = crypto;
  cfg = config;
  create_channel = no_channel;
  e = env_at 50 1;
  db = db;
  s3 = s3;
  part_size = 5;
  d = record { public_id = repeated 36 65; row_id = 2; now = 200 };
  queue_accepts = true;
  videos = record { videos = []; jobs = [] };
}

-- A video that is not there.
serve-documented_example :
    ((member 404 (documented get_for_playback_route) ≡ true)
      ⊎ ((◌≡◌ {A = Bool} false true) × (◌≡◌ {A = ℕ} 404 429)))
    × (member 429 (documented get_for_playback_route) ≡ false)
unfolding serve respond handle can_activate filter_domain_exception get_for_playback
    find_visible_video find_one
serve-documented_example =
    serve-documented services verify false none none (get_for_playback_request (codes "x")) 404
      (λ email channels x e. ground arith) refl

abbrev session : SessionData
session = record empty_session { refresh_token = some (codes "old"); is_logged_in = true }

abbrev expired : SessionData → Option (ℕ × Text)
expired s = some (401, codes "no")

abbrev answer : SessionData → Option (ℕ × Text)
answer s = some (200, codes "yes")

abbrev tokens : TokenReply
tokens = record { is_ok = true; access_token = some (codes "a"); refresh_token = some (codes "r") }

with_refresh_cases_example :
    let result = with_refresh expired answer (λ token. some tokens) session in
    ((◌≡◌ {A = Option (ℕ × Text)} (some (401, codes "no")) none) × (result ≡ (none, session)))
    ⊎ ((status : ℕ) × (body : Text) × (◌≡◌ {A = Option (ℕ × Text)}
          (some (401, codes "no"))
          (some (status, body)))
        × (status ≢ 401)
        × (result ≡ (some (fetched status body), session)))
    ⊎ ((body : Text) × (◌≡◌ {A = Option (ℕ × Text)} (some (401, codes "no")) (some (401, body)))
        × RefreshEnds expired answer (λ token. some tokens) session result)
with_refresh_cases_example = with_refresh_cases expired answer (λ token. some tokens) session

-- A content type of 128 characters.
abbrev d : Draw
d = record { public_id = repeated 36 65; row_id = 2; now = 200 }

abbrev dto : CreateVideoDto
dto = record {
  title = codes "Snow";
  filename = codes "b.mp4";
  content_type = repeated 128 65;
  size_bytes = 5000;
}

fits_columns-draft_iff_example :
    (fits_columns (draft d 7 dto (codes "up")) ≡ true) ↔ (char_count (repeated 128 65) ≤ 127)
unfolding is_valid_create_video char_count count_chars has_variation_selector
fits_columns-draft_iff_example =
    fits_columns-draft_iff d 7 dto (codes "up")
      (record { is_email = λ s. true; str_length = char_count }) (λ s plain. refl) refl refl refl
      refl (omega arith)
