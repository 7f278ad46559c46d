-- ===== src/Videos/Visibility.antt =====
-- Who sees what in `getForPlayback` and `getDownloadUrl` of
-- nestjs-project/src/videos/videos.service.ts.
use videum_video_platform.Common.{
  ℕ, ◌≡◌, ap, sym, ◌∙◌, ◌↔◌, ◌⊎◌, Bool, true, false, ◌||◌, inl, inr, Option, none, some, Text,
  Result, ok, err, ok-injective, video_not_found, video_not_ready, Bool-cases, Option-cases, arith,
  delete_where, if◌then◌else◌,
}
use videum_video_platform.Common.Tables.Laws.{find_one-delete_where}
use videum_video_platform.Storage.{S3, get_presigned_get_url}
use videum_video_platform.Videos.Model.{
  ready, Video, VideoDb, is_ready, find_by_public_id, has_public_id,
}
use videum_video_platform.Videos.Service.{
  VideoPlaybackResult, is_requester, find_visible_video, presigned, get_for_playback,
  get_download_url,
}

-- The video is ready, or the requester is its owner.
abbrev pub IsVisible : Option ℕ → Video → Type 0
IsVisible requester_id v = (v.status ≡ ready) ⊎ (requester_id ≡ some v.owner_id)

-- The table without the rows of a public id.
abbrev pub without : Text → VideoDb → VideoDb
without public_id db = record db { videos = delete_where (has_public_id public_id) db.videos }

abbrev may_see : Option ℕ → Video → Bool
may_see requester_id v = is_ready v.status || is_requester requester_id v

may_see_iff :
    (requester_id : Option ℕ) (v : Video)
    → (may_see requester_id v ≡ true) ↔ IsVisible requester_id v
may_see_iff none v = (λ h. ground arith, λ h. ground arith)
may_see_iff (some u) v = (λ h. ground arith, λ h. ground arith)

find_visible_video-missing :
    (public_id : Text) (requester_id : Option ℕ) (db : VideoDb)
    → find_by_public_id public_id db ≡ none
    → find_visible_video public_id requester_id db ≡ (err video_not_found, db)
unfolding find_visible_video
find_visible_video-missing public_id requester_id db missing = rw missing

find_by_public_id-without :
    (public_id : Text) (db : VideoDb) → find_by_public_id public_id (without public_id db) ≡ none
unfolding find_by_public_id
find_by_public_id-without public_id db = find_one-delete_where (has_public_id public_id) db.videos

module _ (s3 : S3) (public_id : Text) (requester_id : Option ℕ) (db : VideoDb) where
  find_visible_video-cases :
      (v : Video)
      → find_by_public_id public_id db ≡ some v
      → find_visible_video public_id requester_id db
        ≡ (if may_see requester_id v then ok v else err video_not_found, db)
  unfolding find_visible_video
  find_visible_video-cases v found = elim (Bool-cases (is_ready v.status)) [
    | inl shown ↦ rw (found, shown)
    | inr early ↦ elim (Bool-cases (is_requester requester_id v)) [
      | inl own ↦ rw (found, early, own)
      | inr other ↦ rw (found, early, other)
    ]
  ]

  hidden-eq-false : (v : Video) → ¬ IsVisible requester_id v → may_see requester_id v ≡ false
  hidden-eq-false v hidden = elim (Bool-cases (may_see requester_id v)) [
    | inl seen ↦ absurd (hidden ((may_see_iff requester_id v).0 seen))
    | inr unseen ↦ unseen
  ]

  -- To a requester who may not see a video, it looks like a video that does not exist: playback and
  -- download answer `VIDEO_NOT_FOUND`, as they do once the video's row is taken out of the table.
  pub hidden-eq-missing :
      (v : Video)
      → find_by_public_id public_id db ≡ some v
      → ¬ IsVisible requester_id v
      → ((get_for_playback s3 public_id requester_id db).0 ≡ err video_not_found)
        × ((get_for_playback s3 public_id requester_id (without public_id db)).0
            ≡ (get_for_playback s3 public_id requester_id db).0)
        × ((get_download_url s3 public_id requester_id db).0 ≡ err video_not_found)
        × ((get_download_url s3 public_id requester_id (without public_id db)).0
            ≡ (get_download_url s3 public_id requester_id db).0)
  unfolding get_for_playback get_download_url
  hidden-eq-missing v found hidden =
      let denied : find_visible_video public_id requester_id db ≡ (err video_not_found, db) =
        find_visible_video-cases v found ∙ rw (hidden-eq-false v hidden) in
      let gone =
        find_visible_video-missing public_id requester_id (without public_id db)
          (find_by_public_id-without public_id db) in
      (rw denied, rw (denied, gone), rw denied, rw (denied, gone))

  -- Playback succeeds exactly for a video that is known and visible to the requester. The answer
  -- carries a playback URL exactly if the video is ready, and nothing is written.
  pub get_for_playback_iff :
      (r : VideoPlaybackResult) (db' : VideoDb)
      → (get_for_playback s3 public_id requester_id db ≡ (ok r, db')) ↔ (
          (v : Video) × (find_by_public_id public_id db ≡ some v)
          × IsVisible requester_id v
          × (db' ≡ db)
          × (r ≡ record {
            public_id = v.public_id;
            title = v.title;
            status = v.status;
            duration_seconds = v.duration_seconds;
            thumbnail_url = presigned s3 v.thumbnail_key;
            playback_url =
                if is_ready v.status
                then some (get_presigned_get_url s3 v.storage_key none)
                else none;
          }))
  unfolding get_for_playback
  get_for_playback_iff r db' = (
    λ done. elim (Option-cases (find_by_public_id public_id db)) [
      | inl missing ↦ absurd (
          no_answer r db'
            (rw (find_visible_video-missing public_id requester_id db missing) at done))
      | inr (v, found) ↦ elim (Bool-cases (may_see requester_id v)) [
        | inl seen ↦
            let e = rw (find_visible_video-cases v found, seen) at done in
            (
              v,
              found,
              (may_see_iff requester_id v).0 seen,
              sym (ap (λ t. t.1) e),
              sym (ok-injective (ap (λ t. t.0) e)),
            )
        | inr unseen ↦
            absurd (no_answer r db' (rw (find_visible_video-cases v found, unseen) at done))
      ]
    ],
    λ (v, found, visible, same, answer).
        rw (same, answer, find_visible_video-cases v found, (may_see_iff requester_id v).1 visible),
  )
    where
      no_answer :
          (r : VideoPlaybackResult) (db' : VideoDb)
          → ¬ (◌≡◌ {A = Result VideoPlaybackResult × VideoDb} (err video_not_found, db) (ok r, db'))
      no_answer r db' e = cc

  -- A download URL is given exactly for a video that is known and ready; the owner of a video that
  -- is not ready is told so.
  pub get_download_url_cases :
      (v : Video)
      → find_by_public_id public_id db ≡ some v
      → (get_download_url s3 public_id requester_id db).0 ≡ (
          if is_ready v.status
          then ok (get_presigned_get_url s3 v.storage_key (some v.original_filename))
          else if is_requester requester_id v
          then err video_not_ready
          else err video_not_found)
  unfolding get_download_url
  get_download_url_cases v found = elim (Bool-cases (is_ready v.status)) [
    | inl shown ↦ rw (find_visible_video-cases v found, shown, shown)
    | inr early ↦ elim (Bool-cases (is_requester requester_id v)) [
      | inl own ↦ rw (find_visible_video-cases v found, early, own, early)
      | inr other ↦ rw (find_visible_video-cases v found, early, other)
    ]
  ]
