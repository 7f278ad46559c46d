-- ===== src/Videos/Keys.antt =====
-- The storage keys of nestjs-project/src/videos.
use videum_video_platform.Common.{◌≡◌, refl, true, false, [], ◌∷◌, ◌++◌, Text, codes, arith}
use videum_video_platform.Videos.Service.{storage_key_for}
use videum_video_platform.Videos.Processing.{has_slash, before_last_slash, thumbnail_key_for}

has_slash-append : (s t : Text) → has_slash t ≡ true → has_slash (s ++ t) ≡ true
unfolding has_slash
has_slash-append [] t h = h
has_slash-append (c ∷ s) t h = ground (arith, has_slash-append s t h)

-- A prefix before a slash and a text without one is what is cut out.
before_last_slash-append :
    (s t : Text) → has_slash t ≡ false → before_last_slash (s ++ (codes "/" ++ t)) ≡ s
unfolding before_last_slash has_slash
before_last_slash-append [] t h = rw h
before_last_slash-append (c ∷ s) t h =
    rw (has_slash-append s (codes "/" ++ t) refl, before_last_slash-append s t h)

-- The thumbnail of a video stands beside its original: for `videos/<id>/original` it is
-- `videos/<id>/thumbnail.jpg`, whatever the identifier is.
pub thumbnail_key_for-storage_key_for :
    (public_id : Text)
    → thumbnail_key_for (storage_key_for public_id)
      ≡ codes "videos/" ++ (public_id ++ codes "/thumbnail.jpg")
unfolding thumbnail_key_for storage_key_for has_slash
thumbnail_key_for-storage_key_for public_id =
    let slash : has_slash (public_id ++ codes "/original") ≡ true =
      has_slash-append public_id (codes "/original") refl in
    rw (slash, before_last_slash-append public_id (codes "original") refl)
