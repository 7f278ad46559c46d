-- ===== src/Videos/Processing.antt =====
-- nestjs-project/src/videos/processors/video-processing.processor.ts. What the storage, the file
-- system, ffprobe and ffmpeg answer is an argument; a duration is a number of microseconds, the
-- precision that ffprobe prints.
use videum_video_platform.Common.{
  ℕ, ◌+◌, ◌/◌, Bool, false, ◌||◌, [], ◌∷◌, ◌++◌, Option, none, some, Text, codes, Result, ok, err,
  internal, find_one, ltb, ◌==◌, if◌then◌else◌,
}
use videum_video_platform.Videos.Model.{
  ready, failed, Video, Job, VideoDb, is_ready, has_id, update_video,
}

-- What one run of the worker meets. `none` is a call that throws.
pub record Worker : Type 0 where
  pub mkdtemp : Bool
  -- key: the download of the source
  pub download_to_file : Text → Bool
  -- what `parseFloat` reads, `none` inside where that is not finite
  pub ffprobe : Option (Option ℕ)
  -- the second to seek: whether ffmpeg writes a thumbnail that can be read
  pub extract : ℕ → Bool
  -- key: the upload of the thumbnail
  pub put_object : Text → Bool

unfoldable pub has_slash : Text → Bool
has_slash [] = false
has_slash (d ∷ t) = d == b'/' || has_slash t

-- The text up to the last slash, which `substring(0, lastIndexOf('/'))` gives: the empty text
-- where there is no slash.
unfoldable pub before_last_slash : Text → Text
unfolding has_slash
before_last_slash [] = []
before_last_slash (c ∷ s) = if has_slash s then c ∷ before_last_slash s else []

-- `thumbnailKeyFor`
unfoldable pub thumbnail_key_for : Text → Text
unfolding before_last_slash
thumbnail_key_for storage_key = before_last_slash storage_key ++ codes "/thumbnail.jpg"

-- `probeDuration`
abbrev pub or_zero_duration : Option ℕ → ℕ
or_zero_duration none = 0
or_zero_duration (some micros) = micros

-- `durationSeconds > 2 ? 1 : 0` in `extractThumbnail`
unfoldable pub seek : ℕ → ℕ
seek micros = if ltb 2000000 micros then 1 else 0

-- `Math.round(durationSeconds)`
unfoldable pub round_seconds : ℕ → ℕ
round_seconds micros = (micros + 500000) / 1000000

-- The update that ends a successful run.
abbrev pub set_ready : ℕ → Text → Video → Video
set_ready seconds key v = record v {
  duration_seconds = some seconds;
  thumbnail_key = some key;
  status = ready;
}

abbrev pub set_failed : Video → Video
set_failed v = record v { status = failed }

-- The body of the `try`: the duration and the thumbnail's key, `none` where a call throws.
abbrev pub after_probe : Worker → Text → Option (Option ℕ) → Option (ℕ × Text)
after_probe w storage_key none = none
after_probe w storage_key (some duration) =
    let micros = or_zero_duration duration in
    let key = thumbnail_key_for storage_key in
    if w.extract (seek micros)
    then (if w.put_object key then some (micros, key) else none)
    else none

unfoldable pub try_process : Worker → Text → Option (ℕ × Text)
try_process w storage_key =
    if w.download_to_file storage_key then after_probe w storage_key w.ffprobe else none

abbrev pub finish : ℕ → Option (ℕ × Text) → VideoDb → Result (Unit {0}) × VideoDb
finish video_id none db = (err internal, update_video video_id set_failed db)
finish video_id (some (micros, key)) db =
    (ok tt, update_video video_id (set_ready (round_seconds micros) key) db)

abbrev pub process_found : Worker → Job → Option Video → VideoDb → Result (Unit {0}) × VideoDb
process_found w job none db = (ok tt, db)
process_found w job (some video) db =
    if is_ready video.status
    then (ok tt, db)
    else if w.mkdtemp
    then finish job.video_id (try_process w job.storage_key) db
    else (err internal, db)

-- `process`
unfoldable pub process : Worker → Job → VideoDb → Result (Unit {0}) × VideoDb
process w job db = process_found w job (find_one (has_id job.video_id) db.videos) db
