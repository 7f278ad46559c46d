-- ===== src/Tests/VideoTests.antt =====
-- The theorems on videos and on the storage, at a table with one video and concrete stand-ins for
-- the storage and the worker.
use videum_video_platform.Common.{
  ℕ, ◌-◌, ◌*◌, ◌<◌, ◌≤◌, ◌≡◌, refl, ◌↔◌, inl, inr, Bool, true, false, List, [], ◌∷◌, map, none,
  some, Text, codes, text_eq, find_one, insert, ok, err, internal, upload_already_finalized,
  video_not_found, arith, char_count, count_chars,
}
use videum_video_platform.Storage.{
  S3, resolved, CompletedPart, complete_multipart_upload, head_object, get_presigned_get_url,
  part_count, initiate_multipart_upload, sort_parts, get_presigned_part_urls,
}
use videum_video_platform.Storage.Parts.{part_count_covers}
use videum_video_platform.Videos.Model.{
  uploading, processing, Video, Job, VideoDb, find_by_public_id, update_video, add_job,
}
use videum_video_platform.Videos.Service.{
  CreateVideoDto, Draw, CreateVideoResult, CompleteUploadResult, VideoPlaybackResult, create_draft,
  complete_upload, get_for_playback, get_download_url, start_processing, storage_key_for,
}
use videum_video_platform.Videos.Processing.{
  Worker, process, try_process, round_seconds, thumbnail_key_for, has_slash,
}
use videum_video_platform.Videos.Reconciliation.{sweep}
use videum_video_platform.Videos.Completion.{Completes, complete_upload_iff}
use videum_video_platform.Videos.Visibility.{IsVisible, without, hidden-eq-missing}
use videum_video_platform.Videos.Commands.{Command, complete, work, reconcile_stale}
use videum_video_platform.Videos.Invariant.{IsValid}
use videum_video_platform.Videos.Sweep.{reconciled, sweep-eq-map}
use videum_video_platform.Videos.Pipeline.{create-to-playback}
use videum_video_platform.Videos.Stranded.{size_mismatch-sweep, refused_queue-strands}

abbrev pub s3 : S3
s3 = record {
  head_bucket = resolved tt;
  create_bucket = resolved tt;
  create_multipart_upload = λ key content_type. resolved (some (codes "up"));
  complete_multipart_upload = λ key id parts. resolved tt;
  head_object = λ key. resolved (some 5000);
  sign_part = λ key id n. n ∷ key;
  sign_get = λ key disposition. key;
}

-- A storage that holds an object of another size.
abbrev s3_short : S3
s3_short = record s3 { head_object = λ key. resolved (some 4000) }

abbrev pub public_id : Text
public_id = codes "p1"

abbrev pub v : Video
v = record {
  id = 1;
  public_id = codes "p1";
  owner_id = 7;
  title = codes "Holidays";
  original_filename = codes "a.mp4";
  storage_key = codes "videos/p1/original";
  upload_id = some (codes "up");
  size_bytes = 5000;
  content_type = codes "video/mp4";
  status = uploading;
  duration_seconds = none;
  thumbnail_key = none;
  created_at = 100;
}

abbrev pub db : VideoDb
db = record { videos = v ∷ []; jobs = [] }

abbrev pub parts : List CompletedPart
parts = record { part_number = 1; etag = codes "e" } ∷ []

completes : Completes s3 7 public_id parts db v
unfolding find_by_public_id find_one text_eq complete_multipart_upload head_object sort_parts
completes = record {
  found = refl;
  owned = refl;
  waiting = refl;
  started = refl;
  assembled = refl;
  stored = refl;
}

abbrev job : Job
job = record { video_id = 1; storage_key = codes "videos/p1/original" }

abbrev completed_db : VideoDb
completed_db = record { videos = start_processing v ∷ []; jobs = job ∷ [] }

complete_upload_iff_example :
    (complete_upload s3 true 7 public_id parts db
      ≡ (ok (record { public_id = codes "p1"; status = processing }), completed_db))
    ↔ ((x : Video) × Completes s3 7 public_id parts db x
        × (◌≡◌ {A = Bool} true true)
        × (◌≡◌ {A = CompleteUploadResult}
            (record { public_id = codes "p1"; status = processing })
            (record { public_id = x.public_id; status = processing }))
        × (completed_db
            ≡ add_job
                (record { video_id = x.id; storage_key = x.storage_key })
                (update_video x.id start_processing db)))
complete_upload_iff_example =
    complete_upload_iff s3 true 7 public_id parts db
      (record { public_id = codes "p1"; status = processing }) completed_db

hidden-eq-missing_example :
    ((get_for_playback s3 public_id (some 8) db).0 ≡ err video_not_found)
    × ((get_for_playback s3 public_id (some 8) (without public_id db)).0
        ≡ (get_for_playback s3 public_id (some 8) db).0)
    × ((get_download_url s3 public_id (some 8) db).0 ≡ err video_not_found)
    × ((get_download_url s3 public_id (some 8) (without public_id db)).0
        ≡ (get_download_url s3 public_id (some 8) db).0)
unfolding find_by_public_id find_one text_eq
hidden-eq-missing_example = hidden-eq-missing s3 public_id (some 8) db v refl hidden
  where
    hidden : ¬ IsVisible (some 8) v
    hidden (inl e) = cc
    hidden (inr e) = ground arith

abbrev pub key_of : ℕ → Text
key_of i = codes "videos/p1/original"

abbrev pub worker : Worker
worker = record {
  mkdtemp = true;
  download_to_file = λ key. true;
  ffprobe = some (some 12400000);
  extract = λ seconds. true;
  put_object = λ key. true;
}

pub db-IsValid : IsValid key_of db
unfolding storage_key_for
db-IsValid = record {
  videos =
      (record { upload = refl; shown = refl; stored = refl; keyed = refl; thumbnail = tt }, tt);
  keys = tt;
  started = tt;
}

abbrev commands : List Command
commands =
    complete s3 true 7 public_id parts
    ∷ work worker 0
    ∷ reconcile_stale s3 (λ id. true) 9000 100
    ∷ []

sweep-eq-map_example :
    (sweep s3 (λ id. true) 9000 100 db).videos ≡ map (reconciled s3 (9000 - 100)) (v ∷ [])
sweep-eq-map_example = sweep-eq-map s3 (λ id. true) 9000 100 db (tt, tt)

size_mismatch-sweep_example :
    find_by_public_id public_id
      (sweep s3_short (λ id. true) 9000 100 (complete_upload s3_short true 7 public_id parts db).1)
    ≡ some (start_processing v)
unfolding complete_upload find_by_public_id find_one text_eq complete_multipart_upload head_object
    sort_parts
size_mismatch-sweep_example =
    size_mismatch-sweep s3_short s3_short true (λ id. true) 7 public_id parts db v 9000 100 4000
      (tt, tt) refl refl refl refl

refused_queue-strands_example :
    ((complete_upload s3 false 7 public_id parts db).0 ≡ err internal)
    × ((complete_upload s3 false 7 public_id parts db).1.jobs ≡ [])
    × ((complete_upload s3 true 7 public_id parts
          (complete_upload s3 false 7 public_id parts db).1).0
        ≡ err upload_already_finalized)
    × (find_by_public_id public_id
          (sweep s3 (λ id. true) 9000 100 (complete_upload s3 false 7 public_id parts db).1)
        ≡ some (start_processing v))
refused_queue-strands_example =
    refused_queue-strands s3 7 public_id parts db v s3 true parts (λ id. true) 9000 100 (tt, tt)
      completes

-- A second video.
abbrev d : Draw
d = record { public_id = codes "p2"; row_id = 2; now = 200 }

abbrev dto : CreateVideoDto
dto = record {
  title = codes "Snow";
  filename = codes "b.mp4";
  content_type = codes "video/mp4";
  size_bytes = 5000;
}

abbrev created : CreateVideoResult
created = record {
  public_id = codes "p2";
  upload_id = codes "up";
  storage_key = codes "videos/p2/original";
  parts = record { part_number = 1; url = 1 ∷ codes "videos/p2/original" } ∷ [];
}

abbrev created_db : VideoDb
created_db = record {
  videos =
      v
      ∷ record v {
        id = 2;
        public_id = codes "p2";
        title = codes "Snow";
        original_filename = codes "b.mp4";
        storage_key = codes "videos/p2/original";
        created_at = 200;
      }
      ∷ [];
  jobs = [];
}

create-run : create_draft s3 104857600 d 7 dto db ≡ (ok created, created_db)
unfolding create_draft initiate_multipart_upload find_one text_eq insert count_chars
    get_presigned_part_urls part_count char_count
create-run = refl

create-to-playback_example :
    let db2 = (complete_upload s3 true 7 (codes "p2") parts created_db).1 in
    let db3 =
      (process worker (record { video_id = 2; storage_key = codes "videos/p2/original" }) db2).1 in
    (r : VideoPlaybackResult) × ((get_for_playback s3 (codes "p2") none db3).0 ≡ ok r)
    × (r.playback_url ≡ some (get_presigned_get_url s3 (codes "videos/p2/original") none))
    × (r.duration_seconds ≡ some (round_seconds 12400000))
unfolding complete_multipart_upload head_object try_process thumbnail_key_for has_slash
create-to-playback_example =
    create-to-playback s3 104857600 d 7 dto db created created_db parts worker 12400000
      (codes "videos/p2/thumbnail.jpg") none ((λ p. ground arith), tt) create-run refl refl refl
      refl

part_count_covers_example :
    (5000 ≤ part_count 2000 5000 * 2000)
    × (1 < part_count 2000 5000 → (part_count 2000 5000 - 1) * 2000 < 5000)
    × (1 ≤ part_count 2000 5000)
part_count_covers_example = part_count_covers 2000 5000 (omega arith)

-- Two parts in the wrong order.
abbrev two_parts : List CompletedPart
two_parts =
    record { part_number = 2; etag = codes "f" } ∷ record { part_number = 1; etag = codes "e" } ∷ []
