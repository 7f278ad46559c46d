-- ===== src/Tests/RaceTests.antt =====
-- A sweep that overlaps the completion and the processing of the video that it has listed.
use videum_video_platform.Common.{
  ℕ, zero, suc, ◌≡◌, refl, true, List, [], ◌∷◌, ◌++◌, none, some, codes, text_eq, find_one,
  update_where, System, Reach, start, later, pick,
}
use videum_video_platform.Storage.{complete_multipart_upload, head_object, sort_parts}
use videum_video_platform.Videos.Model.{
  ready, Video, VideoDb, find_by_public_id, update_video, add_job, has_id,
}
use videum_video_platform.Videos.Service.{complete_upload, start_processing}
use videum_video_platform.Videos.Processing.{
  process, try_process, thumbnail_key_for, has_slash, round_seconds, seek,
}
use videum_video_platform.Videos.Reconciliation.{stale_videos, reconcile}
use videum_video_platform.Videos.Commands.{Command, complete, work, run, run_all}
use videum_video_platform.Videos.Interleaving.{
  ThreadPoint, listing, serving, Move, list_stale, serve, reconcile_next,
}
use videum_video_platform.Videos.Interleaving.Kept.{IsValidTable, HasRows, Reach-IsValid}
use videum_video_platform.Videos.Interleaving.Overwritten.{beside, sweep-overwrites}
use videum_video_platform.Tests.VideoTests.{s3, public_id, v, db, parts, key_of, worker, db-IsValid}

abbrev completing : List Command
completing = complete s3 true 7 public_id parts ∷ work worker 0 ∷ []

abbrev shown : Video
shown = record v {
  upload_id = none;
  status = ready;
  duration_seconds = some 12;
  thumbnail_key = some (codes "videos/p1/thumbnail.jpg");
}

abbrev overlapping : System VideoDb ThreadPoint
overlapping = record {
  memory = db;
  point = beside (listing s3 (λ id. true) 9000 100) (serving completing);
}

sweep-overwrites_example :
    (t : System VideoDb ThreadPoint) × Reach (λ i. Move) overlapping t
    × (find_one (has_id 1) t.memory.videos ≡ some (start_processing shown))
    × (t.memory.jobs
        ≡ (run_all completing db).jobs
          ++ record { video_id = 1; storage_key = codes "videos/p1/original" } ∷ [])
unfolding run_all complete_upload find_by_public_id find_one text_eq complete_multipart_upload
    head_object sort_parts update_video update_where add_job process try_process thumbnail_key_for
    has_slash stale_videos round_seconds seek
sweep-overwrites_example =
    sweep-overwrites s3 (λ id. true) 9000 100 5000 completing db v shown [] refl (tt, (tt, tt)) refl
      refl refl

overlapping-HasRows : (i : ℕ) → HasRows db (overlapping.point i)
overlapping-HasRows zero = tt
overlapping-HasRows (suc zero) = tt
overlapping-HasRows (suc (suc i)) = tt

-- The sweep lists the row, the owner completes, and the sweep goes on.
overlapping-reached :
    (t : System VideoDb ThreadPoint) × Reach (λ i. Move) overlapping t
    × (t.memory ≡ (reconcile s3 (λ id. true) v (run (complete s3 true 7 public_id parts) db)).1)
unfolding stale_videos
overlapping-reached = (
  _,
  later
      (later (later start (pick 0 (list_stale s3 (λ id. true) 9000 100)))
        (pick 1 (serve (complete s3 true 7 public_id parts) (work worker 0 ∷ []) tt)))
      (pick 0 (reconcile_next s3 (λ id. true) v [])),
  refl,
)

Reach-IsValid_example : IsValidTable overlapping-reached.0.memory
Reach-IsValid_example =
    Reach-IsValid overlapping overlapping-reached.0 (key_of, db-IsValid) overlapping-HasRows
      overlapping-reached.1
