-- ===== src/Videos/Interleaving/Overwritten.antt =====
-- A sweep that goes by rows that have changed since it listed them.
use videum_video_platform.Common.{
  ℕ, zero, suc, ◌-◌, ◌≡◌, refl, ap, sym, ◌∙◌, Bool, true, List, [], ◌∷◌, ◌++◌, some, ok, find_one,
  update, System, Reach, Reach-append, start, later, pick, arith, subst, update_where,
}
use videum_video_platform.Common.Tables.Laws.{find_one_sound, find_one-update_where}
use videum_video_platform.Storage.{S3, head_object}
use videum_video_platform.Videos.Model.{Video, VideoDb, has_id, update_video, add_job}
use videum_video_platform.Videos.Service.{start_processing}
use videum_video_platform.Videos.Reconciliation.{stale_videos, reconcile}
use videum_video_platform.Videos.Commands.{Command, run, run_all, AreFreshRows}
use videum_video_platform.Videos.Interleaving.{
  ThreadPoint, listing, reconciling, serving, Move, list_stale, reconcile_next, serve,
}

-- A sweep and one other thread.
abbrev pub beside : ThreadPoint → ThreadPoint → ℕ → ThreadPoint
beside p q zero = p
beside p q (suc zero) = q
beside p q (suc (suc i)) = serving []

-- The other thread serves all its commands.
serve_all :
    (commands : List Command) (s : System VideoDb ThreadPoint)
    → s.point 1 ≡ serving commands
    → AreFreshRows commands s.memory
    → (t : System VideoDb ThreadPoint) × Reach (λ i. Move) s t
      × (t.memory ≡ run_all commands s.memory)
      × (t.point 0 ≡ s.point 0)
unfolding run_all
serve_all [] s at fresh = (s, start, refl, refl)
serve_all (c ∷ commands) s at (new, fresh) =
    let s' : System VideoDb ThreadPoint = record {
      memory = run c s.memory;
      point = update s.point 1 (serving commands);
    } in
    let move : Move s.memory (s.point 1) (run c s.memory) (serving commands) =
      subst (λ p. Move s.memory p (run c s.memory) (serving commands)) (sym at)
        (serve c commands new) in
    let (t, reach, served, first) = serve_all commands s' refl fresh in
    (t, Reach-append (later start (pick 1 move)) reach, served, first)

find-restarted :
    (v v' : Video) (rows : List Video)
    → find_one (has_id v.id) rows ≡ some v'
    → find_one (has_id v.id) (update_where (has_id v.id) start_processing rows)
      ≡ some (start_processing v')
find-restarted v v' rows found =
    let hit = find_one_sound (has_id v.id) rows found in
    find_one-update_where (has_id v.id) (has_id v.id) start_processing rows (λ w. ground arith)
    ∙ rw found (ap some (rw hit))

-- A sweep does not look again at the rows that it has listed. Let `v` be the first of them, and let
-- any commands run once it is listed: if its object is stored and the queue takes the job, then the
-- sweep puts the row, whatever the commands have made of it, into processing, and adds a job. So a
-- video that was completed, processed and ready in the meantime is taken away and processed again.
pub sweep-overwrites :
    (s3 : S3) (queue_accepts : ℕ → Bool) (now timeout size : ℕ) (commands : List Command)
    (db : VideoDb) (v v' : Video) (rest : List Video)
    → stale_videos (now - timeout) db.videos ≡ v ∷ rest
    → AreFreshRows commands db
    → find_one (has_id v.id) (run_all commands db).videos ≡ some v'
    → head_object s3 v.storage_key ≡ ok (some size)
    → queue_accepts v.id ≡ true
    → (t : System VideoDb ThreadPoint) × Reach
        (λ i. Move)
        (record {
          memory = db;
          point = beside (listing s3 queue_accepts now timeout) (serving commands);
        })
        t
      × (find_one (has_id v.id) t.memory.videos ≡ some (start_processing v'))
      × (t.memory.jobs
          ≡ (run_all commands db).jobs
            ++ record { video_id = v.id; storage_key = v.storage_key } ∷ [])
unfolding reconcile update_video add_job
sweep-overwrites s3 queue_accepts now timeout size commands db v v' rest listed fresh found stored
      accepted =
    let s : System VideoDb ThreadPoint = record {
      memory = db;
      point =
          update (beside (listing s3 queue_accepts now timeout) (serving commands)) 0
            (reconciling s3 queue_accepts (v ∷ rest));
    } in
    let list : Move db (listing s3 queue_accepts now timeout) db
        (reconciling s3 queue_accepts (v ∷ rest)) =
      subst
        (λ l. Move db (listing s3 queue_accepts now timeout) db (reconciling s3 queue_accepts l))
        listed (list_stale s3 queue_accepts now timeout) in
    let (t, reach, served, first) = serve_all commands s refl fresh in
    let next =
      subst
        (λ p.
          Move t.memory p (reconcile s3 queue_accepts v t.memory).1
            (reconciling s3 queue_accepts rest))
        (sym first) (reconcile_next s3 queue_accepts v rest) in
    (
      _,
      later (Reach-append (later start (pick 0 list)) reach) (pick 0 next),
      rw (stored, accepted, served) (find-restarted v v' (run_all commands db).videos found),
      rw (stored, accepted, served),
    )
