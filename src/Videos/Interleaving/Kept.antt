-- ===== src/Videos/Interleaving/Kept.antt =====
-- The invariant of the table of videos and of the queue under interleaved sweeps.
use videum_video_platform.Common.{ℕ, ◌-◌, Text, All, All-map_of, System, Reach, Reach-Holds}
use videum_video_platform.Storage.{head_object}
use videum_video_platform.Videos.Model.{Video, VideoDb}
use videum_video_platform.Videos.Reconciliation.{reconcile}
use videum_video_platform.Videos.Sweep.{stale_videos-All}
use videum_video_platform.Videos.Invariant.{IsValid}
use videum_video_platform.Videos.Preservation.{reconcile_head-IsValid, run-IsValid}
use videum_video_platform.Videos.Interleaving.{
  ThreadPoint, listing, reconciling, serving, Move, list_stale, reconcile_next, serve,
}
use videum_video_platform.Videos.Interleaving.Rows.{
  HasRow, HasRow-reconcile_head, HasRow-run, rows-HasRow, HasRow-keyed,
}

-- The invariant holds, for some assignment of keys to identifiers.
abbrev pub IsValidTable : VideoDb → Type 0
IsValidTable db = (key_of : ℕ → Text) × IsValid key_of db

-- The rows that a sweep has listed have rows in the table.
abbrev pub HasRows : VideoDb → ThreadPoint → Type 0
HasRows db (reconciling s3 queue_accepts stale) = All (HasRow db) stale
HasRows db _ = Unit

Move-own :
    (db : VideoDb) (p : ThreadPoint) (db' : VideoDb) (p' : ThreadPoint)
    → Move db p db' p'
    → IsValidTable db
    → HasRows db p
    → IsValidTable db' × HasRows db' p'
unfolding reconcile
Move-own db p db' p' (list_stale s3 queue_accepts now timeout) valid at =
    (valid, stale_videos-All (HasRow db) (now - timeout) db.videos (rows-HasRow db.videos))
Move-own db p db' p' (reconcile_next s3 queue_accepts v stale) (key_of, valid) (has, at) =
    let head = head_object s3 v.storage_key in
    (
      (
        key_of,
        reconcile_head-IsValid key_of queue_accepts v head db (HasRow-keyed key_of db v valid has)
            valid,
      ),
      All-map_of (HasRow db) _ stale (λ w. HasRow-reconcile_head queue_accepts v head db w) at,
    )
Move-own db p db' p' (serve c commands fresh) (key_of, valid) at =
    (run-IsValid c db key_of valid fresh, tt)

HasRows-other :
    (db db' : VideoDb) (q : ThreadPoint)
    → ((v : Video) → HasRow db v → HasRow db' v)
    → HasRows db q
    → HasRows db' q
HasRows-other db db' (listing s3 queue_accepts now timeout) keep at = tt
HasRows-other db db' (reconciling s3 queue_accepts stale) keep at = All-map_of _ _ stale keep at
HasRows-other db db' (serving commands) keep at = tt

Move-HasRow :
    (db : VideoDb) (p : ThreadPoint) (db' : VideoDb) (p' : ThreadPoint)
    → Move db p db' p'
    → (v : Video) → HasRow db v
    → HasRow db' v
unfolding reconcile
Move-HasRow db p db' p' (list_stale s3 queue_accepts now timeout) v has = has
Move-HasRow db p db' p' (reconcile_next s3 queue_accepts w stale) v has =
    HasRow-reconcile_head queue_accepts w (head_object s3 w.storage_key) db v has
Move-HasRow db p db' p' (serve c commands fresh) v has = HasRow-run c db v has

-- However requests, runs of the worker and the rows of several sweeps interleave, the table stays
-- valid: a video that waits has an upload id and one in processing or ready has none, one that is
-- ready has a duration and a thumbnail, the keys agree, and every job is for a video past its
-- upload. At the start no sweep has listed rows that are not in the table, and the identifiers of
-- new rows are new.
pub Reach-IsValid :
    (s t : System VideoDb ThreadPoint)
    → IsValidTable s.memory
    → ((i : ℕ) → HasRows s.memory (s.point i))
    → Reach (λ i. Move) s t
    → IsValidTable t.memory
Reach-IsValid s t valid at reach =
    (Reach-Holds IsValidTable (λ i db p. HasRows db p) (λ i. Move-own)
      (λ i j db p db' p' q other move inv here there.
        HasRows-other db db' q (Move-HasRow db p db' p' move) there)
      reach (valid, at)).0
