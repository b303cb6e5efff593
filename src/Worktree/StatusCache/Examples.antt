-- ===== src/Worktree/StatusCache/Examples.antt =====
-- Instances of the theorems on the status cache.
use gitglasses.Worktree.StatusCache.{
  job_token, load_settled, get, step, new_cache, lookup, Event, status_key, run, busy, Job, gets,
  invalidates, settles, loaded,
}
use gitglasses.Base.{codes, List, refl, [], ◌∷◌, none, some, ◌++◌, ◌≡◌, arith}
use gitglasses.Worktree.StatusCache.Served.{
  new_cache-IsServed, idle-pending, run-IsServed, IsServed,
}

-- Two slots and three worktrees, one of them asked for again under another commit.
abbrev visits : List Event
visits =
    gets (codes "a") (codes "1")
    ∷ gets (codes "b") (codes "1")
    ∷ gets (codes "c") (codes "1")
    ∷ gets (codes "c") (codes "2")
    ∷ settles 0 (loaded (codes "clean"))
    ∷ []

run-IsServed_example : IsServed 2 (run visits (new_cache 2))
run-IsServed_example = run-IsServed 2 visits (new_cache 2) (new_cache-IsServed 2)

idle-pending_example :
    ((run (settles 0 (loaded []) ∷ settles 0 (loaded []) ∷ []) (run visits (new_cache 2))).queue
      ≡ [])
    × (lookup
          (codes "c")
          (run
            (settles 0 (loaded []) ∷ settles 0 (loaded []) ∷ [])
            (run visits (new_cache 2))).pending
        ≡ none)
unfolding run step new_cache get load_settled job_token
idle-pending_example =
    idle-pending (visits ++ settles 0 (loaded []) ∷ settles 0 (loaded []) ∷ []) 2 (codes "c")
      (omega arith) refl

abbrev first : Job
first = record { path = codes "a"; key = codes "1"; generation = 0 }

-- An answer that was asked for before an invalidation and comes after the newer one replaces it.
late_run :
    lookup
      (codes "a")
      (run
        (gets (codes "a") (codes "1")
          ∷ invalidates
          ∷ gets (codes "a") (codes "1")
          ∷ settles 1 (loaded (codes "new"))
          ∷ settles 0 (loaded (codes "old"))
          ∷ [])
        (new_cache 2)).entries
    ≡ some (record { status = some (codes "old"); error = none; key = codes "1"; generation = 0 })
unfolding run new_cache job_token
late_run = refl

status_key_run : status_key (codes "s") none (some (codes "m")) ≡ codes "s||m"
unfolding status_key
status_key_run = refl

busy_run : busy (run visits (new_cache 2)) ≡ 2
unfolding busy run new_cache job_token
busy_run = refl
