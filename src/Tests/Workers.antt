-- ===== src/Tests/Workers.antt =====
-- Runs of src/include/ThreadPool.h.
use mprpc_advanced_z.Base.{ℕ, ◌≡◌, ◌<◌, refl, true, [], ◌∷◌, ◌++◌}
use mprpc_advanced_z.ThreadPool.{new, work, enqueue, shut_down}
use mprpc_advanced_z.ThreadPool.Drain.{
  System, start, enqueues, takes, leaves, stops, Reach, here, next, Reach-start-IsFair,
}

-- A task is accepted and taken, the pool is stopped, and a worker returns.
abbrev ended : System ℕ
ended = record {
  pool = record { tasks = []; stop = true };
  accepted = 9 ∷ [];
  started = 9 ∷ [];
  exited = 1;
}

ended-reached : Reach start ended
unfolding start new enqueue work shut_down
ended-reached =
    next (next (next (next here (enqueues 9 _ refl refl)) (takes 9 _ refl refl)) (stops refl))
      (leaves _ refl refl)

Reach-start-IsFair_example :
    (ended.accepted ≡ ended.started ++ []) × (0 < 1 → ended.accepted ≡ ended.started)
Reach-start-IsFair_example = Reach-start-IsFair ended ended-reached
