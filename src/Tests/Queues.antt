-- ===== src/Tests/Queues.antt =====
-- Runs of src/include/block_queue.h.
use mprpc_advanced_z.Base.{ℕ, ◌≡◌, refl, false, List, [], ◌∷◌, ◌++◌, arith, map}
use mprpc_advanced_z.BlockQueue.{BlockQueue, pop}
use mprpc_advanced_z.BlockQueue.Fifo.{
  Call, pushes, pops, closes, accepted, left, run, item_of, run-fifo,
}
use mprpc_advanced_z.BlockQueue.Wakeups.{
  Monitor, Step, arrives, here, next, IsAwake, produces, settle, Reach-IsAwake,
}

abbrev calls : List (Call ℕ)
calls = pushes 3 ∷ pushes 4 ∷ pops ∷ pushes 5 ∷ pushes 6 ∷ closes ∷ []

abbrev two_places : BlockQueue ℕ
two_places = record { m_queue = []; m_max_size = 2; m_is_close = false }

run-fifo_example :
    [] ++ accepted calls two_places
    ≡ map item_of (left calls two_places) ++ (run calls two_places).m_queue
run-fifo_example = run-fifo calls two_places

-- A consumer that comes to an empty queue and sleeps, and an item that wakes it.
abbrev idle : Monitor ℕ
idle = record { queue = two_places; asleep = 0; woken = 0; closing = 0 }

abbrev sleeping : Monitor ℕ
sleeping = settle (pop two_places) idle

Reach-IsAwake_example : IsAwake (produces 7 sleeping)
Reach-IsAwake_example =
    Reach-IsAwake (record { served = λ h. absurd (omega arith); ended = λ h k. refl })
      (next (next here (arrives refl)) (Step.pushes 7 refl))
