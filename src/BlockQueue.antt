-- ===== src/BlockQueue.antt =====
-- src/include/block_queue.h: the bounded queue between the threads that log and the one that writes.
-- Each function is one call under the mutex, or the part of a call between two waits.
pub mod Fifo
pub mod Wakeups
use mprpc_advanced_z.Base.{
  ℕ, suc, ◌+◌, ◌≡◌, List, [], ◌∷◌, ◌++◌, Option, none, some, Bool, true, false, ◌&&◌, not, leb,
  nat_beq, if◌then◌else◌, length,
}

pub record BlockQueue {ℓ} (A : Type ℓ) : Type ℓ where
  pub m_queue : List A
  pub m_max_size : ℕ
  pub m_is_close : Bool

-- What a call does to the condition variable.
pub data Signal : Type 0 where
  quiet : Signal
  notify_one : Signal
  notify_all : Signal

-- How a pop ends its turn: it returns true with an item, or false, or it sleeps on the condition.
pub data Popped {ℓ} (A : Type ℓ) : Type ℓ where
  item : A → Popped A
  refused : Popped A
  sleeps : Popped A

module _ {ℓ} {A : Type ℓ} where
  -- BlockQueue(max_size): `none` is exit(-1), for a size that is not positive.
  unfoldable pub new : ℕ → Option (BlockQueue A)
  new max_size =
      if nat_beq max_size 0
      then none
      else some (record { m_queue = []; m_max_size = max_size; m_is_close = false })

  unfoldable pub clear : BlockQueue A → BlockQueue A
  clear q = record q { m_queue = [] }

  unfoldable pub full : BlockQueue A → Bool
  full q = leb q.m_max_size (length q.m_queue)

  unfoldable pub empty : BlockQueue A → Bool
  empty q = nat_beq (length q.m_queue) 0

  unfoldable pub first : List A → Option A
  first [] = none
  first (x ∷ xs) = some x

  unfoldable pub last : List A → Option A
  last [] = none
  last (x ∷ []) = some x
  last (x ∷ y ∷ xs) = last (y ∷ xs)

  -- `none` is the result false.
  unfoldable pub front : BlockQueue A → Option A
  unfolding first
  front q = first q.m_queue

  unfoldable pub back : BlockQueue A → Option A
  unfolding last
  back q = last q.m_queue

  unfoldable pub push : A → BlockQueue A → (Bool × Signal) × BlockQueue A
  push value q =
      if leb q.m_max_size (length q.m_queue)
      then ((false, notify_all), q)
      else ((true, notify_one), record q { m_queue = q.m_queue ++ value ∷ [] })

  -- pop(item), from its start or from a wake-up, to its return or its next wait.
  unfoldable pub pop : BlockQueue A → Popped A × BlockQueue A
  pop q = elim q.m_queue [
    | [] ↦ (if q.m_is_close then refused else sleeps, q)
    | x ∷ rest ↦ (item x, record q { m_queue = rest })
  ]

  -- pop(item, ms_timeout) from the end of its wait, or at once; whether the wait timed out.
  unfoldable pub pop_for_end : Bool → BlockQueue A → Popped A × BlockQueue A
  pop_for_end timed_out q =
      if timed_out
      then (refused, q)
      else if q.m_is_close
      then (refused, q)
      else (elim q.m_queue [ [] ↦ (refused, q) | x ∷ rest ↦ (item x, record q { m_queue = rest }) ])

  -- pop(item, ms_timeout) up to its wait.
  unfoldable pub pop_for_begin : BlockQueue A → Popped A × BlockQueue A
  unfolding pop_for_end
  pop_for_begin q =
      if leb (length q.m_queue) 0 && not q.m_is_close then (sleeps, q) else pop_for_end false q

  unfoldable pub close : BlockQueue A → Signal × BlockQueue A
  close q = (notify_all, record q { m_queue = []; m_is_close = true })
