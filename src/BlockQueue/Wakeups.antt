-- ===== src/BlockQueue/Wakeups.antt =====
-- src/include/block_queue.h: the consumers that sleep in pop(item), under any interleaving of push,
-- pop(item), clear and close. Nobody calls the pop with a time limit, which no code of the repository
-- does: its wait may report a timeout although it has been woken, and the wake-up is then spent.
use mprpc_advanced_z.Base.{
  ℕ, ◌+◌, ◌-◌, ◌≤◌, ◌<◌, ◌≡◌, refl, List, [], ◌∷◌, Bool, true, false, arith, length, length-append,
}
use mprpc_advanced_z.BlockQueue.{
  BlockQueue, Signal, quiet, notify_one, notify_all, Popped, item, refused, sleeps, clear, push,
  pop, close,
}

-- A queue, the consumers asleep in its wait, those woken that have not run yet, and the calls of close that
-- have given up the mutex and not called notify_all yet.
pub record Monitor {ℓ} (A : Type ℓ) : Type ℓ where
  pub queue : BlockQueue A
  pub asleep : ℕ
  pub woken : ℕ
  pub closing : ℕ

module _ {ℓ} {A : Type ℓ} where
  -- std::condition_variable
  unfoldable pub signal : Signal → Monitor A → Monitor A
  signal quiet m = m
  signal notify_one m = record m {
    asleep = m.asleep - 1;
    woken = m.woken + (m.asleep - (m.asleep - 1));
  }
  signal notify_all m = record m { asleep = 0; woken = m.woken + m.asleep }

  -- A consumer's turn: it comes back with a result, or it falls asleep.
  unfoldable pub settle : Popped A × BlockQueue A → Monitor A → Monitor A
  settle (item x, q) m = record m { queue = q }
  settle (refused, q) m = record m { queue = q }
  settle (sleeps, q) m = record m { queue = q; asleep = m.asleep + 1 }

  unfoldable pub produces : A → Monitor A → Monitor A
  unfolding signal
  produces x m = let ((done, s), q) = push x m.queue in signal s (record m { queue = q })

  -- close() up to where it gives up the mutex.
  unfoldable pub shuts : Monitor A → Monitor A
  shuts m = record m { queue = (close m.queue).1; closing = m.closing + 1 }

  -- What is left of close().
  unfoldable pub rouses : Monitor A → Monitor A
  unfolding signal
  rouses m = signal (close m.queue).0 (record m { closing = m.closing - 1 })

  -- The turns: a producer pushes, a consumer calls pop, a woken consumer goes on, a consumer wakes
  -- for no reason, somebody clears the queue, closes it, or goes on in close to notify_all.
  pub data Step (m n : Monitor A) : Type ℓ where
    pushes : (x : A) → n ≡ produces x m → Step m n
    arrives : n ≡ settle (pop m.queue) m → Step m n
    resumes : 0 < m.woken → n ≡ settle (pop m.queue) (record m { woken = m.woken - 1 }) → Step m n
    stirs : 0 < m.asleep → n ≡ record m { asleep = m.asleep - 1; woken = m.woken + 1 } → Step m n
    clears : n ≡ record m { queue = clear m.queue } → Step m n
    closes : n ≡ shuts m → Step m n
    notifies : 0 < m.closing → n ≡ rouses m → Step m n

  pub data Reach (m : Monitor A) : Monitor A → Type ℓ where
    here : Reach m m
    next : {n o : Monitor A} → Reach m n → Step n o → Reach m o

  -- Nobody is forgotten: while a consumer sleeps every item has a woken consumer, and nobody sleeps at
  -- a closed queue, unless the notify_all of a close is still to come.
  pub record IsAwake (m : Monitor A) : Type ℓ where
    pub served : 0 < m.asleep → length m.queue.m_queue ≤ m.woken
    pub ended : m.queue.m_is_close ≡ true → m.closing ≡ 0 → m.asleep ≡ 0

  settle-IsAwake :
      (xs : List A) (n : ℕ) (b : Bool) (m : Monitor A)
      → (0 < m.asleep → length xs ≤ m.woken + 1)
      → (b ≡ true → m.closing ≡ 0 → m.asleep ≡ 0)
      → IsAwake (settle (pop (record { m_queue = xs; m_max_size = n; m_is_close = b })) m)
  unfolding settle pop
  settle-IsAwake [] n true m s e = record { served = λ h. omega arith; ended = e }
  settle-IsAwake [] n false m s e = record { served = λ h. omega arith; ended = λ h k. cc }
  settle-IsAwake (x ∷ xs) n b m s e = record { served = λ h. omega (arith, s h); ended = e }

  produces-IsAwake : (x : A) (m : Monitor A) → IsAwake m → IsAwake (produces x m)
  unfolding produces push
  produces-IsAwake x m v = ground (arith, v.served, v.ended, length-append m.queue.m_queue (x ∷ []))

  shuts-IsAwake : (m : Monitor A) → IsAwake (shuts m)
  unfolding shuts close
  shuts-IsAwake m = record { served = λ h. omega arith; ended = λ h k. absurd (omega arith) }

  rouses-IsAwake : (m : Monitor A) → IsAwake (rouses m)
  unfolding rouses close
  rouses-IsAwake m = record { served = λ h. absurd (omega arith); ended = λ h k. refl }

  Step-IsAwake : {m n : Monitor A} → Step m n → IsAwake m → IsAwake n
  Step-IsAwake {m} (Step.pushes x e) v = rw e (produces-IsAwake x m v)
  Step-IsAwake {m} (Step.arrives e) v = rw e (
      settle-IsAwake m.queue.m_queue m.queue.m_max_size m.queue.m_is_close m
        (λ h. omega (arith, v.served h)) v.ended)
  Step-IsAwake {m} (Step.resumes w e) v = rw e (
      settle-IsAwake m.queue.m_queue m.queue.m_max_size m.queue.m_is_close _
        (λ h. omega (arith, v.served h)) v.ended)
  Step-IsAwake {m} (Step.stirs w e) v = rw e (record {
    served = λ h. omega (arith, v.served w);
    ended = λ h k. omega (arith, v.ended h k);
  })
  Step-IsAwake {m} (Step.clears e) v =
      rw e (unfold clear in record { served = λ h. omega arith; ended = v.ended })
  Step-IsAwake {m} (Step.closes e) v = rw e (shuts-IsAwake m)
  Step-IsAwake {m} (Step.notifies p e) v = rw e (rouses-IsAwake m)

  -- No wake-up of pop(item) is lost, under any interleaving of push, pop(item), clear and close, when
  -- nobody uses the pop with a time limit: while a consumer sleeps there are no more items than woken
  -- consumers, and nobody sleeps at a closed queue, unless a close has not come to its notify_all yet. It
  -- holds from every state of which it holds.
  pub Reach-IsAwake : {m n : Monitor A} → IsAwake m → Reach m n → IsAwake n
  Reach-IsAwake v Reach.here = v
  Reach-IsAwake v (Reach.next r st) = Step-IsAwake st (Reach-IsAwake v r)
