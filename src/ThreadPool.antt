-- ===== src/ThreadPool.antt =====
-- src/include/ThreadPool.h: the queue of tasks and the workers. Each function is what one thread does
-- between taking the mutex and giving it up.
pub mod Drain
use mprpc_advanced_z.Base.{
  ℕ, ◌+◌, ◌≡◌, List, [], ◌∷◌, ◌++◌, Option, none, some, Bool, true, false, if◌then◌else◌,
}

pub record ThreadPool {ℓ} (A : Type ℓ) : Type ℓ where
  pub tasks : List A
  pub stop : Bool

-- How a worker's turn ends: asleep on the condition, with a task to run, or returned.
pub data Turn {ℓ} (A : Type ℓ) : Type ℓ where
  sleeps : Turn A
  runs : A → Turn A
  exits : Turn A

module _ {ℓ} {A : Type ℓ} where
  -- ThreadPool(threads), whose workers then take their turns.
  unfoldable pub new : ThreadPool A
  new = record { tasks = []; stop = false }

  -- A worker, from the wait or a wake-up of it.
  unfoldable pub work : ThreadPool A → Turn A × ThreadPool A
  work p = elim p.tasks [
    | [] ↦ (if p.stop then exits else sleeps, p)
    | task ∷ rest ↦ (runs task, record p { tasks = rest })
  ]

  -- enqueue: `none` is the std::runtime_error of a stopped pool.
  unfoldable pub enqueue : A → ThreadPool A → Option (ThreadPool A)
  enqueue task p = if p.stop then none else some (record p { tasks = p.tasks ++ task ∷ [] })

  -- ~ThreadPool up to the joins.
  unfoldable pub shut_down : ThreadPool A → ThreadPool A
  shut_down p = record p { stop = true }
