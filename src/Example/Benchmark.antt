-- ===== src/Example/Benchmark.antt =====
-- example/caller/calluserservice.cc: the load test, which sends its logins from a pool of
-- threads and waits on a condition variable until each of their closures has run.
pub mod Waiting
use mprpc_advanced_z.Base.{
  ℕ, zero, suc, ◌+◌, ◌++◌, Bool, true, false, nat_beq, ◌&&◌, not, if◌then◌else◌, ◌≡◌, ◌≢◌,
}
use mprpc_advanced_z.Base.Bytes.{Bytes, codes}
use mprpc_advanced_z.Base.Decimal.{to_string}
use mprpc_advanced_z.Controller.{Controller, failed}
use mprpc_advanced_z.Example.{LoginRequest, LoginResponse}

-- The request of the i-th task.
unfoldable pub nth_request : ℕ → LoginRequest
unfolding to_string
nth_request i = record { name = codes "user_" ++ to_string i; pwd = codes "123456" }

-- The main thread: before its test of the counter under the mutex, behind a test that was false and
-- still in front of the sleep, asleep, and behind the wait.
pub data Main : Type 0 where
  tests : Main
  lays_down : Main
  sleeps : Main
  prints : Main

-- `pending` calls have neither begun their closure nor given up, `lost` have given up before their task,
-- `counting` have tested their result and counted it, and not yet themselves; `notifying` says that a
-- closure has counted the last call and has not called notify_one yet.
pub record Bench : Type 0 where
  pub pending : ℕ
  pub lost : ℕ
  pub counting : ℕ
  pub success_count : ℕ
  pub completed_count : ℕ
  pub notifying : Bool
  pub main : Main

unfoldable pub begin : ℕ → Bench
begin total_requests = record {
  pending = total_requests;
  lost = 0;
  counting = 0;
  success_count = 0;
  completed_count = 0;
  notifying = false;
  main = tests;
}

-- The condition of the closure.
unfoldable pub succeeded : Controller → LoginResponse → Bool
unfolding failed
succeeded controller response = not (failed controller) && nat_beq response.result.errcode 0

-- The closure up to `success_count++`, with what is left of it counted.
unfoldable pub judge : Controller → LoginResponse → Bench → Bench
unfolding succeeded
judge controller response b = record b {
  success_count = if succeeded controller response then b.success_count + 1 else b.success_count;
  counting = b.counting + 1;
}

module _ (total_requests : ℕ) where
  -- `++completed_count`, and the test of whether the call is the last. notify_one is called without the
  -- mutex.
  unfoldable pub complete : Bench → Bench
  complete b =
      let completed = b.completed_count + 1 in
      record b {
        completed_count = completed;
        notifying = if nat_beq completed total_requests then true else b.notifying;
      }

  -- cv.notify_one()
  unfoldable pub notify : Bench → Bench
  notify b = record b {
    notifying = false;
    main = elim b.main [ sleeps ↦ tests | tests ↦ tests | lays_down ↦ lays_down | prints ↦ prints ];
  }

  -- The test of cv.wait.
  unfoldable pub test : Bench → Bench
  test b = record b {
    main = if nat_beq b.completed_count total_requests then prints else lays_down;
  }

  -- The steps of the threads, in any order; a wait may end for no reason.
  pub data Step (b c : Bench) : Type 0 where
    judges :
        (n : ℕ) (controller : Controller) (response : LoginResponse)
        → b.pending ≡ suc n
        → c ≡ judge controller response (record b { pending = n })
        → Step b c
    completes : (n : ℕ) → b.counting ≡ suc n → c ≡ complete (record b { counting = n }) → Step b c
    gives_up :
        (n : ℕ) → b.pending ≡ suc n → c ≡ record b { pending = n; lost = b.lost + 1 } → Step b c
    notifies : b.notifying ≡ true → c ≡ notify b → Step b c
    main_tests : b.main ≡ tests → c ≡ test b → Step b c
    main_sleeps : b.main ≡ lays_down → c ≡ record b { main = sleeps } → Step b c
    main_stirs : b.main ≡ sleeps → c ≡ record b { main = tests } → Step b c

  pub data Reach (b : Bench) : Bench → Type 0 where
    here : Reach b b
    next : {c d : Bench} → Reach b c → Step c d → Reach b d
