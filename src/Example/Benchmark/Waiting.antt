-- ===== src/Example/Benchmark/Waiting.antt =====
-- example/caller/calluserservice.cc: what the load test has counted when it prints, and that
-- its wake-up can be lost.
use mprpc_advanced_z.Base.{
  ℕ, zero, suc, ◌+◌, ◌≤◌, ◌≡◌, ◌≢◌, refl, sym, subst, true, false, nat_beq, arith, Bool-cases, inl,
  inr, [],
}
use mprpc_advanced_z.Controller.{Controller}
use mprpc_advanced_z.Example.{LoginResponse, empty_response}
use mprpc_advanced_z.Example.Benchmark.{
  Bench, tests, lays_down, sleeps, prints, begin, judge, complete, notify, test, Step, judges,
  completes, gives_up, notifies, main_tests, main_sleeps, main_stirs, Reach, here, next,
}

module _ (total_requests : ℕ) where
  -- The counts of the calls, which no order of the threads upsets.
  pub record IsCounting (b : Bench) : Type 0 where
    pub all : b.pending + b.counting + b.lost + b.completed_count ≡ total_requests
    pub successes : b.success_count ≤ b.completed_count + b.counting
    pub last : b.notifying ≡ true → b.completed_count ≡ total_requests
    pub printing : b.main ≡ prints → b.completed_count ≡ total_requests

  judges-IsCounting :
      (b : Bench) (n : ℕ) (controller : Controller) (response : LoginResponse)
      → b.pending ≡ suc n
      → IsCounting b
      → IsCounting (judge controller response (record b { pending = n }))
  unfolding judge
  judges-IsCounting b n controller response e v = record {
    all = omega (arith, v.all);
    successes = ground (arith, v.successes);
    last = v.last;
    printing = v.printing;
  }

  completes-IsCounting :
      (b : Bench) (n : ℕ)
      → b.counting ≡ suc n
      → IsCounting b
      → IsCounting (complete total_requests (record b { counting = n }))
  unfolding complete
  completes-IsCounting b n e v = record {
    all = omega (arith, v.all);
    successes = omega (arith, v.successes);
    last = λ f. elim (Bool-cases (nat_beq (b.completed_count + 1) total_requests)) [
      | inl g ↦ ground arith
      | inr g ↦ absurd (ground (arith, v.last, v.all))
    ];
    printing = λ f. absurd (omega (arith, v.printing f, v.all));
  }

  Step-IsCounting : (b c : Bench) → Step total_requests b c → IsCounting b → IsCounting c
  unfolding notify test
  Step-IsCounting b c (judges n controller response e f) v =
      subst IsCounting (sym f) (judges-IsCounting b n controller response e v)
  Step-IsCounting b c (completes n e f) v = subst IsCounting (sym f) (completes-IsCounting b n e v)
  Step-IsCounting b c (gives_up n e f) v = subst IsCounting (sym f) record {
    all = omega (arith, v.all);
    successes = v.successes;
    last = v.last;
    printing = v.printing;
  }
  Step-IsCounting b c (notifies e f) v = subst IsCounting (sym f) record {
    all = v.all;
    successes = v.successes;
    last = λ g. absurd (cc g);
    printing = λ g. v.last e;
  }
  Step-IsCounting b c (main_tests e f) v =
      subst IsCounting (sym f)
        record { all = v.all; successes = v.successes; last = v.last; printing = λ g. ground arith }
  Step-IsCounting b c (main_sleeps e f) v =
      subst IsCounting (sym f) record {
        all = v.all;
        successes = v.successes;
        last = v.last;
        printing = λ g. absurd (cc g);
      }
  Step-IsCounting b c (main_stirs e f) v =
      subst IsCounting (sym f) record {
        all = v.all;
        successes = v.successes;
        last = v.last;
        printing = λ g. absurd (cc g);
      }

  -- In every order of the threads each call is still to come, has given up, stands between the two
  -- counters in its closure, or has counted itself exactly once; no more are counted as successful than
  -- have come behind the first counter; and when the main thread prints, all of them have counted
  -- themselves.
  pub Reach-begin-IsCounting :
      (b : Bench) → Reach total_requests (begin total_requests) b → IsCounting b
  unfolding begin
  Reach-begin-IsCounting b here = record {
    all = omega arith;
    successes = omega arith;
    last = λ e. absurd (cc e);
    printing = λ e. absurd (cc e);
  }
  Reach-begin-IsCounting b (next {c = c} r s) = Step-IsCounting c b s (Reach-begin-IsCounting c r)

  -- The main thread has tested the counter and does not sleep yet, while closures run.
  record IsBetween (n : ℕ) (b : Bench) : Type 0 where
    left : b.pending ≡ n
    between : b.counting ≡ 0
    count : n + b.completed_count ≡ total_requests
    due : b.notifying ≡ nat_beq b.completed_count total_requests
    main : b.main ≡ lays_down

  all_complete :
      (n : ℕ) (a b : Bench)
      → Reach total_requests a b
      → IsBetween n b
      → (c : Bench) × Reach total_requests a c × IsBetween 0 c
  unfolding judge complete
  all_complete zero a b r i = (b, r, i)
  all_complete (suc n) a b r i =
      let controller : Controller = record { m_failed = false; m_err_text = [] } in
      let j = judge controller empty_response (record b { pending = n }) in
      let c = complete total_requests (record j { counting = 0 }) in
      let r' = next r (judges n controller empty_response i.left refl) in
      all_complete n a c (next r' (completes 0 (omega (arith, i.between)) refl)) record {
        left = refl;
        between = refl;
        count = omega (arith, i.count);
        due = ground (arith, i.due, i.count);
        main = i.main;
      }

  silent :
      (b : Bench)
      → b.pending ≡ 0
      → b.counting ≡ 0
      → b.notifying ≡ false
      → b.main ≡ sleeps
      → (c : Bench) → Step total_requests b c
      → c ≡ record b { main = tests }
  silent b p k f m c (judges n controller response e g) = absurd (omega arith)
  silent b p k f m c (completes n e g) = absurd (omega arith)
  silent b p k f m c (gives_up n e g) = absurd (omega arith)
  silent b p k f m c (notifies e g) = cc
  silent b p k f m c (main_tests e g) = cc
  silent b p k f m c (main_sleeps e g) = cc
  silent b p k f m c (main_stirs e g) = g

  -- With any number of calls but 0, there is an order in which every closure has run to its end and
  -- the main thread sleeps, with no step left but that its wait ends for no reason: the one wake-up came
  -- between its test and its sleep.
  pub Reach-begin-sleeps :
      total_requests ≢ 0
      → (b : Bench) × Reach total_requests (begin total_requests) b
        × (b.completed_count ≡ total_requests)
        × (b.main ≡ sleeps)
        × ((c : Bench) → Step total_requests b c → c ≡ record b { main = tests })
  unfolding begin test notify
  Reach-begin-sleeps some_call =
      let a = begin total_requests in
      let not_yet : nat_beq 0 total_requests ≡ false = ground (arith, some_call) in
      let b = record a { main = lays_down } in
      let first : b ≡ test total_requests a = rw not_yet refl in
      let (c, r, i) = all_complete total_requests a b (next here (main_tests refl first)) record {
        left = refl;
        between = refl;
        count = omega arith;
        due = sym not_yet;
        main = refl;
      } in
      let counted : c.completed_count ≡ total_requests = omega (arith, i.count) in
      let due : c.notifying ≡ true = ground (arith, i.due) in
      let d = notify total_requests c in
      let awake : d.main ≡ lays_down = ground (arith, i.main) in
      let e = record d { main = sleeps } in
      (
        e,
        next (next r (notifies due refl)) (main_sleeps awake refl),
        counted,
        refl,
        silent e i.left i.between refl refl,
      )
