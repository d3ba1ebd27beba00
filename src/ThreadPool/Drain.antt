-- ===== src/ThreadPool/Drain.antt =====
-- src/include/ThreadPool.h: which tasks have been run, under any interleaving.
use mathlib.Core.Bool
use mprpc_advanced_z.Base.{
  ℕ, ◌+◌, ◌<◌, ◌≡◌, refl, sym, subst, ap, ◌∙◌, List, [], ◌∷◌, ◌++◌, some, true, false, append-nil,
  append_assoc, arith, Bool-cases, inl, inr,
}
use mprpc_advanced_z.ThreadPool.{ThreadPool, sleeps, runs, exits, new, work, enqueue, shut_down}

-- The pool, the tasks that enqueue has accepted, those that workers have taken, both in order, and
-- the workers that have returned.
pub record System {ℓ} (A : Type ℓ) : Type ℓ where
  pub pool : ThreadPool A
  pub accepted : List A
  pub started : List A
  pub exited : ℕ

module _ {ℓ} {A : Type ℓ} where
  unfoldable pub start : System A
  start = record { pool = new; accepted = []; started = []; exited = 0 }

  pub data Step (s t : System A) : Type ℓ where
    enqueues :
        (task : A) (p : ThreadPool A)
        → enqueue task s.pool ≡ some p
        → t ≡ record s { pool = p; accepted = s.accepted ++ task ∷ [] }
        → Step s t
    takes :
        (task : A) (p : ThreadPool A)
        → work s.pool ≡ (runs task, p)
        → t ≡ record s { pool = p; started = s.started ++ task ∷ [] }
        → Step s t
    leaves :
        (p : ThreadPool A)
        → work s.pool ≡ (exits, p)
        → t ≡ record s { pool = p; exited = s.exited + 1 }
        → Step s t
    waits : (p : ThreadPool A) → work s.pool ≡ (sleeps, p) → t ≡ record s { pool = p } → Step s t
    stops : t ≡ record s { pool = shut_down s.pool } → Step s t

  pub data Reach (s : System A) : System A → Type ℓ where
    here : Reach s s
    next : {t u : System A} → Reach s t → Step t u → Reach s u

  -- What has been accepted has been taken or waits, in order; a worker has left only a stopped pool
  -- with nothing to do.
  pub record IsFair (s : System A) : Type ℓ where
    pub order : s.accepted ≡ s.started ++ s.pool.tasks
    pub idle : 0 < s.exited → s.pool.tasks ≡ []
    pub over : 0 < s.exited → s.pool.stop ≡ true

  work-runs :
      (p q : ThreadPool A) (task : A)
      → work p ≡ (runs task, q)
      → (p.tasks ≡ task ∷ q.tasks) × (q.stop ≡ p.stop)
  unfolding work
  work-runs p q task e = ground arith

  work-exits :
      (p q : ThreadPool A) → work p ≡ (exits, q) → (p ≡ q) × (p.tasks ≡ []) × (p.stop ≡ true)
  unfolding work
  work-exits p q e = ground arith

  work-sleeps : (p q : ThreadPool A) → work p ≡ (sleeps, q) → p ≡ q
  unfolding work
  work-sleeps p q e = ground arith

  enqueue-some :
      (task : A) (p q : ThreadPool A)
      → enqueue task p ≡ some q
      → (q.tasks ≡ p.tasks ++ task ∷ []) × (p.stop ≡ false) × (q.stop ≡ false)
  unfolding enqueue
  enqueue-some task p q e = elim (Bool-cases p.stop) [
    | inl stopped ↦ absurd (ground (arith, stopped, e))
    | inr open' ↦ ground (arith, open', e)
  ]

  start-IsFair : IsFair start
  unfolding start new
  start-IsFair = record { order = refl; idle = λ h. refl; over = λ h. absurd (omega arith) }

  Step-IsFair : {s t : System A} → IsFair s → Step s t → IsFair t
  Step-IsFair {s} {t} v (Step.enqueues task p q e) =
      let (added, open', still) = enqueue-some task s.pool p q in
      let none_left : 0 < s.exited → ⊥ = λ h. Bool.true≢false (sym (v.over h) ∙ open') in
      subst IsFair (sym e) record {
        order =
            ap (λ xs. xs ++ task ∷ []) v.order
            ∙ append_assoc s.started s.pool.tasks (task ∷ [])
            ∙ ap (◌++◌ s.started) (sym added);
        idle = λ h. absurd (none_left h);
        over = λ h. absurd (none_left h);
      }
  Step-IsFair {s} {t} v (Step.takes task p q e) =
      let (front, same) = work-runs s.pool p task q in
      subst IsFair (sym e) record {
        order =
            v.order ∙ ap (◌++◌ s.started) front ∙ sym (append_assoc s.started (task ∷ []) p.tasks);
        idle = λ h. absurd (cc (front, v.idle h));
        over = λ h. same ∙ v.over h;
      }
  Step-IsFair {s} {t} v (Step.leaves p q e) =
      let (same, nothing, stopped) = work-exits s.pool p q in
      subst IsFair (sym e) record {
        order = v.order ∙ ap (λ (r : ThreadPool A). s.started ++ r.tasks) same;
        idle = λ h. ap (λ (r : ThreadPool A). r.tasks) (sym same) ∙ nothing;
        over = λ h. ap (λ (r : ThreadPool A). r.stop) (sym same) ∙ stopped;
      }
  Step-IsFair {s} {t} v (Step.waits p q e) =
      let same = work-sleeps s.pool p q in
      subst IsFair (sym (e ∙ ap (λ (r : ThreadPool A). record s { pool = r }) (sym same))) v
  Step-IsFair {s} {t} v (Step.stops e) = subst IsFair (sym e) record {
    order = unfold shut_down in v.order;
    idle = unfold shut_down in v.idle;
    over = λ h. unfold shut_down in refl;
  }

  Reach-IsFair : {s t : System A} → IsFair s → Reach s t → IsFair t
  Reach-IsFair v Reach.here = v
  Reach-IsFair v (Reach.next r st) = Step-IsFair (Reach-IsFair v r) st

  -- Under every interleaving the workers take the accepted tasks in order, none lost and none twice;
  -- and once a worker has returned, every task that was ever accepted has been taken.
  pub Reach-start-IsFair :
      (s : System A)
      → Reach start s
      → (s.accepted ≡ s.started ++ s.pool.tasks) × (0 < s.exited → s.accepted ≡ s.started)
  Reach-start-IsFair s r =
      let v = Reach-IsFair start-IsFair r in
      (v.order, λ h. v.order ∙ ap (◌++◌ s.started) (v.idle h) ∙ append-nil s.started)
