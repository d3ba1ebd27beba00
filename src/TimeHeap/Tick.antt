-- ===== src/TimeHeap/Tick.antt =====
-- tick of src/include/lst_timer.h: every timer that has expired leaves the heap, and the callbacks
-- that have not been emptied run.
use mathlib.Core.HLevel.{⊥_prop}
use mathlib.Core.Logic.Or
use mathlib.Core.List.{Perm, Mem, mem-cons, not-mem-nil}
use mathlib.Core.List.Perm
use mprpc_advanced_z.Base.{
  ℕ, zero, suc, ◌+◌, ◌≤◌, ◌<◌, ◌≡◌, ◌≢◌, refl, ap, sym, ◌∙◌, List, [], ◌∷◌, ◌++◌, none, some, false,
  ltb, nat_beq, if◌then◌else◌, arith, Bool-cases, Option-cases, inl, inr, ltb→lt, ltb→le,
}
use mprpc_advanced_z.TimeHeap.{Timer, Memory, State, put, free, tick_loop, tick}
use mprpc_advanced_z.TimeHeap.Slots.{at, key, load-at, IsLive-cases}
use mprpc_advanced_z.TimeHeap.Insert.{active, IsHeap}
use mprpc_advanced_z.TimeHeap.Slots.{IsLive-at, none-ne-some, put_self, put-other}
use mprpc_advanced_z.TimeHeap.Expiry.{pop_timer_correct, root_least}

-- The timers that a tick takes out, each with its pointer, in order.
abbrev pub pointers : List (ℕ × Timer) → List ℕ
pointers [] = []
pointers ((p, t) ∷ xs) = p ∷ pointers xs

-- The clients whose timer still had its callback.
abbrev pub kicks : List (ℕ × Timer) → List ℕ
kicks [] = []
kicks ((p, t) ∷ xs) = if t.cb_func then t.user_data ∷ kicks xs else kicks xs

-- They were live timers that had expired.
abbrev pub AllExpired : ℕ → Memory → List (ℕ × Timer) → Type 0
AllExpired cur mem [] = Unit {0}
AllExpired cur mem ((p, t) ∷ xs) = (mem p ≡ some t) × (t.expire ≤ cur) × AllExpired cur mem xs

-- What a tick at the time `cur` makes of a heap.
pub record Ticked (cur : ℕ) (s s' : State) (kicked : List ℕ) (gone : List (ℕ × Timer))
    : Type 0 where
  pub heap : IsHeap s'
  pub split : Perm (pointers gone ++ active s') (active s)
  pub expired : AllExpired cur s.memory gone
  pub fresh : (c : ℕ) → c < s'.heap.cur_size → cur < key s'.memory (at s'.heap.array c)
  pub called : kicked ≡ kicks gone
  pub only_freed : (p : ℕ) (t : Timer) → s'.memory p ≡ some t → s.memory p ≡ some t
  pub freed : (p : ℕ) → Mem p (pointers gone) → s'.memory p ≡ none
  pub clients : s'.client_timer ≡ s.client_timer

free-only : (r p : ℕ) (mem : Memory) (t : Timer) → free r mem p ≡ some t → mem p ≡ some t
unfolding free
free-only zero p mem t e = e
free-only (suc r) p mem t e = elim (Bool-cases (nat_beq (suc r) p)) [
  | inl f ↦
      let same : suc r ≡ p = ground arith in
      absurd (none-ne-some t (sym (put_self (suc r) none mem) ∙ ap (put (suc r) none mem) same ∙ e))
  | inr f ↦ let differs : suc r ≢ p = ground arith in sym (put-other (suc r) p none mem differs) ∙ e
]

AllExpired-before :
    (cur : ℕ) (mem mem' : Memory) (xs : List (ℕ × Timer))
    → ((p : ℕ) (t : Timer) → mem' p ≡ some t → mem p ≡ some t)
    → AllExpired cur mem' xs
    → AllExpired cur mem xs
AllExpired-before cur mem mem' [] h a = tt
AllExpired-before cur mem mem' ((p, t) ∷ xs) h a =
    (h p t a.0, a.1, AllExpired-before cur mem mem' xs h a.2)

live-nonnull :
    (mem : Memory) (p : ℕ) (t : Timer) → mem 0 ≡ none → mem p ≡ some t → nat_beq p 0 ≡ false
live-nonnull mem p t z e =
    let apart : p ≢ 0 = λ h. none-ne-some t (sym z ∙ ap mem (sym h) ∙ e) in ground arith

stays :
    (cur : ℕ) (s : State)
    → IsHeap s
    → ((c : ℕ) → c < s.heap.cur_size → cur < key s.memory (at s.heap.array c))
    → Ticked cur s s [] []
stays cur s v f = record {
  heap = v;
  split = Perm.rfl;
  expired = tt;
  fresh = f;
  called = refl;
  only_freed = λ p t e. e;
  freed = λ p m. absurd (not-mem-nil m);
  clients = refl;
}

-- A pointer that has been freed is not made again.
freed-more :
    (root : ℕ) (gone : List (ℕ × Timer)) (mem mem' : Memory)
    → mem root ≡ none
    → ((p : ℕ) (t : Timer) → mem' p ≡ some t → mem p ≡ some t)
    → ((p : ℕ) → Mem p (pointers gone) → mem' p ≡ none)
    → (p : ℕ) → Mem p (root ∷ pointers gone)
    → mem' p ≡ none
freed-more root gone mem mem' out only rest p m = elim (Option-cases (mem' p)) [
  | inl e ↦ e
  | inr (t, e) ↦ absurd (
      Or.elim ⊥_prop (mem-cons.0 m) (λ g. none-ne-some t (sym out ∙ (ap mem (sym g) ∙ only p t e)))
        (λ m'. none-ne-some t (sym (rest p m') ∙ e)))
]

pub free-gone : (p : ℕ) (mem : Memory) → mem 0 ≡ none → free p mem p ≡ none
unfolding free
free-gone zero mem z = z
free-gone (suc p) mem z = put_self (suc p) none mem

-- With fuel for the entries in use the loop ends.
tick_loop_ticks :
    (fuel cur tmp : ℕ) (s : State)
    → s.heap.cur_size < fuel
    → tmp ≡ at s.heap.array 0
    → IsHeap s
    → (s' : State) × (kicked : List ℕ) × (gone : List (ℕ × Timer)) × (tick_loop fuel cur tmp s
        ≡ some (s', kicked))
      × Ticked cur s s' kicked gone
unfolding tick_loop
tick_loop_ticks zero cur tmp s f e v = absurd (omega arith)
tick_loop_ticks (suc fuel) cur tmp s f e v = elim (Bool-cases (nat_beq s.heap.cur_size 0)) [
  | inl g ↦
      let none_used : s.heap.cur_size ≡ 0 = ground arith in
      (s, [], [], rw g refl, stays cur s v (λ c h. absurd (omega arith)))
  | inr g ↦
      let used : 0 < s.heap.cur_size = ground arith in
      let root = at s.heap.array 0 in
      let (t, there) = IsLive-cases s.memory root (v.live 0 used) in
      let top : nat_beq tmp 0 ≡ false =
        live-nonnull s.memory tmp t v.null (ap s.memory e ∙ there) in
      let found : s.memory tmp ≡ some t = ap s.memory e ∙ there in
      elim (Bool-cases (ltb cur t.expire)) [
        | inl h ↦ (
          s,
          [],
          [],
          rw (g, top, found, h) refl,
          stays cur s v (λ c i. omega (
            arith,
            ltb→lt cur t.expire h,
            (IsLive-at s.memory root t there).1,
            root_least (suc c) s.heap.cur_size s.memory s.heap.array c (omega arith) i v.ordered,
          )),
        )
        | inr h ↦
            let (s1, pop, p) = pop_timer_correct s v used in
            let (s', kicked, gone, run, k) =
              tick_loop_ticks fuel cur (at s1.heap.array 0) s1 (omega (arith, p.smaller)) refl
                p.heap in
            let only = λ (q : ℕ) (u : Timer) (i : s1.memory q ≡ some u).
              free-only root q s.memory u (sym (ap (λ (m : Memory). m q) p.freed) ∙ i) in
            (
              s',
              (if t.cb_func then t.user_data ∷ kicked else kicked),
              (root, t) ∷ gone,
              rw
                  (
                    g,
                    top,
                    found,
                    h,
                    load-at s.heap.array 0 (omega (arith, v.size, v.positive)),
                    there,
                    pop,
                    load-at s1.heap.array 0 (omega (arith, p.heap.size, p.heap.positive)),
                    run,
                  )
                  refl,
              record {
                heap = k.heap;
                split = Perm.trans (Perm.cons root k.split) p.same;
                expired = (
                  there,
                  ltb→le _ _ h,
                  AllExpired-before cur s.memory s1.memory gone only k.expired,
                );
                fresh = k.fresh;
                called = ap (λ ks. if t.cb_func then t.user_data ∷ ks else ks) k.called;
                only_freed = λ q u i. only q u (k.only_freed q u i);
                freed =
                    freed-more root gone s1.memory s'.memory
                      (ap (λ (m : Memory). m root) p.freed ∙ free-gone root s.memory v.null)
                      k.only_freed k.freed;
                clients = k.clients ∙ p.clients;
              },
            )
      ]
]

-- tick ends, goes through no dangling pointer, and takes out exactly the timers that have expired:
-- those that it takes out were live and expired by `cur`, those that it leaves expire later, the two
-- together are the timers that were in the heap, and the callbacks that run are those of the timers
-- taken out that still had one, in order. No timer outside the heap changes but by being freed.
pub tick_correct :
    (cur : ℕ) (s : State)
    → IsHeap s
    → (s' : State) × (kicked : List ℕ) × (gone : List (ℕ × Timer)) × (tick cur s
        ≡ some (s', kicked))
      × Ticked cur s s' kicked gone
unfolding tick
tick_correct cur s v =
    let (s', kicked, gone, run, k) =
      tick_loop_ticks (s.heap.cur_size + 1) cur (at s.heap.array 0) s (omega arith) refl v in
    (s', kicked, gone, rw (load-at s.heap.array 0 (omega (arith, v.size, v.positive))) run, k)
