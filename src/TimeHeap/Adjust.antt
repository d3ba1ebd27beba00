-- ===== src/TimeHeap/Adjust.antt =====
-- del_timer and adjust_timer of src/include/lst_timer.h: timers that lose their callback stay in the
-- heap.
use mathlib.Core.HLevel.{⊥_prop}
use mathlib.Core.Logic.Or
use mathlib.Core.List.{Perm, Mem, mem-cons, not-mem-nil}
use mprpc_advanced_z.Base.{
  ℕ, zero, suc, ◌+◌, ◌*◌, ◌<◌, ◌≡◌, ◌≢◌, refl, ap, sym, ◌∙◌, List, [], ◌∷◌, none, some, false,
  nat_beq, if◌then◌else◌, length, arith, length-take, get_or-take, Bool-cases, inl, inr,
}
use mprpc_advanced_z.TimeHeap.{Timer, Memory, State, put, parent, del_timer, adjust_timer, >>=-some}
use mprpc_advanced_z.TimeHeap.Slots.{at, key, IsLive, IsLive-cases}
use mprpc_advanced_z.TimeHeap.Slots.{put_self, put-other, IsLive-at, none-ne-some}
use mprpc_advanced_z.TimeHeap.Insert.{active, IsHeap, add_timer_correct}

-- Another memory in which the live timers are live with the times that they had.
pub record Extends (mem mem' : Memory) : Type 0 where
  kept : (p : ℕ) → IsLive mem p → IsLive mem' p × (key mem' p ≡ key mem p)
  null : mem' 0 ≡ none

pub IsHeap-memory :
    (s : State) (mem : Memory) (clients : ℕ → ℕ)
    → IsHeap s
    → Extends s.memory mem
    → IsHeap (record s { memory = mem; client_timer = clients })
IsHeap-memory s mem clients v x =
    let h = s.heap in
    record {
      fits = v.fits;
      size = v.size;
      positive = v.positive;
      ordered = λ c p q.
          let up = x.kept (at h.array (parent c)) (v.live (parent c) (omega arith)) in
          let down = x.kept (at h.array c) (v.live c q) in
          omega (arith, v.ordered c p q, up.1, down.1);
      live = λ c q. (x.kept (at h.array c) (v.live c q)).0;
      distinct = v.distinct;
      null = x.null;
    }

put-Extends :
    (mem : Memory) (p : ℕ) (t u : Timer)
    → mem p ≡ some t
    → mem 0 ≡ none
    → u.expire ≡ t.expire
    → Extends mem (put p (some u) mem)
put-Extends mem p t u e z f = record {
  kept = λ q l. elim (Bool-cases (nat_beq p q)) [
    | inl g ↦
        let same : q ≡ p = ground arith in
        let new : put p (some u) mem q ≡ some u = rw g refl in
        let (live, time) = IsLive-at (put p (some u) mem) q u new in
        (live, omega (arith, time, f, (IsLive-at mem q t (ap mem same ∙ e)).1))
    | inr g ↦
        let differs : p ≢ q = ground arith in
        let old = put-other p q (some u) mem differs in
        let (t', there) = IsLive-cases mem q l in
        let (live, time) = IsLive-at (put p (some u) mem) q t' (old ∙ there) in
        (live, omega (arith, time, (IsLive-at mem q t' there).1))
  ];
  null = put-other p 0 (some u) mem (λ g. none-ne-some t (sym z ∙ ap mem (sym g) ∙ e)) ∙ z;
}

pub put-fresh-Extends :
    (mem : Memory) (p : ℕ) (u : Timer)
    → mem p ≡ none
    → p ≢ 0
    → mem 0 ≡ none
    → Extends mem (put p (some u) mem)
put-fresh-Extends mem p u e z n = record {
  kept = λ q l.
      let (t', there) = IsLive-cases mem q l in
      let differs : p ≢ q = λ g. none-ne-some t' (sym e ∙ ap mem g ∙ there) in
      let old = put-other p q (some u) mem differs in
      let (live, time) = IsLive-at (put p (some u) mem) q t' (old ∙ there) in
      (live, omega (arith, time, (IsLive-at mem q t' there).1));
  null = put-other p 0 (some u) mem z ∙ n;
}

-- del_timer keeps the heap as it is and empties the timer's callback, of no other timer.
pub del_timer_correct :
    (s : State) (timer : ℕ) (t : Timer)
    → IsHeap s
    → s.memory timer ≡ some t
    → (s' : State) × (del_timer timer s ≡ some s')
      × IsHeap s'
      × (s'.heap ≡ s.heap)
      × (s'.memory timer ≡ some (record t { cb_func = false }))
      × ((q : ℕ) → timer ≢ q → s'.memory q ≡ s.memory q)
      × (s'.client_timer ≡ s.client_timer)
unfolding del_timer
del_timer_correct s zero t v e = absurd (none-ne-some t (sym v.null ∙ e))
del_timer_correct s (suc p) t v e =
    let emptied : Timer = record t { cb_func = false } in
    let mem = put (suc p) (some emptied) s.memory in
    (
      record s { memory = mem },
      rw e refl,
      IsHeap-memory s mem s.client_timer v (put-Extends s.memory (suc p) t emptied e v.null refl),
      refl,
      put_self (suc p) (some emptied) s.memory,
      λ q h. put-other (suc p) q (some emptied) s.memory h,
      refl,
    )

pub not-mem-at : (xs : List ℕ) (p : ℕ) → ((c : ℕ) → c < length xs → at xs c ≢ p) → ¬ Mem p xs
not-mem-at [] p h m = not-mem-nil m
not-mem-at (x ∷ xs) p h m =
    Or.elim ⊥_prop (mem-cons.0 m) (λ e. h 0 (omega arith) (sym e))
      (not-mem-at xs p (λ c q. h (suc c) (omega arith)))

-- A pointer that leads nowhere is in no slot in use.
pub fresh-not-mem : (s : State) (p : ℕ) → IsHeap s → s.memory p ≡ none → ¬ Mem p (active s)
fresh-not-mem s p v e = not-mem-at (active s) p λ c q g.
    let n = s.heap.cur_size in
    let inside : c < n = omega (arith, length-take n s.heap.array) in
    let (t, there) = IsLive-cases s.memory (at s.heap.array c) (v.live c inside) in
    let same : at s.heap.array c ≡ p = sym (get_or-take n s.heap.array c 0 inside) ∙ g in
    none-ne-some t (sym e ∙ ap s.memory (sym same) ∙ there)

-- adjust_timer leaves the old timer in the heap without its callback, and puts a new one in, which
-- takes over the client and the callback and expires 15 seconds from now; the client's own pointer
-- leads to the new timer. No other timer and no other client's pointer changes. `fresh` is the
-- address of the allocation, which is not NULL and leads to no live timer before.
pub adjust_timer_correct :
    (s : State) (timer fresh now : ℕ) (t : Timer)
    → IsHeap s
    → s.memory timer ≡ some t
    → fresh ≢ 0
    → s.memory fresh ≡ none
    → (s' : State) × (adjust_timer fresh now timer s ≡ some s')
      × IsHeap s'
      × Perm (active s') (fresh ∷ active s)
      × (s'.memory timer ≡ some (record t { cb_func = false }))
      × (s'.memory fresh ≡ some (record t { expire = now + 15 }))
      × (s'.client_timer t.user_data ≡ fresh)
      × ((q : ℕ) → timer ≢ q → fresh ≢ q → s'.memory q ≡ s.memory q)
      × ((c : ℕ) → t.user_data ≢ c → s'.client_timer c ≡ s.client_timer c)
unfolding adjust_timer
adjust_timer_correct s zero fresh now t v e z f = absurd (none-ne-some t (sym v.null ∙ e))
adjust_timer_correct s (suc p) fresh now t v e z f =
    let emptied : Timer = record t { cb_func = false } in
    let new : Timer = record t { expire = now + 3 * 5 } in
    let mem = put (suc p) (some emptied) s.memory in
    let mem' = put fresh (some new) mem in
    let clients = λ (c : ℕ). if nat_beq t.user_data c then fresh else s.client_timer c in
    let differs : suc p ≢ fresh = λ g. none-ne-some t (sym f ∙ ap s.memory (sym g) ∙ e) in
    let free : mem fresh ≡ none = put-other (suc p) fresh (some emptied) s.memory differs ∙ f in
    let first = put-Extends s.memory (suc p) t emptied e v.null refl in
    let mid = IsHeap-memory s mem s.client_timer v first in
    let both =
      IsHeap-memory (record s { memory = mem }) mem' clients mid
        (put-fresh-Extends mem fresh new free z first.null) in
    let there = put_self fresh (some new) mem in
    let self : clients t.user_data ≡ fresh = ground arith in
    let (s', run, heap, added, m, c) =
      add_timer_correct (record s { memory = mem'; client_timer = clients }) fresh both z
        (IsLive-at mem' fresh new there).0
        (fresh-not-mem (record s { memory = mem }) fresh mid free) in
    (
      s',
      >>=-some _ e run,
      heap,
      added,
      ap (λ (k : Memory). k (suc p)) m
          ∙ put-other fresh (suc p) (some new) mem (λ g. differs (sym g))
          ∙ put_self (suc p) (some emptied) s.memory,
      ap (λ (k : Memory). k fresh) m ∙ there,
      ap (λ (k : ℕ → ℕ). k t.user_data) c ∙ self,
      λ q old young.
          ap (λ (k : Memory). k q) m
          ∙ put-other fresh q (some new) mem young
          ∙ put-other (suc p) q (some emptied) s.memory old,
      λ d other.
          let apart : nat_beq t.user_data d ≡ false = ground arith in
          ap (λ (k : ℕ → ℕ). k d) c ∙ rw apart refl,
    )
