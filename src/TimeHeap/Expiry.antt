-- ===== src/TimeHeap/Expiry.antt =====
-- pop_timer and tick of src/include/lst_timer.h: the timers leave in the order of the heap.
use mathlib.Core.List.{Perm, Nodup, Mem, Nodup-cons, mem-cons_self, mem-cons_of_mem}
use mathlib.Core.List.Perm
use mprpc_advanced_z.Base.{
  ℕ, zero, suc, ◌+◌, ◌-◌, ◌≤◌, ◌<◌, ◌≡◌, ◌≢◌, refl, ap, sym, ◌∙◌, List, [], ◌∷◌, ◌++◌, none, some,
  false, nat_beq, subst, nat_beq, length, set, take, arith, length-set, length-take, take-set,
  take-suc, get_or-take, Bool-cases, inl, inr,
}
use mprpc_advanced_z.TimeHeap.{Memory, State, load, parent, down_loop, free, pop_timer}
use mprpc_advanced_z.TimeHeap.Slots.{
  at, key, IsLive, AllLive, Ordered, load-at, store-at, at-set, set-perm, IsLive-cases,
}
use mprpc_advanced_z.TimeHeap.Down.{DownInv, down_loop_sifts}
use mprpc_advanced_z.TimeHeap.Insert.{active, IsHeap, concat-perm}
use mprpc_advanced_z.TimeHeap.Slots.{IsLive-at, put-other}

-- No timer in use expires before the one at the top.
pub root_least :
    (fuel n : ℕ) (mem : Memory) (a : List ℕ) (c : ℕ)
    → c < fuel
    → c < n
    → Ordered mem n a
    → key mem (at a 0) ≤ key mem (at a c)
root_least zero n mem a c f h o = absurd (omega arith)
root_least (suc fuel) n mem a zero f h o = omega arith
root_least (suc fuel) n mem a (suc c) f h o = omega (
  arith,
  o (suc c) (omega arith) h,
  root_least fuel n mem a (parent (suc c)) (omega arith) (omega arith) o,
)

pub mem-at : (xs : List ℕ) (c : ℕ) → c < length xs → Mem (at xs c) xs
mem-at [] c h = absurd (omega arith)
mem-at (x ∷ xs) zero h = mem-cons_self
mem-at (x ∷ xs) (suc c) h = mem-cons_of_mem x (mem-at xs c (omega arith))

root-ne : (xs : List ℕ) (c : ℕ) → 0 < c → c < length xs → Nodup xs → at xs 0 ≢ at xs c
root-ne [] c p h d = absurd (omega arith)
root-ne (x ∷ xs) zero p h d = absurd (omega arith)
root-ne (x ∷ xs) (suc c) p h d =
    λ e. (Nodup-cons.0 d).0 (subst (λ y. Mem y xs) (sym e) (mem-at xs c (omega arith)))

set-set : (xs : List ℕ) (i u p : ℕ) → set (set xs i u) i p ≡ set xs i p
set-set [] i u p = refl
set-set (x ∷ xs) zero u p = refl
set-set (x ∷ xs) (suc i) u p = ap (◌∷◌ x) (set-set xs i u p)

-- What pop_timer leaves.
pub record Popped (s s' : State) : Type 0 where
  pub heap : IsHeap s'
  pub same : Perm (at s.heap.array 0 ∷ active s') (active s)
  pub smaller : s'.heap.cur_size + 1 ≡ s.heap.cur_size
  pub freed : s'.memory ≡ free (at s.heap.array 0) s.memory
  pub clients : s'.client_timer ≡ s.client_timer

pub free-other : (p q : ℕ) (mem : Memory) → p ≢ q → free p mem q ≡ mem q
unfolding free
free-other zero q mem h = refl
free-other (suc p) q mem h = put-other (suc p) q none mem h

module _ (s : State) (v : IsHeap s) (n : ℕ) (size : s.heap.cur_size ≡ suc n) where
  root : ℕ
  root = at s.heap.array 0

  abbrev rest : Memory
  rest = free root s.memory

  other-IsLive :
      (c : ℕ)
      → 0 < c
      → c < suc n
      → IsLive rest (at s.heap.array c)
        × (key rest (at s.heap.array c) ≡ key s.memory (at s.heap.array c))
  unfolding root
  other-IsLive c p h =
      let a = s.heap.array in
      let m = s.heap.cur_size in
      let front = length-take m a in
      let here = get_or-take m a c 0 (omega arith) in
      let top = get_or-take m a 0 0 (omega arith) in
      let apart = root-ne (active s) c p (omega (arith, v.size, v.fits)) v.distinct in
      let differs : at a 0 ≢ at a c = λ e. apart (top ∙ e ∙ sym here) in
      let (t, there) = IsLive-cases s.memory (at a c) (v.live c (omega arith)) in
      let (live, time) =
        IsLive-at rest (at a c) t (free-other (at a 0) (at a c) s.memory differs ∙ there) in
      (live, omega (arith, time, (IsLive-at s.memory (at a c) t there).1))

  -- The array after the last entry in use has been moved to the top.
  abbrev temp : ℕ
  temp = at s.heap.array n

  start-DownInv : 0 < n → DownInv rest n (set s.heap.array 0 temp) 0 temp
  start-DownInv p =
      let a = s.heap.array in
      let at' = λ (c : ℕ). at-set a 0 c temp (omega (arith, v.size, v.positive)) in
      record {
        inside = p;
        fits = omega (arith, v.fits, v.size, length-set a 0 temp);
        live = λ c q r. ground (arith, at' c, other-IsLive c);
        live_timer = (other-IsLive n p (omega arith)).0;
        edges = λ c q r i j.
            ground (
              arith,
              at' c,
              at' (parent c),
              other-IsLive c,
              other-IsLive (parent c),
              v.ordered c q,
            );
        above = λ q. absurd (omega arith);
        bridged = λ c q r i j. absurd (omega arith);
      }

  start-perm : 0 < n → Perm (root ∷ take n (set s.heap.array 0 temp)) (active s)
  unfolding root
  start-perm p =
      let a = s.heap.array in
      let room : n < length a = omega (arith, v.fits, v.size) in
      let whole : active s ≡ take n a ++ temp ∷ [] =
        ap (λ k. take k a) size ∙ take-suc n a 0 room in
      let traded = set-perm (take n a) 0 temp (omega (arith, length-take n a)) in
      rw (whole, take-set n a 0 temp, ← get_or-take n a 0 0 p)
        (Perm.trans traded (Perm.symm (concat-perm (take n a) temp)))

  free-null : rest 0 ≡ none
  unfolding root free
  free-null = go (at s.heap.array 0)
    where
      go : (p : ℕ) → free p s.memory 0 ≡ none
      go zero = v.null
      go (suc p) = put-other (suc p) 0 none s.memory (omega arith) ∙ v.null

  popped : (b : List ℕ) → State
  popped b = record s { heap = record s.heap { array = b; cur_size = n }; memory = rest }

  popped-Popped :
      (b : List ℕ)
      → length b ≡ length s.heap.array
      → Ordered rest n b
      → AllLive rest n b
      → Perm (root ∷ take n b) (active s)
      → Popped s (popped b)
  unfolding root popped
  popped-Popped b l o live same = record {
    heap = record {
      fits = omega (arith, v.fits);
      size = omega (arith, v.size);
      positive = v.positive;
      ordered = o;
      live = live;
      distinct = (Nodup-cons.0 (Perm.nodup (Perm.symm same) v.distinct)).1;
      null = free-null;
    };
    same = same;
    smaller = omega arith;
    freed = refl;
    clients = refl;
  }

  -- The statements of pop_timer, up to what its loop returns.
  pop_timer-steps :
      (p : ℕ) (b : List ℕ)
      → load (set s.heap.array 0 0) n ≡ some p
      → down_loop (n + 1) rest (set s.heap.array 0 p) n 0 p ≡ some b
      → pop_timer s ≡ some (popped b)
  unfolding pop_timer popped root
  pop_timer-steps p b read run =
      let a = s.heap.array in
      let room : 0 < length a = omega (arith, v.size, v.positive) in
      let filled : nat_beq s.heap.cur_size 0 ≡ false = ground arith in
      let last : s.heap.cur_size - 1 ≡ n = omega arith in
      let again = store-at (set a 0 0) 0 p (omega (arith, length-set a 0 0)) in
      rw (filled, load-at a 0 room, store-at a 0 0 room, last, read, again, set-set a 0 0 p, run)
        refl

pop_timer-one :
    (s : State) (v : IsHeap s)
    → s.heap.cur_size ≡ 1
    → (s' : State) × (pop_timer s ≡ some s') × Popped s s'
pop_timer-one s v e =
    let a = s.heap.array in
    let room : 0 < length a = omega (arith, v.size, v.positive) in
    let read : load (set a 0 0) 0 ≡ some 0 =
      load-at (set a 0 0) 0 (omega (arith, length-set a 0 0))
      ∙ ap some (ground (arith, at-set a 0 0 0)) in
    let run : down_loop (0 + 1) (rest s v 0 e) (set a 0 0) 0 0 0 ≡ some (set (set a 0 0) 0 0) =
      unfold down_loop in store-at (set a 0 0) 0 0 (omega (arith, length-set a 0 0)) in
    let b = set (set a 0 0) 0 0 in
    let only : active s ≡ at a 0 ∷ [] = ap (λ k. take k a) e ∙ take-suc 0 a 0 room in
    (
      popped s v 0 e b,
      pop_timer-steps s v 0 e 0 b read run,
      popped-Popped s v 0 e b (omega (arith, length-set (set a 0 0) 0 0, length-set a 0 0))
          (λ c p q. absurd (omega arith)) (λ c q. absurd (omega arith))
          (unfold root in rw only Perm.rfl),
    )

pop_timer-more :
    (s : State) (v : IsHeap s) (n : ℕ)
    → 0 < n
    → s.heap.cur_size ≡ suc n
    → (s' : State) × (pop_timer s ≡ some s') × Popped s s'
pop_timer-more s v n p e =
    let a = s.heap.array in
    let t = at a n in
    let room : 0 < length a = omega (arith, v.size, v.positive) in
    let kept : at (set a 0 0) n ≡ t = ground (arith, at-set a 0 n 0 room) in
    let read : load (set a 0 0) n ≡ some t =
      load-at (set a 0 0) n (omega (arith, length-set a 0 0, v.fits, v.size)) ∙ ap some kept in
    let (b, run, sifted) =
      down_loop_sifts (n + 1) (rest s v n e) n (set a 0 t) 0 t (omega arith)
        (start-DownInv s v n e p) in
    let top : set (set a 0 t) 0 t ≡ set a 0 t = set-set a 0 t t in
    (
      popped s v n e b,
      pop_timer-steps s v n e t b read run,
      popped-Popped s v n e b
          (omega (arith, sifted.size, length-set (set a 0 t) 0 t, length-set a 0 t)) sifted.ordered
          sifted.live
          (Perm.trans (Perm.cons (root s v n e) (rw top at sifted.same)) (start-perm s v n e p)),
    )

-- On a heap that is not empty pop_timer goes through no dangling pointer, frees the timer at the top
-- and leaves the others as a heap.
pub pop_timer_correct :
    (s : State)
    → IsHeap s
    → 0 < s.heap.cur_size
    → (s' : State) × (pop_timer s ≡ some s') × Popped s s'
pop_timer_correct s v h = elim (Bool-cases (nat_beq s.heap.cur_size 1)) [
  | inl e ↦ pop_timer-one s v (ground arith)
  | inr e ↦
      let more : s.heap.cur_size ≢ 1 = ground arith in
      pop_timer-more s v (s.heap.cur_size - 1) (omega arith) (omega arith)
]
