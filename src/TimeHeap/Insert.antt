-- ===== src/TimeHeap/Insert.antt =====
-- add_timer of src/include/lst_timer.h keeps the heap.

use mathlib.Core.List.{Perm, Nodup, Mem, perm_middle, Nodup-cons}
use mathlib.Core.List.Perm
use native.Mathlib.Numerals.{add-one}
use mprpc_advanced_z.Base.{
  ℕ, zero, suc, ◌+◌, ◌-◌, ◌*◌, ◌≤◌, ◌<◌, ◌≡◌, ◌≢◌, refl, ap, sym, ◌∙◌, List, [], ◌∷◌, ◌++◌, none,
  some, leb, length, set, take, replicate, arith, length-set, length-append, length-take,
  length-replicate, take-set, take-suc, take-append, get_or-take, append-nil, Bool-cases, inl, inr,
}
use mprpc_advanced_z.TimeHeap.{TimeHeap, State, parent, resize, grown, add_timer}
use mprpc_advanced_z.TimeHeap.Slots.{at, IsLive, AllLive, Ordered, at-set}
use mprpc_advanced_z.TimeHeap.Up.{UpInv, up_loop_sifts}

-- The pointers in the slots in use.
abbrev pub active : State → List ℕ
active s = take s.heap.cur_size s.heap.array

-- The slots in use hold distinct live timers in heap order, and the array has as many slots as it says.
pub record IsHeap (s : State) : Type 0 where
  pub fits : s.heap.cur_size ≤ s.heap.capacity
  pub size : length s.heap.array ≡ s.heap.capacity
  pub positive : 0 < s.heap.capacity
  pub ordered : Ordered s.memory s.heap.cur_size s.heap.array
  pub live : AllLive s.memory s.heap.cur_size s.heap.array
  pub distinct : Nodup (active s)
  pub null : s.memory 0 ≡ none

-- A heap with a free slot behind the entries of another.
record HasSlot (h g : TimeHeap) : Type 0 where
  same_size : g.cur_size ≡ h.cur_size
  size : length g.array ≡ g.capacity
  room : h.cur_size < g.capacity
  kept : take h.cur_size g.array ≡ take h.cur_size h.array

resize-HasSlot :
    (h : TimeHeap)
    → length h.array ≡ h.capacity
    → h.cur_size ≡ h.capacity
    → 0 < h.capacity
    → HasSlot h (resize h)
unfolding resize
resize-HasSlot h l e p =
    let front = length-take h.cur_size h.array in
    let back = length-replicate {A = ℕ} (2 * h.capacity - h.cur_size) 0 in
    let whole =
      length-append (take h.cur_size h.array) (replicate (2 * h.capacity - h.cur_size) 0) in
    record {
      same_size = refl;
      size = omega arith;
      room = omega arith;
      kept = take-append (take h.cur_size h.array) _ h.cur_size (omega arith);
    }

grown-HasSlot :
    (h : TimeHeap)
    → length h.array ≡ h.capacity
    → h.cur_size ≤ h.capacity
    → 0 < h.capacity
    → HasSlot h (grown h)
unfolding grown
grown-HasSlot h l f p = elim (Bool-cases (leb h.capacity h.cur_size)) [
  | inl e ↦ let full : h.cur_size ≡ h.capacity = ground arith in rw e (resize-HasSlot h l full p)
  | inr e ↦
      let free : h.cur_size < h.capacity = ground arith in
      rw e (record { same_size = refl; size = l; room = free; kept = refl })
]

set_out : (xs : List ℕ) (i p : ℕ) → length xs ≤ i → set xs i p ≡ xs
set_out [] i p h = refl
set_out (x ∷ xs) zero p h = absurd (omega arith)
set_out (x ∷ xs) (suc i) p h = ap (◌∷◌ x) (set_out xs i p (omega arith))

-- A write behind the entries in use makes the last entry of one more.
take-set_last :
    (n : ℕ) (a : List ℕ) (p : ℕ) → n < length a → take (n + 1) (set a n p) ≡ take n a ++ p ∷ []
take-set_last n a p h =
    let written : at (set a n p) n ≡ p = ground (arith, at-set a n n p h) in
    let front : take n (set a n p) ≡ take n a =
      take-set n a n p ∙ set_out (take n a) n p (omega (arith, length-take n a)) in
    ap (λ k. take k (set a n p)) (add-one n)
    ∙ take-suc n (set a n p) 0 (omega (arith, length-set a n p))
    ∙ λ i. front i ++ written i ∷ []

pub concat-perm : (xs : List ℕ) (p : ℕ) → Perm (xs ++ p ∷ []) (p ∷ xs)
concat-perm xs p = rw (append-nil xs) at (perm_middle {a = p} xs [])

-- add_timer puts a live timer that is not in the heap among those that are there, with the heap
-- order kept and the array grown if it is full; it goes through no dangling pointer.
pub add_timer_correct :
    (s : State) (timer : ℕ)
    → IsHeap s
    → timer ≢ 0
    → IsLive s.memory timer
    → ¬ Mem timer (active s)
    → (s' : State) × (add_timer timer s ≡ some s')
      × IsHeap s'
      × Perm (active s') (timer ∷ active s)
      × (s'.memory ≡ s.memory)
      × (s'.client_timer ≡ s.client_timer)
unfolding add_timer
add_timer_correct s zero v z l m = absurd (z refl)
add_timer_correct s (suc q) v z l m =
    let timer = suc q in
    let n = s.heap.cur_size in
    let g = grown s.heap in
    let slot = grown-HasSlot s.heap v.size v.fits v.positive in
    let here = λ (c : ℕ) (h : c < n).
      sym (get_or-take n g.array c 0 h)
      ∙ ap (λ xs. at xs c) slot.kept
      ∙ get_or-take n s.heap.array c 0 h in
    let start : UpInv s.memory (n + 1) g.array n timer = record {
      inside = omega arith;
      fits = omega (arith, slot.size, slot.room);
      live = λ c h e. rw (here c (omega arith)) (v.live c (omega arith));
      live_timer = l;
      edges = λ c p h e f.
          rw (here c (omega arith), here (parent c) (omega arith)) (v.ordered c p (omega arith));
      below = λ c p h e. absurd (omega arith);
      bridged = λ c p h e. absurd (omega arith);
    } in
    let (b, run, sifted) =
      up_loop_sifts (n + 1) s.memory (n + 1) g.array n timer (omega arith) start in
    let added : Perm (take (n + 1) b) (timer ∷ active s) = Perm.trans sifted.same (
      rw (take-set_last n g.array timer (omega (arith, slot.size, slot.room)), slot.kept)
        (concat-perm (active s) timer)) in
    (
      record s { heap = record g { array = b; cur_size = n + 1 } },
      rw (slot.same_size, run) refl,
      record {
        fits = omega (arith, slot.room);
        size = omega (arith, sifted.size, length-set g.array n timer, slot.size);
        positive = omega (arith, slot.room);
        ordered = sifted.ordered;
        live = sifted.live;
        distinct = Perm.nodup (Perm.symm added) (Nodup-cons.1 (m, v.distinct));
        null = v.null;
      },
      added,
      refl,
      refl,
    )
