-- ===== src/TimeHeap/Leaks.antt =====
-- ~time_heap of src/include/lst_timer.h, and the timers that it finds.
use mathlib.Core.HLevel.{⊥_prop}
use mathlib.Core.Logic.Or
use mathlib.Core.List.{
  Perm, Mem, Mem-prop, Nodup, Nodup-cons, mem-cons, mem-cons_self, mem-cons_of_mem, not-mem-nil,
}
use mathlib.Core.List.Perm
use mprpc_advanced_z.Base.{
  ℕ, zero, suc, ◌+◌, ◌≤◌, ◌<◌, ◌≡◌, ◌≢◌, refl, sym, ap, subst, ◌∙◌, List, [], ◌∷◌, ◌++◌, Option,
  none, some, nat_beq, take, length, length-take, get_or-take, arith, Bool-cases, Option-cases, inl,
  inr,
}
use mprpc_advanced_z.TimeHeap.{Timer, Memory, State, put, load, free, ◌>>=◌, >>=-some}
use mprpc_advanced_z.TimeHeap.Slots.{at, IsLive-cases, load-at, none-ne-some, put-other}
use mprpc_advanced_z.TimeHeap.Insert.{active, IsHeap}
use mprpc_advanced_z.TimeHeap.Expiry.{mem-at, free-other}
use mprpc_advanced_z.TimeHeap.Tick.{pointers, Ticked, free-gone}

-- `delete p`, which does nothing to NULL; `none` if the pointer is not live.
unfoldable pub delete : ℕ → Memory → Option Memory
unfolding free
delete zero mem = some mem
delete (suc q) mem = mem (suc q) >>= λ t. some (free (suc q) mem)

-- The loop of the destructor over so many slots from the `i`-th on.
unfoldable pub delete_slots : ℕ → ℕ → List ℕ → Memory → Option Memory
unfolding delete load
delete_slots zero i a mem = some mem
delete_slots (suc k) i a mem = do p ← load a i; mem' ← delete p mem; delete_slots k (i + 1) a mem'

-- ~time_heap()
unfoldable pub destroy : State → Option Memory
unfolding delete_slots
destroy s = delete_slots s.heap.cur_size 0 s.heap.array s.memory

-- Every live timer is in the heap.
abbrev pub IsOwned : State → Type 0
IsOwned s = (p : ℕ) (t : Timer) → s.memory p ≡ some t → Mem p (active s)

-- A pointer is in a list with one more entry if it is that entry or was in the list.
pub added-Mem : (p q : ℕ) (xs ys : List ℕ) → Perm ys (q ∷ xs) → (q ≢ p → Mem p xs) → Mem p ys
added-Mem p q xs ys same h = (Perm.mem_iff same).1 (elim (Bool-cases (nat_beq q p)) [
  | inl b ↦ let e : q ≡ p = ground arith in subst (λ r. Mem p (r ∷ xs)) (sym e) mem-cons_self
  | inr b ↦ let n : q ≢ p = ground arith in mem-cons_of_mem q (h n)
])

-- A timer that is made and added is in the heap.
pub added-IsOwned :
    (s s' : State) (q : ℕ) (t : Timer)
    → IsOwned s
    → Perm (active s') (q ∷ active s)
    → s'.memory ≡ put q (some t) s.memory
    → IsOwned s'
added-IsOwned s s' q t own same m p u e =
    added-Mem p q (active s) (active s') same λ n.
      own p u (sym (put-other q p (some t) s.memory n) ∙ (ap (λ (k : Memory). k p) (sym m) ∙ e))

-- What is left of the memory is in the heap, when what has changed was in it.
pub changed-IsOwned :
    (s s' : State) (q : ℕ) (t : Timer)
    → IsOwned s
    → s.memory q ≡ some t
    → active s' ≡ active s
    → ((p : ℕ) → q ≢ p → s'.memory p ≡ s.memory p)
    → IsOwned s'
changed-IsOwned s s' q t own live same others p u e =
    subst (Mem p) (sym same) (elim (Bool-cases (nat_beq q p)) [
      | inl b ↦ let g : q ≡ p = ground arith in subst (λ r. Mem r (active s)) g (own q t live)
      | inr b ↦ let n : q ≢ p = ground arith in own p u (sym (others p n) ∙ e)
    ])

-- The same, when a timer has been added to the heap besides.
pub adjusted-IsOwned :
    (s s' : State) (q fresh : ℕ) (t : Timer)
    → IsOwned s
    → s.memory q ≡ some t
    → Perm (active s') (fresh ∷ active s)
    → ((p : ℕ) → q ≢ p → fresh ≢ p → s'.memory p ≡ s.memory p)
    → IsOwned s'
adjusted-IsOwned s s' q fresh t own live same others p u e =
    added-Mem p fresh (active s) (active s') same λ n. elim (Bool-cases (nat_beq q p)) [
      | inl b ↦ let g : q ≡ p = ground arith in subst (λ r. Mem r (active s)) g (own q t live)
      | inr b ↦ let m : q ≢ p = ground arith in own p u (sym (others p m n) ∙ e)
    ]

pub skip-front : (p : ℕ) (xs ys : List ℕ) → ¬ Mem p xs → Mem p (xs ++ ys) → Mem p ys
skip-front p [] ys n m = m
skip-front p (x ∷ xs) ys n m =
    Or.elim (Mem-prop {a = p} {l = ys}) (mem-cons.0 m) (λ e. absurd (n (mem-cons.1 ∣ inl e ∣₁)))
      (λ m'. skip-front p xs ys (λ k. n (mem-cons.1 ∣ inr k ∣₁)) m')

-- What no slot in use has, no pointer in use has.
pub no_slot :
    (Bad : ℕ → Type 0) (n : ℕ) (a : List ℕ) (p : ℕ)
    → ((c : ℕ) → c < n → c < length a → ¬ Bad (at a c))
    → Bad p
    → ¬ Mem p (take n a)
no_slot Bad zero a p h b m = not-mem-nil m
no_slot Bad (suc n) [] p h b m = not-mem-nil m
no_slot Bad (suc n) (x ∷ a) p h b m =
    Or.elim ⊥_prop (mem-cons.0 m) (λ e. h zero (omega arith) (omega arith) (subst Bad e b))
      (λ m'. no_slot Bad n a p (λ c k l. h (suc c) (omega arith) (omega arith)) b m')

-- A tick frees what it takes out.
pub Ticked-IsOwned :
    (cur : ℕ) (s s' : State) (kicked : List ℕ) (gone : List (ℕ × Timer))
    → Ticked cur s s' kicked gone
    → IsOwned s
    → IsOwned s'
Ticked-IsOwned cur s s' kicked gone k own p t e =
    skip-front p (pointers gone) (active s') (λ m. none-ne-some t (sym (k.freed p m) ∙ e))
      ((Perm.mem_iff k.split).1 (own p t (k.only_freed p t e)))

delete-live :
    (p : ℕ) (mem : Memory) (t : Timer) → p ≢ 0 → mem p ≡ some t → delete p mem ≡ some (free p mem)
unfolding delete
delete-live zero mem t n e = absurd (n refl)
delete-live (suc p) mem t n e = >>=-some _ e refl

slots-apart : (xs : List ℕ) (c d : ℕ) → c < d → d < length xs → Nodup xs → at xs c ≢ at xs d
slots-apart [] c d p h n = absurd (omega arith)
slots-apart (x ∷ xs) c zero p h n = absurd (omega arith)
slots-apart (x ∷ xs) zero (suc d) p h n =
    λ e. (Nodup-cons.0 n).0 (subst (λ y. Mem y xs) (sym e) (mem-at xs d (omega arith)))
slots-apart (x ∷ xs) (suc c) (suc d) p h n =
    slots-apart xs c d (omega arith) (omega arith) (Nodup-cons.0 n).1

-- The destructor takes live timers only, each once, and what is left after it is none of them.
delete_slots-frees :
    (k i : ℕ) (a : List ℕ) (mem : Memory)
    → i + k ≤ length a
    → mem 0 ≡ none
    → ((c : ℕ) → i ≤ c → c < i + k → (t : Timer) × (mem (at a c) ≡ some t))
    → ((c d : ℕ) → i ≤ c → c < d → d < i + k → at a c ≢ at a d)
    → (mem' : Memory) × (delete_slots k i a mem ≡ some mem')
      × ((p : ℕ) (t : Timer)
          → mem' p ≡ some t
          → (mem p ≡ some t) × ((c : ℕ) → i ≤ c → c < i + k → at a c ≢ p))
unfolding delete_slots
delete_slots-frees zero i a mem fits null live apart =
    (mem, refl, λ p t e. (e, λ c l u. absurd (omega arith)))
delete_slots-frees (suc k) i a mem fits null live apart =
    let p = at a i in
    let (t, there) = live i (omega arith) (omega arith) in
    let mem1 = free p mem in
    let nonnull : p ≢ 0 = λ g. none-ne-some t (sym null ∙ (ap mem (sym g) ∙ there)) in
    let kept : (q : ℕ) → p ≢ q → mem1 q ≡ mem q = λ q n. free-other p q mem n in
    let (mem', run, left) =
      delete_slots-frees k (i + 1) a mem1 (omega arith) (kept 0 nonnull ∙ null)
        (λ c l u.
          let (v, e) = live c (omega arith) (omega arith) in
          (v, kept (at a c) (apart i c (omega arith) (omega arith) (omega arith)) ∙ e))
        (λ c d l m u. apart c d (omega arith) m (omega arith)) in
    (
      mem',
      >>=-some _ (load-at a i (omega arith)) (>>=-some _ (delete-live p mem t nonnull there) run),
      λ q u e.
          let (before, others) = left q u e in
          let here : p ≢ q =
            λ g. none-ne-some u (sym (free-gone p mem null) ∙ (ap mem1 g ∙ before)) in
          (
            sym (kept q here) ∙ before,
            λ c l m. elim (Bool-cases (nat_beq i c)) [
              | inl b ↦ let same : i ≡ c = ground arith in subst (λ j. at a j ≢ q) same here
              | inr b ↦
                  let later : i ≢ c = ground arith in others c (omega (arith, later)) (omega arith)
            ],
          ),
    )

-- The destructor of a heap in which all live timers are deletes each of its timers once, through no
-- pointer that is not live, and leaves no timer.
pub destroy-frees :
    (s : State)
    → IsHeap s
    → IsOwned s
    → (mem : Memory) × (destroy s ≡ some mem) × ((p : ℕ) → mem p ≡ none)
unfolding destroy
destroy-frees s v own =
    let n = s.heap.cur_size in
    let a = s.heap.array in
    let size : length (take n a) ≡ n = omega (arith, length-take n a, v.size, v.fits) in
    let inside = λ (c : ℕ) (h : c < n). get_or-take n a c 0 h in
    let (mem, run, left) =
      delete_slots-frees n 0 a s.memory (omega (arith, v.size, v.fits)) v.null
        (λ c l u. IsLive-cases s.memory (at a c) (v.live c (omega arith)))
        (λ c d l m u e.
          slots-apart (take n a) c d m (omega arith) v.distinct
            (inside c (omega arith) ∙ (e ∙ sym (inside d (omega arith))))) in
    let none_left : (p : ℕ) → mem p ≡ none = λ p. elim (Option-cases (mem p)) [
      | inl e ↦ e
      | inr (t, e) ↦
          let (before, others) = left p t e in
          absurd (
            no_slot (λ q. q ≡ p) n a p (λ c h l. others c (omega arith) (omega arith)) refl
              (own p t before))
    ] in
    (mem, run, none_left)
