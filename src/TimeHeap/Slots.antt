-- ===== src/TimeHeap/Slots.antt =====
-- src/include/lst_timer.h: the slots of the array, and what a heap of live timers is.
use mathlib.Core.List.{Perm}
use mathlib.Core.List.Perm
use mprpc_advanced_z.Base.{
  ℕ, zero, suc, true, false, ◌≤◌, ◌<◌, ◌≡◌, ◌≢◌, refl, List, [], ◌∷◌, Option, none, some, nat_beq,
  if◌then◌else◌, length, set, get_or, take, arith, length-set, length-take, get_elem?-get_or,
  get_or-take, take-set,
}
use mprpc_advanced_z.TimeHeap.{Timer, Memory, put, load, store, expire_of, parent}

-- The pointer in a slot, and the time at which its timer expires.
abbrev pub at : List ℕ → ℕ → ℕ
at a i = get_or a i 0

abbrev pub key : Memory → ℕ → ℕ
key mem p = elim (mem p) [ none ↦ 0 | some t ↦ t.expire ]

-- The pointer leads to a timer.
abbrev pub IsLive : Memory → ℕ → Type 0
IsLive mem p = expire_of mem p ≡ some (key mem p)

pub IsLive-cases : (mem : Memory) (p : ℕ) → IsLive mem p → (t : Timer) × (mem p ≡ some t)
unfolding expire_of
IsLive-cases mem p h = go (mem p) refl
  where
    go : (o : Option Timer) → mem p ≡ o → (t : Timer) × (mem p ≡ some t)
    go none e = absurd (ground arith)
    go (some t) e = (t, e)

-- The first `n` slots hold live timers, no child expiring before its parent.
abbrev pub AllLive : Memory → ℕ → List ℕ → Type 0
AllLive mem n a = (c : ℕ) → c < n → IsLive mem (at a c)

abbrev pub Ordered : Memory → ℕ → List ℕ → Type 0
Ordered mem n a = (c : ℕ) → 0 < c → c < n → key mem (at a (parent c)) ≤ key mem (at a c)

-- `b` is a heap of live timers over `n` slots, with the pointers of `a`.
pub record Sifted (mem : Memory) (n : ℕ) (a b : List ℕ) : Type 0 where
  pub ordered : Ordered mem n b
  pub live : AllLive mem n b
  pub size : length b ≡ length a
  pub same : Perm (take n b) (take n a)

pub load-at : (a : List ℕ) (i : ℕ) → i < length a → load a i ≡ some (at a i)
unfolding load
load-at a i h = get_elem?-get_or a i 0 h

pub store-at : (a : List ℕ) (i p : ℕ) → i < length a → store a i p ≡ some (set a i p)
unfolding store
store-at a i p h = ground arith

pub at-set :
    (a : List ℕ) (i j p : ℕ) → i < length a → at (set a i p) j ≡ (if nat_beq i j then p else at a j)
at-set [] i j p h = absurd (omega arith)
at-set (x ∷ a) zero zero p h = refl
at-set (x ∷ a) zero (suc j) p h = ground arith
at-set (x ∷ a) (suc i) zero p h = ground arith
at-set (x ∷ a) (suc i) (suc j) p h = ground (arith, at-set a i j p)

-- A write trades the old entry for the new one.
pub set-perm : (a : List ℕ) (i p : ℕ) → i < length a → Perm (at a i ∷ set a i p) (p ∷ a)
set-perm [] i p h = absurd (omega arith)
set-perm (x ∷ a) zero p h = Perm.swap p x a
set-perm (x ∷ a) (suc i) p h =
    Perm.trans (Perm.swap x (at a i) (set a i p))
      (Perm.trans (Perm.cons x (set-perm a i p (omega arith))) (Perm.swap p x a))

-- Moving the entry `j` into the hole `i` and the hole to `j` keeps the entries.
move-perm :
    (a : List ℕ) (i j p : ℕ)
    → i < length a
    → j < length a
    → Perm (set (set a i (at a j)) j p) (set a i p)
move-perm a i j p hi hj =
    let b = set a i (at a j) in
    let kept : at b j ≡ at a j = ground (arith, at-set a i j (at a j)) in
    let second : Perm (at a j ∷ set b j p) (p ∷ b) =
      rw kept at (set-perm b j p (omega (arith, length-set a i (at a j)))) in
    let first = set-perm a i (at a j) hi in
    let target = set-perm a i p hi in
    Perm.cons_inv (
      Perm.cons_inv (
        Perm.trans (Perm.cons (at a i) second) (
          Perm.trans (Perm.swap p (at a i) b) (
            Perm.trans (Perm.cons p first) (
              Perm.trans (Perm.swap (at a j) p a) (
                Perm.trans (Perm.cons (at a j) (Perm.symm target))
                  (Perm.swap (at a i) (at a j) (set a i p))))))))

-- The same over the slots in use.
pub move-perm_take :
    (n : ℕ) (a : List ℕ) (i j p : ℕ)
    → n ≤ length a
    → i < n
    → j < n
    → Perm (take n (set (set a i (at a j)) j p)) (take n (set a i p))
move-perm_take n a i j p h hi hj =
    let inside = length-take n a in
    rw
      (
        take-set n (set a i (at a j)) j p,
        take-set n a i (at a j),
        take-set n a i p,
        ← get_or-take n a j 0 hj,
      )
      (move-perm (take n a) i j p (omega arith) (omega arith))

pub put_self : (p : ℕ) (o : Option Timer) (mem : Memory) → put p o mem p ≡ o
put_self p o mem = let e : nat_beq p p ≡ true = ground arith in rw e refl

pub put-other : (p q : ℕ) (o : Option Timer) (mem : Memory) → p ≢ q → put p o mem q ≡ mem q
put-other p q o mem h = let e : nat_beq p q ≡ false = ground arith in rw e refl

pub IsLive-at :
    (mem : Memory) (p : ℕ) (t : Timer) → mem p ≡ some t → IsLive mem p × (key mem p ≡ t.expire)
unfolding expire_of
IsLive-at mem p t e = ground arith

pub none-ne-some : (t : Timer) → ◌≢◌ {A = Option Timer} none (some t)
none-ne-some t e = cc
