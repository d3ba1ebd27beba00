-- ===== src/ConsistentHash/Order.antt =====
-- src/include/ConsistentHash.h: what the ring's search returns.
use mprpc_advanced_z.Base.{
  ℕ, ◌≤◌, ◌<◌, ◌≡◌, refl, ◌≢◌, ◌⊎◌, inl, inr, [], ◌∷◌, Option, none, some, arith, ltb, Bool-cases,
  ltb→lt, ltb→le,
}
use mprpc_advanced_z.Base.Bytes.{Bytes}
use mprpc_advanced_z.ConsistentHash.{Ring, ring_assign, lower_bound, successor}

-- The keys ascend strictly, from above `n` on.
abbrev pub Above : ℕ → Ring → Type 0
Above n [] = Unit {0}
Above n ((k, v) ∷ m) = (n < k) × Above k m

-- The keys ascend strictly: the ring is a std::map.
abbrev pub IsRing : Ring → Type 0
IsRing [] = Unit {0}
IsRing ((k, v) ∷ m) = Above k m

-- The entry is in the ring.
abbrev pub Has : ℕ → Bytes → Ring → Type 0
Has k v [] = ⊥
Has k v ((j, w) ∷ m) = ((k ≡ j) × (v ≡ w)) ⊎ Has k v m

ring_assign-Above :
    (n k : ℕ) (v : Bytes) (m : Ring) → n < k → Above n m → Above n (ring_assign k v m)
unfolding ring_assign
ring_assign-Above n k v [] h a = (h, tt)
ring_assign-Above n k v ((j, w) ∷ m) h a = ground (arith, ring_assign-Above j k v m)

pub ring_assign-IsRing : (k : ℕ) (v : Bytes) (m : Ring) → IsRing m → IsRing (ring_assign k v m)
unfolding ring_assign
ring_assign-IsRing k v [] a = tt
ring_assign-IsRing k v ((j, w) ∷ m) a = ground (arith, ring_assign-Above j k v m)

-- The clockwise choice, said without a search: an entry that no entry between it and the hash
-- precedes, going up from the hash and, past the greatest key, on from the least.
pub data IsSuccessor (h : ℕ) (m : Ring) (v : Bytes) : Type 0 where
  ahead :
      (k : ℕ)
      → Has k v m
      → h ≤ k
      → ((j : ℕ) (w : Bytes) → Has j w m → h ≤ j → k ≤ j)
      → IsSuccessor h m v
  wrapped :
      (k : ℕ)
      → Has k v m
      → ((j : ℕ) (w : Bytes) → Has j w m → j < h)
      → ((j : ℕ) (w : Bytes) → Has j w m → k ≤ j)
      → IsSuccessor h m v

pub Above-lt : (n j : ℕ) (w : Bytes) (m : Ring) → Above n m → Has j w m → n < j
Above-lt n j w [] a e = absurd e
Above-lt n j w ((k, v) ∷ m) a (inl e) = omega arith
Above-lt n j w ((k, v) ∷ m) a (inr e) = omega (arith, Above-lt k j w m a.1 e)

-- What the search has found: the first entry at or behind the hash, or that there is none.
abbrev Found : ℕ → Ring → Option (ℕ × Bytes) → Type 0
Found h m none = (j : ℕ) (w : Bytes) → Has j w m → j < h
Found h m (some (k, v)) = Has k v m × (h ≤ k) × ((j : ℕ) (w : Bytes) → Has j w m → h ≤ j → k ≤ j)

least :
    (k : ℕ) (v : Bytes) (m : Ring) (h : ℕ)
    → Above k m
    → (j : ℕ) (w : Bytes) → Has j w ((k, v) ∷ m)
    → h ≤ j
    → k ≤ j
least k v m h a j w (inl e) l = omega arith
least k v m h a j w (inr e) l = omega (arith, Above-lt k j w m a e)

skipped :
    (h k : ℕ) (v : Bytes) (m : Ring) (o : Option (ℕ × Bytes))
    → k < h
    → Found h m o
    → Found h ((k, v) ∷ m) o
skipped h k v m none l f = λ j w e. elim e [ inl (p, q) ↦ omega arith | inr r ↦ f j w r ]
skipped h k v m (some (i, u)) l f =
    (inr f.0, f.1, λ j w e l'. elim e [ inl (p, q) ↦ absurd (omega arith) | inr r ↦ f.2 j w r l' ])

lower_bound-Found : (h n : ℕ) (m : Ring) → Above n m → Found h m (lower_bound h m)
unfolding lower_bound
lower_bound-Found h n [] a = λ j w e. absurd e
lower_bound-Found h n ((k, v) ∷ m) a = elim (Bool-cases (ltb k h)) [
  | inl e ↦ rw e (skipped h k v m (lower_bound h m) (ltb→lt k h e) (lower_bound-Found h k m a.1))
  | inr e ↦ rw e (inl (refl, refl), ltb→le k h e, least k v m h a.1)
]

pub Above-IsRing : (n : ℕ) (m : Ring) → Above n m → IsRing m
Above-IsRing n [] a = tt
Above-IsRing n ((k, v) ∷ m) a = a.1

-- The search on a whole ring.
Found-lower_bound : (h : ℕ) (m : Ring) → IsRing m → Found h m (lower_bound h m)
unfolding lower_bound
Found-lower_bound h [] a = λ j w e. absurd e
Found-lower_bound h ((k, v) ∷ m) a = elim (Bool-cases (ltb k h)) [
  | inl e ↦ rw e (skipped h k v m (lower_bound h m) (ltb→lt k h e) (lower_bound-Found h k m a))
  | inr e ↦ rw e (inl (refl, refl), ltb→le k h e, least k v m h a)
]

-- The host that `successor` returns is the clockwise choice.
pub successor-IsSuccessor : (h : ℕ) (m : Ring) → IsRing m → m ≢ [] → IsSuccessor h m (successor h m)
unfolding successor
successor-IsSuccessor h [] a ne = absurd (ne refl)
successor-IsSuccessor h ((k, v) ∷ m) a ne =
    pick (lower_bound h ((k, v) ∷ m)) (Found-lower_bound h ((k, v) ∷ m) a)
  where
    pick :
        (o : Option (ℕ × Bytes))
        → Found h ((k, v) ∷ m) o
        → IsSuccessor h ((k, v) ∷ m) (elim o [ none ↦ v | some (j, w) ↦ w ])
    pick none f =
        IsSuccessor.wrapped k (inl (refl, refl)) f (λ j w e. elim e [
          | inl (p, q) ↦ omega arith
          | inr r ↦ omega (arith, Above-lt k j w m a r)
        ])
    pick (some (j, w)) f = IsSuccessor.ahead j f.0 f.1 f.2

pub successor-Has : (h : ℕ) (m : Ring) (v : Bytes) → IsSuccessor h m v → (k : ℕ) × Has k v m
successor-Has h m v (IsSuccessor.ahead k e l f) = (k, e)
successor-Has h m v (IsSuccessor.wrapped k e l f) = (k, e)
