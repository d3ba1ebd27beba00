-- ===== src/ConsistentHash/Agreement.antt =====
-- src/include/ConsistentHash.h: clients that list the same providers in different orders agree.
use mathlib.Core.Logic.{◌↔◌}
use mprpc_advanced_z.Base.{ℕ, ◌<◌, ◌≡◌, refl, sym, ap, ap₂, inl, inr, List, [], ◌∷◌, arith, subst}
use mprpc_advanced_z.Base.Bytes.{Bytes}
use mprpc_advanced_z.ConsistentHash.{
  Ring, ConsistentHash, hash, successor, add_nodes, get_target_host,
}
use mprpc_advanced_z.ConsistentHash.Order.{Above, IsRing, Has, Above-lt, Above-IsRing}
use mprpc_advanced_z.ConsistentHash.Nodes.{In, HasKey, node_key, IsRingOf, add_nodes-IsRingOf}

-- Every entry of one ring is in the other.
abbrev Within : Ring → Ring → Type 0
Within m m' = (k : ℕ) (v : Bytes) → Has k v m → Has k v m'

Within-tail :
    (k : ℕ) (v : Bytes) (m m' : Ring) → Above k m → Within ((k, v) ∷ m) ((k, v) ∷ m') → Within m m'
Within-tail k v m m' a w i u e = elim (w i u (inr e)) [
  | inl (p, q) ↦ let later = Above-lt k i u m a e in absurd (omega arith)
  | inr r ↦ r
]

-- The first entries of two rings with the same entries.
heads :
    (k j : ℕ) (v w : Bytes) (m m' : Ring)
    → Above k m
    → Above j m'
    → Within ((k, v) ∷ m) ((j, w) ∷ m')
    → Within ((j, w) ∷ m') ((k, v) ∷ m)
    → (k ≡ j) × (v ≡ w)
heads k j v w m m' a b f g = elim (f k v (inl (refl, refl))) [
  | inl e ↦ e
  | inr e ↦ elim (g j w (inl (refl, refl))) [
    | inl (p, q) ↦ (sym p, sym q)
    | inr r ↦
        let one = Above-lt j k v m' b e in let two = Above-lt k j w m a r in absurd (omega arith)
  ]
]

-- A ring is known by its entries.
ring_ext : (m m' : Ring) → IsRing m → IsRing m' → Within m m' → Within m' m → m ≡ m'
ring_ext [] [] a b f g = refl
ring_ext [] ((j, w) ∷ m') a b f g = absurd (g j w (inl (refl, refl)))
ring_ext ((k, v) ∷ m) [] a b f g = absurd (f k v (inl (refl, refl)))
ring_ext ((k, v) ∷ m) ((j, w) ∷ m') a b f g =
    let (p, q) = heads k j v w m m' a b f g in
    let f' : Within ((k, v) ∷ m) ((k, v) ∷ m') =
      subst (λ (x : ℕ × Bytes). Within ((k, v) ∷ m) (x ∷ m'))
        (ap₂ (λ (i : ℕ) (u : Bytes). (i, u)) (sym p) (sym q)) f in
    let g' : Within ((k, v) ∷ m') ((k, v) ∷ m) =
      subst (λ (x : ℕ × Bytes). Within (x ∷ m') ((k, v) ∷ m))
        (ap₂ (λ (i : ℕ) (u : Bytes). (i, u)) (sym p) (sym q)) g in
    let b' : Above k m' = subst (λ i. Above i m') (sym p) b in
    let rest =
      ring_ext m m' (Above-IsRing k m a) (Above-IsRing k m' b') (Within-tail k v m m' a f')
        (Within-tail k v m' m b' g') in
    ap₂ (λ (x : ℕ × Bytes) (xs : Ring). x ∷ xs) (ap₂ (λ (i : ℕ) (u : Bytes). (i, u)) p q) rest

HasKey-Has : (k : ℕ) (m : Ring) → HasKey k m → (w : Bytes) × Has k w m
HasKey-Has k [] e = absurd e
HasKey-Has k ((j, w) ∷ m) (inl e) = (w, inl (e, refl))
HasKey-Has k ((j, w) ∷ m) (inr e) = let (u, h) = HasKey-Has k m e in (u, inr h)

module _ (hash_fn : Bytes → ℕ) where
  -- No two hosts of the list have virtual nodes with the same hash.
  abbrev pub Apart : ℕ → List Bytes → Type 0
  Apart n hosts =
      (v w : Bytes) (i j : ℕ)
      → In v hosts
      → In w hosts
      → i < n
      → j < n
      → node_key hash_fn v i ≡ node_key hash_fn w j
      → v ≡ w

  Within-IsRingOf :
      (n : ℕ) (xs ys : List Bytes) (m m' : Ring)
      → ((v : Bytes) → In v xs → In v ys)
      → Apart n ys
      → IsRingOf hash_fn n xs m
      → IsRingOf hash_fn n ys m'
      → Within m m'
  Within-IsRingOf n xs ys m m' sub apart r s k v e =
      let (there, (i, below, key)) = r.sound k v e in
      let (w, h) = HasKey-Has _ m' (s.complete v i (sub v there) below) in
      let (there', (j, below', key')) = s.sound _ w h in
      let same = apart v w i j (sub v there) there' below below' key' in
      subst (λ u. Has k u m') (sym same) (subst (λ i. Has i w m') (sym key) h)

  -- Two lists with the same providers, in whatever order and however often each, give the same ring
  -- and so the same provider for every key, when no two providers of the list have virtual nodes with
  -- the same hash.
  pub add_nodes-agrees :
      (xs ys : List Bytes) (ch : ConsistentHash)
      → ((v : Bytes) → In v xs ↔ In v ys)
      → Apart ch.m_virtual_node_num ys
      → ((add_nodes hash_fn xs ch).m_ring ≡ (add_nodes hash_fn ys ch).m_ring)
        × ((key : Bytes)
            → get_target_host hash_fn key (add_nodes hash_fn xs ch)
              ≡ get_target_host hash_fn key (add_nodes hash_fn ys ch))
  unfolding get_target_host
  add_nodes-agrees xs ys ch same apart =
      let n = ch.m_virtual_node_num in
      let apart' : Apart n xs = λ v w i j a b. apart v w i j ((same v).0 a) ((same w).0 b) in
      let r = add_nodes-IsRingOf hash_fn xs ch in
      let s = add_nodes-IsRingOf hash_fn ys ch in
      let rings =
        ring_ext _ _ r.ascending s.ascending
          (Within-IsRingOf n xs ys _ _ (λ v. (same v).0) apart r s)
          (Within-IsRingOf n ys xs _ _ (λ v. (same v).1) apart' s r) in
      (rings, λ key. ap (successor (hash hash_fn key)) rings)
