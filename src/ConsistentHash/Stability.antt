-- ===== src/ConsistentHash/Stability.antt =====
-- src/include/ConsistentHash.h: how the choice changes when providers come.
use mprpc_advanced_z.Base.{
  ℕ, zero, suc, ◌+◌, ◌≡◌, refl, ◌⊎◌, inl, inr, List, [], ◌∷◌, ◌++◌, Option, some, arith,
}
use mprpc_advanced_z.Base.Bytes.{Bytes, codes}
use mprpc_advanced_z.Base.Decimal.{to_string}
use mprpc_advanced_z.ConsistentHash.{
  Ring, ring_assign, lower_bound, successor, ConsistentHash, hash, add_virtual_nodes, add_hosts,
  add_nodes, get_target_host,
}

-- The search finds what it found, or an entry of the host that has been added.
abbrev Kept : Bytes → Option (ℕ × Bytes) → Option (ℕ × Bytes) → Type 0
Kept v new old = (new ≡ old) ⊎ ((k : ℕ) × (new ≡ some (k, v)))

lower_bound-ring_assign :
    (h k : ℕ) (v : Bytes) (m : Ring) → Kept v (lower_bound h (ring_assign k v m)) (lower_bound h m)
unfolding lower_bound ring_assign
lower_bound-ring_assign h k v [] = ground arith
lower_bound-ring_assign h k v ((j, w) ∷ m) = ground (arith, lower_bound-ring_assign h k v m)

successor-ring_assign :
    (h k : ℕ) (v : Bytes) (m : Ring)
    → (successor h (ring_assign k v m) ≡ successor h m) ⊎ (successor h (ring_assign k v m) ≡ v)
unfolding successor ring_assign
successor-ring_assign h k v [] = inr (ground arith)
successor-ring_assign h k v ((j, w) ∷ m) = ground (arith, lower_bound-ring_assign h k v m)

-- The choice is the old one or the added host.
abbrev Moves : Bytes → Bytes → Bytes → Type 0
Moves host new old = (new ≡ old) ⊎ (new ≡ host)

Moves-trans : (host a b c : Bytes) → Moves host a b → Moves host b c → Moves host a c
Moves-trans host a b c p q = ground arith

module _ (hash_fn : Bytes → ℕ) where
  successor-add_virtual_nodes :
      (h : ℕ) (host : Bytes) (i n : ℕ) (m : Ring)
      → Moves host (successor h (add_virtual_nodes hash_fn host i n m)) (successor h m)
  unfolding add_virtual_nodes
  successor-add_virtual_nodes h host i zero m = inl refl
  successor-add_virtual_nodes h host i (suc n) m =
      let k = hash hash_fn (host ++ codes "#" ++ to_string i) in
      let ring = ring_assign k host m in
      Moves-trans host _ _ _ (successor-add_virtual_nodes h host (i + 1) n ring)
        (successor-ring_assign h k host m)

  add_hosts-append :
      (n : ℕ) (xs : List Bytes) (host : Bytes) (m : Ring)
      → add_hosts hash_fn n (xs ++ host ∷ []) m
        ≡ add_virtual_nodes hash_fn host 0 n (add_hosts hash_fn n xs m)
  unfolding add_hosts
  add_hosts-append n [] host m = refl
  add_hosts-append n (x ∷ xs) host m = add_hosts-append n xs host _

  -- When a provider joins behind the others, each key stays with its host or moves to the new one:
  -- no key changes hands between the old hosts, whatever the hash function and its collisions.
  pub get_target_host-join :
      (key host : Bytes) (hosts : List Bytes) (ch : ConsistentHash)
      → let before = get_target_host hash_fn key (add_nodes hash_fn hosts ch) in
        let after = get_target_host hash_fn key (add_nodes hash_fn (hosts ++ host ∷ []) ch) in
        (after ≡ before) ⊎ (after ≡ host)
  unfolding get_target_host add_nodes
  get_target_host-join key host hosts ch =
      let n = ch.m_virtual_node_num in
      rw (add_hosts-append n hosts host [])
        (successor-add_virtual_nodes (hash hash_fn key) host 0 n (add_hosts hash_fn n hosts []))
