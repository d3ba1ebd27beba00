-- ===== src/ConsistentHash.antt =====
-- src/include/ConsistentHash.h: the hash ring by which a client picks a provider. std::hash is a
-- parameter; the ring, a std::map, is the list of its entries in ascending order of their keys.
pub mod Order
pub mod Nodes
pub mod Stability
pub mod Agreement
use mprpc_advanced_z.Base.{
  ℕ, zero, suc, ◌+◌, ◌%◌, ◌^◌, List, [], ◌∷◌, ◌++◌, Option, none, some, ltb, nat_beq, if◌then◌else◌,
}
use mprpc_advanced_z.Base.Bytes.{Bytes, codes}
use mprpc_advanced_z.Base.Decimal.{to_string}

abbrev pub Ring : Type 0
Ring = List (ℕ × Bytes)

-- `m_ring[hash] = host`
unfoldable pub ring_assign : ℕ → Bytes → Ring → Ring
ring_assign k v [] = (k, v) ∷ []
ring_assign k v ((j, w) ∷ m) =
    if ltb k j
    then (k, v) ∷ (j, w) ∷ m
    else if nat_beq k j
    then (j, v) ∷ m
    else (j, w) ∷ ring_assign k v m

-- `m_ring.lower_bound(hash)`: the first entry whose key is not below the hash, or the end.
unfoldable pub lower_bound : ℕ → Ring → Option (ℕ × Bytes)
lower_bound h [] = none
lower_bound h ((j, w) ∷ m) = if ltb j h then lower_bound h m else some (j, w)

pub record ConsistentHash : Type 0 where
  pub m_virtual_node_num : ℕ
  pub m_ring : Ring

-- ConsistentHash(int virtual_node_num = 150)
unfoldable pub new : ℕ → ConsistentHash
new virtual_node_num = record { m_virtual_node_num = virtual_node_num; m_ring = [] }

abbrev pub default_virtual_node_num : ℕ
default_virtual_node_num = 150

-- The host that the entry at or behind `h` names; behind the last entry the ring begins again.
unfoldable pub successor : ℕ → Ring → Bytes
unfolding lower_bound
successor h [] = []
successor h ((k, v) ∷ m) = elim (lower_bound h ((k, v) ∷ m)) [ none ↦ v | some (j, w) ↦ w ]

module _ (hash_fn : Bytes → ℕ) where
  -- static_cast<uint32_t>
  unfoldable pub hash : Bytes → ℕ
  hash key = hash_fn key % 2 ^ 32

  -- The inner loop of AddNodes, from the virtual node `i` on, with `rounds` of them left.
  unfoldable pub add_virtual_nodes : Bytes → ℕ → ℕ → Ring → Ring
  unfolding hash ring_assign
  add_virtual_nodes host i zero ring = ring
  add_virtual_nodes host i (suc rounds) ring =
      let virtual_node_name = host ++ codes "#" ++ to_string i in
      add_virtual_nodes host (i + 1) rounds (ring_assign (hash virtual_node_name) host ring)

  -- The outer loop.
  unfoldable pub add_hosts : ℕ → List Bytes → Ring → Ring
  unfolding add_virtual_nodes
  add_hosts n [] ring = ring
  add_hosts n (host ∷ hosts) ring = add_hosts n hosts (add_virtual_nodes host 0 n ring)

  unfoldable pub add_nodes : List Bytes → ConsistentHash → ConsistentHash
  unfolding add_hosts
  add_nodes hosts ch = record ch { m_ring = add_hosts ch.m_virtual_node_num hosts [] }

  unfoldable pub get_target_host : Bytes → ConsistentHash → Bytes
  unfolding successor hash
  get_target_host key ch = successor (hash key) ch.m_ring
