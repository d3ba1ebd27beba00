-- ===== src/ConsistentHash/Nodes.antt =====
-- src/include/ConsistentHash.h: AddNodes fills the ring with the virtual nodes of the hosts.
use mprpc_advanced_z.Base.{
  ℕ, zero, suc, ◌+◌, ◌≤◌, ◌<◌, ◌≡◌, refl, ◌≢◌, ◌⊎◌, inl, inr, List, [], ◌∷◌, ◌++◌, arith, nat_beq,
  Bool-cases,
}
use mprpc_advanced_z.Base.Bytes.{Bytes, codes}
use mprpc_advanced_z.Base.Decimal.{to_string}
use mprpc_advanced_z.ConsistentHash.{
  Ring, ring_assign, ConsistentHash, hash, add_virtual_nodes, add_hosts, add_nodes, get_target_host,
}
use mprpc_advanced_z.ConsistentHash.Order.{
  IsRing, Has, IsSuccessor, ring_assign-IsRing, successor-IsSuccessor, successor-Has,
}

-- The host is in the list.
abbrev pub In : Bytes → List Bytes → Type 0
In v [] = ⊥
In v (x ∷ xs) = (v ≡ x) ⊎ In v xs

ring_assign-Has :
    (j k : ℕ) (w v : Bytes) (m : Ring)
    → Has j w (ring_assign k v m)
    → ((j ≡ k) × (w ≡ v)) ⊎ Has j w m
unfolding ring_assign
ring_assign-Has j k w v [] e = e
ring_assign-Has j k w v ((i, u) ∷ m) e = ground (arith, ring_assign-Has j k w v m)

-- The key has an entry.
abbrev pub HasKey : ℕ → Ring → Type 0
HasKey k [] = ⊥
HasKey k ((j, w) ∷ m) = (k ≡ j) ⊎ HasKey k m

ring_assign-HasKey_self : (k : ℕ) (v : Bytes) (m : Ring) → HasKey k (ring_assign k v m)
unfolding ring_assign
ring_assign-HasKey_self k v [] = inl refl
ring_assign-HasKey_self k v ((i, u) ∷ m) = ground (arith, ring_assign-HasKey_self k v m)

ring_assign-HasKey : (j k : ℕ) (v : Bytes) (m : Ring) → HasKey j m → HasKey j (ring_assign k v m)
unfolding ring_assign
ring_assign-HasKey j k v [] e = absurd e
ring_assign-HasKey j k v ((i, u) ∷ m) e = ground (arith, ring_assign-HasKey j k v m)

module _ (hash_fn : Bytes → ℕ) where
  -- The key of the virtual node `i` of a host.
  abbrev pub node_key : Bytes → ℕ → ℕ
  node_key host i = hash hash_fn (host ++ codes "#" ++ to_string i)

  add_virtual_nodes-IsRing :
      (host : Bytes) (i n : ℕ) (m : Ring) → IsRing m → IsRing (add_virtual_nodes hash_fn host i n m)
  unfolding add_virtual_nodes
  add_virtual_nodes-IsRing host i zero m a = a
  add_virtual_nodes-IsRing host i (suc n) m a =
      add_virtual_nodes-IsRing host (i + 1) n _ (ring_assign-IsRing _ host m a)

  add_hosts-IsRing :
      (n : ℕ) (hosts : List Bytes) (m : Ring) → IsRing m → IsRing (add_hosts hash_fn n hosts m)
  unfolding add_hosts
  add_hosts-IsRing n [] m a = a
  add_hosts-IsRing n (host ∷ hosts) m a =
      add_hosts-IsRing n hosts _ (add_virtual_nodes-IsRing host 0 n m a)

  add_virtual_nodes-Has :
      (P : ℕ → Bytes → Type 0) (host : Bytes) (i n : ℕ) (m : Ring)
      → ((k : ℕ) (v : Bytes) → Has k v m → P k v)
      → ((j : ℕ) → j < i + n → P (node_key host j) host)
      → (k : ℕ) (v : Bytes) → Has k v (add_virtual_nodes hash_fn host i n m)
      → P k v
  unfolding add_virtual_nodes
  add_virtual_nodes-Has P host i zero m old new k v e = old k v e
  add_virtual_nodes-Has P host i (suc n) m old new k v e =
      add_virtual_nodes-Has P host (i + 1) n (ring_assign (node_key host i) host m)
        (λ k v e. elim (ring_assign-Has k (node_key host i) v host m e) [
          | inl (p, q) ↦ rw (p, q) (new i (omega arith))
          | inr r ↦ old k v r
        ])
        (λ j h. new j (omega arith)) k v e

  add_hosts-Has :
      (P : ℕ → Bytes → Type 0) (n : ℕ) (hosts : List Bytes) (m : Ring)
      → ((k : ℕ) (v : Bytes) → Has k v m → P k v)
      → ((host : Bytes) → In host hosts → (j : ℕ) → j < n → P (node_key host j) host)
      → (k : ℕ) (v : Bytes) → Has k v (add_hosts hash_fn n hosts m)
      → P k v
  unfolding add_hosts
  add_hosts-Has P n [] m old new = old
  add_hosts-Has P n (host ∷ hosts) m old new =
      add_hosts-Has P n hosts _
        (add_virtual_nodes-Has P host 0 n m old (λ j h. new host (inl refl) j (omega arith)))
        (λ x e. new x (inr e))

  add_virtual_nodes-HasKey_old :
      (j : ℕ) (host : Bytes) (i n : ℕ) (m : Ring)
      → HasKey j m
      → HasKey j (add_virtual_nodes hash_fn host i n m)
  unfolding add_virtual_nodes
  add_virtual_nodes-HasKey_old j host i zero m e = e
  add_virtual_nodes-HasKey_old j host i (suc n) m e =
      add_virtual_nodes-HasKey_old j host (i + 1) n _ (ring_assign-HasKey j _ host m e)

  add_virtual_nodes-HasKey :
      (host : Bytes) (i n : ℕ) (m : Ring) (j : ℕ)
      → i ≤ j
      → j < i + n
      → HasKey (node_key host j) (add_virtual_nodes hash_fn host i n m)
  unfolding add_virtual_nodes
  add_virtual_nodes-HasKey host i zero m j l h = absurd (omega arith)
  add_virtual_nodes-HasKey host i (suc n) m j l h = elim (Bool-cases (nat_beq i j)) [
    | inl e ↦
        let at : i ≡ j = ground arith in
        rw (← at) (
          add_virtual_nodes-HasKey_old (node_key host i) host (i + 1) n _
            (ring_assign-HasKey_self _ host m))
    | inr e ↦
        let past : i ≢ j = ground arith in
        add_virtual_nodes-HasKey host (i + 1) n _ j (omega arith) (omega arith)
  ]

  add_hosts-HasKey_old :
      (j n : ℕ) (hosts : List Bytes) (m : Ring)
      → HasKey j m
      → HasKey j (add_hosts hash_fn n hosts m)
  unfolding add_hosts
  add_hosts-HasKey_old j n [] m e = e
  add_hosts-HasKey_old j n (host ∷ hosts) m e =
      add_hosts-HasKey_old j n hosts _ (add_virtual_nodes-HasKey_old j host 0 n m e)

  add_hosts-HasKey :
      (n : ℕ) (hosts : List Bytes) (m : Ring) (host : Bytes) (i : ℕ)
      → In host hosts
      → i < n
      → HasKey (node_key host i) (add_hosts hash_fn n hosts m)
  unfolding add_hosts
  add_hosts-HasKey n [] m host i e h = absurd e
  add_hosts-HasKey n (x ∷ hosts) m host i (inl e) h =
      add_hosts-HasKey_old _ n hosts _
        (rw e (add_virtual_nodes-HasKey x 0 n m i (omega arith) (omega arith)))
  add_hosts-HasKey n (x ∷ hosts) m host i (inr e) h = add_hosts-HasKey n hosts _ host i e h

  -- The ring that AddNodes builds: keys ascend strictly, each entry is a virtual node of a given
  -- host, and each virtual node of each host has its key in the ring.
  pub record IsRingOf (n : ℕ) (hosts : List Bytes) (m : Ring) : Type 0 where
    pub ascending : IsRing m
    pub sound :
        (k : ℕ) (v : Bytes) → Has k v m → In v hosts × ((i : ℕ) × (i < n) × (k ≡ node_key v i))
    pub complete : (v : Bytes) (i : ℕ) → In v hosts → i < n → HasKey (node_key v i) m

  -- AddNodes replaces the ring by the ring of exactly the virtual nodes of the given hosts.
  pub add_nodes-IsRingOf :
      (hosts : List Bytes) (ch : ConsistentHash)
      → IsRingOf ch.m_virtual_node_num hosts (add_nodes hash_fn hosts ch).m_ring
  unfolding add_nodes
  add_nodes-IsRingOf hosts ch = record {
    ascending = add_hosts-IsRing ch.m_virtual_node_num hosts [] tt;
    sound =
        add_hosts-Has
          (λ k v. In v hosts × ((i : ℕ) × (i < ch.m_virtual_node_num) × (k ≡ node_key v i)))
          ch.m_virtual_node_num hosts [] (λ k v e. absurd e) (λ host e j h. (e, (j, h, refl)));
    complete = add_hosts-HasKey ch.m_virtual_node_num hosts [];
  }

  HasKey-ne-nil : (k : ℕ) (m : Ring) → HasKey k m → m ≢ []
  HasKey-ne-nil k [] e = absurd e
  HasKey-ne-nil k (x ∷ m) e = λ p. cc

  -- With a provider and at least one virtual node for each, a key is routed to one of the
  -- providers, the one clockwise next to the key's hash on the ring.
  pub get_target_host-IsSuccessor :
      (key : Bytes) (hosts : List Bytes) (ch : ConsistentHash)
      → hosts ≢ []
      → 0 < ch.m_virtual_node_num
      → let ring = add_nodes hash_fn hosts ch in
        In (get_target_host hash_fn key ring) hosts
        × IsSuccessor (hash hash_fn key) ring.m_ring (get_target_host hash_fn key ring)
  unfolding get_target_host
  get_target_host-IsSuccessor key [] ch ne h = absurd (ne refl)
  get_target_host-IsSuccessor key (x ∷ hosts) ch ne h =
      let ring = add_nodes hash_fn (x ∷ hosts) ch in
      let r = add_nodes-IsRingOf (x ∷ hosts) ch in
      let filled = HasKey-ne-nil _ ring.m_ring (r.complete x 0 (inl refl) h) in
      let s = successor-IsSuccessor (hash hash_fn key) ring.m_ring r.ascending filled in
      let (k, e) = successor-Has _ _ _ s in ((r.sound k _ e).0, s)
