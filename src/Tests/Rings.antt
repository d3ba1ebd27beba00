-- ===== src/Tests/Rings.antt =====
-- Runs of src/include/ConsistentHash.h, with the length of a name as its hash.
use mprpc_advanced_z.Base.{
  ℕ, ◌≡◌, ◌⊎◌, ◌↔◌, inl, inr, sym, ap, ◌∙◌, List, [], ◌∷◌, ◌++◌, arith, length,
}
use mprpc_advanced_z.Base.Bytes.{Bytes, codes}
use mprpc_advanced_z.ConsistentHash.{ConsistentHash, add_nodes, get_target_host, hash}
use mprpc_advanced_z.ConsistentHash.Order.{IsSuccessor}
use mprpc_advanced_z.ConsistentHash.Nodes.{In, node_key, get_target_host-IsSuccessor}
use mprpc_advanced_z.ConsistentHash.Agreement.{Apart, add_nodes-agrees}
use mprpc_advanced_z.ConsistentHash.Stability.{get_target_host-join}

abbrev size : Bytes → ℕ
size s = length s

abbrev hosts : List Bytes
hosts = codes "a:1" ∷ codes "bb:22" ∷ []

abbrev ring : ConsistentHash
ring = record { m_virtual_node_num = 2; m_ring = [] }

get_target_host-IsSuccessor_example :
    In (get_target_host size (codes "Login") (add_nodes size hosts ring)) hosts
    × IsSuccessor
        (hash size (codes "Login"))
        (add_nodes size hosts ring).m_ring
        (get_target_host size (codes "Login") (add_nodes size hosts ring))
get_target_host-IsSuccessor_example =
    get_target_host-IsSuccessor size (codes "Login") hosts ring (λ e. cc) (omega arith)

get_target_host-join_example :
    (get_target_host size (codes "Login") (add_nodes size (hosts ++ codes "c:3" ∷ []) ring)
      ≡ get_target_host size (codes "Login") (add_nodes size hosts ring))
    ⊎ (get_target_host size (codes "Login") (add_nodes size (hosts ++ codes "c:3" ∷ []) ring)
        ≡ codes "c:3")
get_target_host-join_example = get_target_host-join size (codes "Login") (codes "c:3") hosts ring

-- Another hash, the first byte of a name, by which the two hosts are apart.
abbrev initial : Bytes → ℕ
initial [] = 0
initial (b ∷ s) = b

abbrev swapped : List Bytes
swapped = codes "bb:22" ∷ codes "a:1" ∷ []

both_ways : (v : Bytes) → In v hosts ↔ In v swapped
both_ways v = (
  λ e. elim e [ inl p ↦ inr (inl p) | inr r ↦ elim r [ inl p ↦ inl p | inr q ↦ absurd q ] ],
  λ e. elim e [ inl p ↦ inr (inl p) | inr r ↦ elim r [ inl p ↦ inl p | inr q ↦ absurd q ] ],
)

initial_key :
    (v : Bytes) (i : ℕ)
    → In v swapped
    → ((v ≡ codes "bb:22") × (node_key initial v i ≡ 98))
      ⊎ ((v ≡ codes "a:1") × (node_key initial v i ≡ 97))
unfolding hash
initial_key v i (inl p) = inl (p, ap (λ (u : Bytes). node_key initial u i) p)
initial_key v i (inr (inl p)) = inr (p, ap (λ (u : Bytes). node_key initial u i) p)
initial_key v i (inr (inr e)) = absurd e

swapped-Apart : Apart initial 2 swapped
swapped-Apart v w i j a b h k e = elim (initial_key v i a) [
  | inl (p, x) ↦ elim (initial_key w j b) [
    | inl (q, y) ↦ p ∙ sym q
    | inr (q, y) ↦ absurd (omega (arith, e, x, y))
  ]
  | inr (p, x) ↦ elim (initial_key w j b) [
    | inl (q, y) ↦ absurd (omega (arith, e, x, y))
    | inr (q, y) ↦ p ∙ sym q
  ]
]

add_nodes-agrees_example :
    ((add_nodes initial hosts ring).m_ring ≡ (add_nodes initial swapped ring).m_ring)
    × ((key : Bytes)
        → get_target_host initial key (add_nodes initial hosts ring)
          ≡ get_target_host initial key (add_nodes initial swapped ring))
add_nodes-agrees_example = add_nodes-agrees initial hosts swapped ring both_ways swapped-Apart
