-- ===== src/Channel/Routing.antt =====
-- The cache of rings in src/mprpcchannel.cc, and where it sends a call.
use mprpc_advanced_z.Base.{
  ℕ, ◌%◌, ◌^◌, length, ◌≡◌, refl, ap, ◌∙◌, inl, inr, List, [], ◌∷◌, Option, none, some, arith, ◌==◌,
  if◌then◌else◌, Option-cases,
}
use mathlib.Core.Option
use mprpc_advanced_z.Base.Bytes.{Bytes, bytes_eq, bytes_beq_iff}
use mprpc_advanced_z.Base.Maps.{find}
use mprpc_advanced_z.ConsistentHash.{
  ConsistentHash, successor, get_target_host, add_nodes, default_virtual_node_num,
}
use mprpc_advanced_z.ConsistentHash
use mprpc_advanced_z.ConsistentHash.Nodes.{In, get_target_host-IsSuccessor}
use mprpc_advanced_z.Wire.{RpcHeader, HeaderCodec, frame}
use mprpc_advanced_z.Channel.{
  Request, Globals, ready, method_path, hash_key, split_host, build_ring, start_zk_once,
  lookup_ring, choose, locate, prepare,
}

-- The providers that the client knows of, path by path.
abbrev pub View : Type 0
View = Bytes → Option (List Bytes)

abbrev pub update : Bytes → List Bytes → View → View
update path hosts v q = if path == q then some hosts else v q

-- A first call that finds providers sets the view.
unfoldable pub see : Bytes → Option (List Bytes) → View → View
see path none v = v
see path (some []) v = v
see path (some (x ∷ hosts)) v = elim (v path) [ none ↦ update path (x ∷ hosts) v | some _ ↦ v ]

-- The header of a call.
abbrev pub header_of : Bytes → Bytes → Bytes → RpcHeader
header_of s m args = record { service_name = s; method_name = m; args_size = length args % 2 ^ 32 }

module _ (hash_fn : Bytes → ℕ) where
  -- The cache holds the ring of what the client knows.
  abbrev pub Caches : Globals → View → Type 0
  Caches g v = (q : Bytes) → find q g.g_route_cache ≡ Option.map (build_ring hash_fn) (v q)

  lookup_ring-by_cases :
      (get_children : Bytes → Option (List Bytes)) (path : Bytes) (g : Globals) (v : View)
      → Caches g v
      → (answer known : Option (List Bytes)) → get_children path ≡ answer
      → v path ≡ known
      → (lookup_ring hash_fn get_children path g).0.0
        ≡ Option.map (build_ring hash_fn) (see path answer v path)
  unfolding lookup_ring see
  lookup_ring-by_cases gc path g v h none none a k = ground (arith, h path)
  lookup_ring-by_cases gc path g v h (some []) none a k = ground (arith, h path)
  lookup_ring-by_cases gc path g v h (some (x ∷ hosts)) none a k =
      ground (arith, h path, bytes_beq_iff path path)
  lookup_ring-by_cases gc path g v h none (some known) a k = ground (arith, h path)
  lookup_ring-by_cases gc path g v h (some []) (some known) a k = ground (arith, h path)
  lookup_ring-by_cases gc path g v h (some (x ∷ hosts)) (some known) a k = ground (arith, h path)

  -- The ring that a call uses is that of the providers that the client knows of after its lookup.
  lookup_ring-view :
      (get_children : Bytes → Option (List Bytes)) (path : Bytes) (g : Globals) (v : View)
      → Caches g v
      → (lookup_ring hash_fn get_children path g).0.0
        ≡ Option.map (build_ring hash_fn) (see path (get_children path) v path)
  lookup_ring-view gc path g v h = lookup_ring-by_cases gc path g v h (gc path) (v path) refl refl

  -- What a task knows of its address.
  abbrev pub Routed : Bytes → List Bytes → Bytes → ℕ → Type 0
  Routed key hosts ip port =
      In (get_target_host hash_fn key (build_ring hash_fn hosts)) hosts
      × (split_host (get_target_host hash_fn key (build_ring hash_fn hosts)) ≡ some (ip, port))

  choose-split :
      (path key message : Bytes) (ch : ConsistentHash) (ip : Bytes) (port : ℕ) (message' : Bytes)
      → choose hash_fn path key message ch ≡ ready ip port message'
      → (split_host (get_target_host hash_fn key ch) ≡ some (ip, port)) × (message' ≡ message)
  unfolding choose
  choose-split path key message ch ip port message' e = ground arith

  target-In :
      (key : Bytes) (hosts : List Bytes) (ip : Bytes) (port : ℕ)
      → split_host (get_target_host hash_fn key (build_ring hash_fn hosts)) ≡ some (ip, port)
      → In (get_target_host hash_fn key (build_ring hash_fn hosts)) hosts
  unfolding build_ring
  target-In key [] ip port e = unfold get_target_host split_host in cc e
  target-In key (x ∷ hosts) ip port e =
      (get_target_host-IsSuccessor hash_fn key (x ∷ hosts)
        (ConsistentHash.new default_virtual_node_num) (λ p. cc) (omega arith)).0

  choose-Routed :
      (path key message : Bytes) (hosts : List Bytes) (ip : Bytes) (port : ℕ) (message' : Bytes)
      → choose hash_fn path key message (build_ring hash_fn hosts) ≡ ready ip port message'
      → Routed key hosts ip port × (message' ≡ message)
  choose-Routed path key message hosts ip port message' e =
      let (split, same) = choose-split path key message _ ip port message' e in
      ((target-In key hosts ip port split, split), same)

  module _ (codec : HeaderCodec) (get_children : Bytes → Option (List Bytes)) where
    -- The providers that a call of the method chooses among.
    abbrev pub known_after : View → Bytes → Bytes → Option (List Bytes)
    known_after v s m = let path = method_path s m in see path (get_children path) v path

    locate-Routed :
        (s m message : Bytes) (request : Request) (g : Globals) (v : View) (ip : Bytes) (port : ℕ)
        (message' : Bytes)
        → Caches g v
        → (locate hash_fn codec get_children s m request message g).0 ≡ ready ip port message'
        → (hosts : List Bytes) × (known_after v s m ≡ some hosts)
          × Routed (hash_key s m request) hosts ip port
          × (message' ≡ message)
    unfolding locate
    locate-Routed s m message request g v ip port message' h e =
        let path = method_path s m in
        let ring =
          lookup_ring-view get_children path (start_zk_once g) v (unfold start_zk_once in h) in
        elim (Option-cases (known_after v s m)) [
          | inl k ↦
              let none_found : (lookup_ring hash_fn get_children path (start_zk_once g)).0.0
                  ≡ none =
                ring ∙ ap (Option.map (build_ring hash_fn)) k in
              absurd (ground (arith, none_found))
          | inr (hosts, k) ↦
              let found : (lookup_ring hash_fn get_children path (start_zk_once g)).0.0
                  ≡ some (build_ring hash_fn hosts) =
                ring ∙ ap (Option.map (build_ring hash_fn)) k in
              let (routed, same) =
                choose-Routed path (hash_key s m request) message hosts ip port message'
                  (ground (arith, found)) in
              (hosts, k, routed, same)
        ]

    -- With a cache that holds what the client knows, a call that gets as far as its task addresses a
    -- provider that is registered for the method: the one that the ring of the known providers gives
    -- for the call's key. The message is the frame of the encoded header and the arguments. No other
    -- thread stores a ring between the call's look at the cache and its own store.
    pub prepare-Routed :
        (s m : Bytes) (request : Request) (g : Globals) (v : View) (ip : Bytes) (port : ℕ)
        (message : Bytes)
        → Caches g v
        → (prepare hash_fn codec get_children s m request g).0 ≡ ready ip port message
        → ((hosts : List Bytes) × (known_after v s m ≡ some hosts)
            × Routed (hash_key s m request) hosts ip port)
          × ((hs : Bytes) × (args : Bytes) × (request.serialized ≡ some args)
              × (codec.serialize (header_of s m args) ≡ some hs)
              × (message ≡ frame hs args))
    unfolding prepare
    prepare-Routed s m request g v ip port message h e = elim (Option-cases request.serialized) [
      | inl a ↦ absurd (ground arith)
      | inr (args, a) ↦ elim (Option-cases (codec.serialize (header_of s m args))) [
        | inl b ↦ absurd (ground arith)
        | inr (hs, b) ↦
            let (hosts, k, routed, same) =
              locate-Routed s m (frame hs args) request g v ip port message h (ground arith) in
            ((hosts, k, routed), (hs, args, a, b, same))
      ]
    ]
