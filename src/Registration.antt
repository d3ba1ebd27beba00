-- ===== src/Registration.antt =====
-- RpcProvider::Run of src/rpcprovider.cc and the wrapper of src/zookeeperutil.cc: what a provider
-- writes into ZooKeeper before it serves, and what a client reads. The C client is a parameter.
pub mod Published
pub mod Session
use mprpc_advanced_z.Base.{
  ℕ, ◌+◌, ◌≡◌, List, [], ◌∷◌, ◌++◌, Option, none, some, Bool, true, false, ◌||◌, ◌==◌, ltb,
  if◌then◌else◌, length, take,
}
use mprpc_advanced_z.Base.Bytes.{Bytes, codes, bytes_eq}
use mprpc_advanced_z.Base.Decimal.{to_string, atoi_u16}
use mprpc_advanced_z.Base.Maps.{Map}
use mprpc_advanced_z.Config.{load}
use mprpc_advanced_z.Provider.{ServiceApi, ServiceInfo, ServiceMap}

-- What zoo_exists answers.
pub data Exists : Type 0 where
  zok : Exists
  znonode : Exists
  other : Exists

-- The C client over a state of the ensemble. `has` says which nodes there are; a node that exists is
-- found, and a creation that returns ZOK adds its node and no other.
pub record ZooKeeper : Type 1 where
  pub Z : Type 0
  pub has : Bytes → Z → Bool
  pub zoo_exists : Bytes → Z → Exists
  pub zoo_create : Bytes → Bool → Z → Option Z
  pub zoo_get : Bytes → Z → Option Bytes
  pub zoo_get_children : Bytes → Z → Option (List Bytes)
  pub zoo_exists-has : (path : Bytes) (z : Z) → zoo_exists path z ≡ zok → has path z ≡ true
  pub zoo_create-has :
      (path : Bytes) (ephemeral : Bool) (z z' : Z)
      → zoo_create path ephemeral z ≡ some z'
      → (q : Bytes) → has q z' ≡ (q == path || has q z)

-- How the registration ends: with a state, by exit, or with a path that does not fit its array.
pub data Registered (Z : Type 0) : Type 0 where
  done : Z → Registered Z
  exited : Registered Z
  overflowed : Registered Z

infixl 5 ◌then_do◌
abbrev pub ◌then_do◌ : {Z : Type 0} → Registered Z → (Z → Registered Z) → Registered Z
done z then_do f = f z
exited then_do f = exited
overflowed then_do f = overflowed

-- ZkClient::Start: the address that it connects to.
unfoldable pub connstr : Map Bytes Bytes → Bytes
unfolding load
connstr config =
    load (codes "zookeeperip") config ++ codes ":" ++ load (codes "zookeeperport") config

module _ (zk : ZooKeeper) where
  -- ZkClient::Create: any answer of zoo_exists but ZNONODE is taken as if the node were there.
  unfoldable pub create : Bytes → Bool → zk.Z → Registered zk.Z
  create path ephemeral z = elim (zk.zoo_exists path z) [
    | zok ↦ done z
    | other ↦ done z
    | znonode ↦ elim (zk.zoo_create path ephemeral z) [ none ↦ exited | some z' ↦ done z' ]
  ]

  -- ZkClient::GetData, whose buffer has 64 bytes; a failure is the empty string.
  unfoldable pub get_data : Bytes → zk.Z → Bytes
  get_data path z = elim (zk.zoo_get path z) [ none ↦ [] | some s ↦ take 64 s ]

  -- ZkClient::GetChildren
  unfoldable pub get_children : Bytes → zk.Z → List Bytes
  get_children path z = elim (zk.zoo_get_children path z) [ none ↦ [] | some result ↦ result ]

  module _ (api : ServiceApi) (ip : Bytes) (port : ℕ) where
    abbrev pub host_path : Bytes → Bytes
    host_path method_path = method_path ++ codes "/" ++ ip ++ codes ":" ++ to_string port

    -- The nodes of one method; the path of the provider goes into 128 bytes.
    unfoldable pub register_method : Bytes → Bytes → zk.Z → Registered zk.Z
    unfolding create
    register_method service_path name z =
        let method_path = service_path ++ codes "/" ++ name in
        create method_path false z then_do λ z'.
        if ltb (length (host_path method_path)) 128
        then create (host_path method_path) true z'
        else overflowed

    -- The inner loop.
    unfoldable pub register_methods : Bytes → Map Bytes api.Method → zk.Z → Registered zk.Z
    unfolding register_method
    register_methods service_path [] z = done z
    register_methods service_path ((name, method) ∷ ms) z =
        register_method service_path name z then_do λ z'. register_methods service_path ms z'

    -- The outer loop.
    unfoldable pub register : ServiceMap api → zk.Z → Registered zk.Z
    unfolding register_methods
    register [] z = done z
    register ((name, info) ∷ services) z =
        let service_path = codes "/" ++ name in
        create service_path false z then_do λ z'.
        register_methods service_path info.m_method_map z' then_do λ z''. register services z''

  -- Run up to the event loop.
  unfoldable pub run :
      (api : ServiceApi) → Map Bytes Bytes → ServiceMap api → zk.Z → Registered zk.Z
  unfolding register load atoi_u16
  run api config services z =
      let ip = load (codes "rpcserver_ip") config in
      let port = atoi_u16 (load (codes "rpcserver_port") config) in register api ip port services z
