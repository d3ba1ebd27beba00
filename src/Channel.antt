-- ===== src/Channel.antt =====
-- src/mprpcchannel.cc: the client's side of a call. CallMethod lays the message out, finds the
-- provider and runs the task that sends the message and waits for the answer. Protobuf's request and
-- response, ZooKeeper's children and the results of the socket calls are parameters.
pub mod Routing
pub mod Task
pub mod Address
pub mod Delivery
pub mod Races
use mprpc_advanced_z.Base.{
  ℕ, ◌+◌, ◌%◌, ◌^◌, ◌-◌, List, [], ◌∷◌, ◌++◌, Option, none, some, Bool, true, false, ◌&&◌, ◌==◌,
  if◌then◌else◌, length, take, drop,
}
use mprpc_advanced_z.Base.Bytes.{Bytes, codes, find_char, bytes_eq}
use mprpc_advanced_z.Base.Decimal.{to_string, atoi_u16}
use mprpc_advanced_z.Base.Maps.{Map, find, assign}
use mprpc_advanced_z.ConsistentHash.{
  ConsistentHash, add_nodes, get_target_host, default_virtual_node_num,
}
use mprpc_advanced_z.ConsistentHash
use mprpc_advanced_z.Controller.{Controller, set_failed}
use mprpc_advanced_z.Wire.{RpcHeader, HeaderCodec, frame}

-- google::protobuf::Message of a request: SerializeToString, and the string field of a given name.
pub record Request : Type 0 where
  pub serialized : Option Bytes
  pub string_field : Bytes → Option Bytes

-- The globals of the file: g_route_cache, and whether g_zk_init_flag has been used.
pub record Globals : Type 0 where
  pub g_route_cache : Map Bytes ConsistentHash
  pub g_zk_started : Bool

-- How CallMethod leaves its first part: by SetFailed and `return`, or with the task's captures.
pub data Prepared : Type 0 where
  gave_up : Bytes → Prepared
  ready : Bytes → ℕ → Bytes → Prepared

unfoldable pub method_path : Bytes → Bytes → Bytes
method_path service_name method_name = codes "/" ++ service_name ++ codes "/" ++ method_name

-- The key that is hashed: the method's name, but for Login the user's.
unfoldable pub hash_key : Bytes → Bytes → Request → Bytes
hash_key service_name method_name request =
    if service_name == codes "UserServiceRpc" && method_name == codes "Login"
    then elim (request.string_field (codes "name")) [ none ↦ method_name | some s ↦ s ]
    else method_name

-- `host_data` split at its first colon into `ip` and `port`, a number that fits an int, as atoi needs.
unfoldable pub split_host : Bytes → Option (Bytes × ℕ)
unfolding find_char atoi_u16
split_host host_data = elim (find_char b':' host_data) [
  | none ↦ none
  | some idx ↦ some (take idx host_data, atoi_u16 (drop (idx + 1) host_data))
]

-- Step 4.1: std::call_once.
unfoldable pub start_zk_once : Globals → Globals
start_zk_once g = record g { g_zk_started = true }

-- Step 4.2, under the mutex: the ring of the path in the cache.
abbrev pub cached : Bytes → Globals → Option ConsistentHash
cached path g = find path g.g_route_cache

-- The end of step 4.3 and of the watcher, under the mutex again: the path's ring in the cache.
abbrev pub store_ring : Bytes → ConsistentHash → Globals → Globals
store_ring path ch g = record g { g_route_cache = assign path ch g.g_route_cache }

module _ (hash_fn : Bytes → ℕ) where
  -- The ring of a list of children.
  unfoldable pub build_ring : List Bytes → ConsistentHash
  unfolding add_nodes ConsistentHash.new
  build_ring hosts = add_nodes hash_fn hosts (ConsistentHash.new default_virtual_node_num)

  -- ZkChildWatcher: what `zoo_wget_children` returns, if it returns ZOK, becomes the path's new ring. No
  -- other thread is between the query and the mutex.
  unfoldable pub zk_child_watcher : Bool → Bytes → Option (List Bytes) → Globals → Globals
  unfolding build_ring assign
  zk_child_watcher is_child_event path children g =
      if is_child_event
      then (elim children [ none ↦ g | some hosts ↦ store_ring path (build_ring hosts) g ])
      else g

  -- Steps 4.2 and 4.3: the ring, from the cache or from ZooKeeper, or the reason to give up. This is the
  -- whole of a call between whose two stretches under the mutex no other thread is.
  unfoldable pub lookup_ring :
      (Bytes → Option (List Bytes)) → Bytes → Globals → (Option ConsistentHash × Bytes) × Globals
  unfolding build_ring find assign
  lookup_ring get_children path g = elim (cached path g) [
    | some ch ↦ ((some ch, []), g)
    | none ↦ elim (get_children path) [
      | none ↦ ((none, path ++ codes " get children error!"), g)
      | some [] ↦ ((none, path ++ codes " is not exist or no provider!"), g)
      | some (x ∷ hosts) ↦
          ((some (build_ring (x ∷ hosts)), []), store_ring path (build_ring (x ∷ hosts)) g)
    ]
  ]

  -- Step 4.4 and the address: from the ring to the task's captures.
  unfoldable pub choose : Bytes → Bytes → Bytes → ConsistentHash → Prepared
  unfolding get_target_host split_host
  choose path key send_rpc_str ch = elim (split_host (get_target_host hash_fn key ch)) [
    | none ↦ gave_up (path ++ codes " address is invalid!")
    | some (ip, port) ↦ ready ip port send_rpc_str
  ]

  module _ (codec : HeaderCodec) (get_children : Bytes → Option (List Bytes)) where
    -- Steps 4 to the task, with the message laid out.
    unfoldable pub locate : Bytes → Bytes → Request → Bytes → Globals → Prepared × Globals
    locate service_name method_name request send_rpc_str g =
        let path = method_path service_name method_name in
        let found = lookup_ring get_children path (start_zk_once g) in
        elim found.0.0 [
          | none ↦ (gave_up found.0.1, found.1)
          | some ch ↦
              (choose path (hash_key service_name method_name request) send_rpc_str ch, found.1)
        ]

    -- CallMethod up to the task.
    unfoldable pub prepare : Bytes → Bytes → Request → Globals → Prepared × Globals
    prepare service_name method_name request g = elim request.serialized [
      | none ↦ (gave_up (codes "serialize request error!"), g)
      | some args_str ↦
          let header : RpcHeader = record {
            service_name = service_name;
            method_name = method_name;
            args_size = length args_str % 2 ^ 32;
          } in
          elim (codec.serialize header) [
            | none ↦ (gave_up (codes "serialize rpc header error!"), g)
            | some rpc_header_str ↦
                locate service_name method_name request (frame rpc_header_str args_str) g
          ]
    ]

-- What the task does to the connection and to the caller.
pub data Action : Type 0 where
  closed : ℕ → Action
  released : Bytes → ℕ → ℕ → Action
  ran_done : Action

-- What the world answers to one task: GetConnection, send and recv, each with -1 as `none`, the errno
-- values, and ParseFromArray on what was received.
pub record World {ℓ} (Response : Type ℓ) : Type ℓ where
  pub connection : Option ℕ
  pub sent : Option ℕ
  pub send_errno : ℕ
  pub received : Option Bytes
  pub recv_errno : ℕ
  pub parse_response : Bytes → Option Response

pub record Finished {ℓ} (Response : Type ℓ) : Type ℓ where
  pub controller : Controller
  pub response : Option Response
  pub actions : List Action

-- `if (done) done->Run()`
unfoldable pub run_done : Bool → List Action
run_done true = ran_done ∷ []
run_done false = []

module _ {ℓ} {Response : Type ℓ} where
  -- `rpc_task`
  unfoldable pub rpc_task : World Response → Bytes → ℕ → Bool → Controller → Finished Response
  unfolding run_done set_failed
  rpc_task w ip port done controller = elim w.connection [
    | none ↦ record {
      controller = set_failed (codes "get connection from pool error!") controller;
      response = none;
      actions = run_done done;
    }
    | some clientfd ↦ elim w.sent [
      | none ↦ record {
        controller = set_failed (codes "send error! errno:" ++ to_string w.send_errno) controller;
        response = none;
        actions = closed clientfd ∷ run_done done;
      }
      | some n ↦ elim w.received [
        | none ↦ record {
          controller = set_failed (codes "recv error! errno:" ++ to_string w.recv_errno) controller;
          response = none;
          actions = closed clientfd ∷ run_done done;
        }
        | some recv_buf ↦ elim (w.parse_response recv_buf) [
          | none ↦ record {
            controller = set_failed (codes "parse response error!") controller;
            response = none;
            actions = released ip port clientfd ∷ run_done done;
          }
          | some r ↦ record {
            controller = controller;
            response = some r;
            actions = released ip port clientfd ∷ run_done done;
          }
        ]
      ]
    ]
  ]

  module _ (hash_fn : Bytes → ℕ) (codec : HeaderCodec)
      (get_children : Bytes → Option (List Bytes)) where
    -- CallMethod, its task included; a task on a thread of its own does the same.
    unfoldable pub call_method :
        Bytes
        → Bytes
        → Request
        → World Response
        → Bool
        → Controller
        → Globals
        → Finished Response × Globals
    call_method service_name method_name request w done controller g =
        let p = prepare hash_fn codec get_children service_name method_name request g in
        elim p.0 [
          | gave_up reason ↦ (
            record { controller = set_failed reason controller; response = none; actions = [] },
            p.1,
          )
          | ready ip port send_rpc_str ↦ (rpc_task w ip port done controller, p.1)
        ]
