-- ===== src/Tests/Calls.antt =====
-- Runs of src/mprpcchannel.cc, with the length of a name as its hash.
use mprpc_advanced_z.Base.{ℕ, ◌≡◌, refl, false, List, [], ◌∷◌, Option, some, none, arith, length}
use mprpc_advanced_z.Base.Bytes.{Bytes, codes, bytes_beq, bytes_eq}
use mprpc_advanced_z.Base.Decimal.{to_string, atoi_u16}
use mprpc_advanced_z.Base.Maps.{find}
use mprpc_advanced_z.Buffer.{Buffer, IsValid, contents}
use mprpc_advanced_z.ConsistentHash.{get_target_host}
use mprpc_advanced_z.Controller.{Controller}
use mprpc_advanced_z.Wire.{frame}
use mprpc_advanced_z.Provider.{ok, notify_service, on_message}
use mprpc_advanced_z.Provider.Registry.{first_named}
use mprpc_advanced_z.Channel.{
  start_zk_once, locate, lookup_ring, choose, Request, Globals, ready, prepare, World, build_ring,
  hash_key, split_host,
}
use mprpc_advanced_z.Channel.Races.{
  Client, start, call, Reach, here, next, misses, answers, stores, IsLearnt, Reach-start-IsLearnt,
  Reach-start-outdated,
}
use mprpc_advanced_z.Channel.{cached, store_ring}
use mprpc_advanced_z.Channel.Routing.{View, Caches, Routed, header_of, known_after, prepare-Routed}
use mprpc_advanced_z.Channel.Address.{split_host-registered}
use mprpc_advanced_z.Channel.Delivery.{call-delivered}
use mprpc_advanced_z.Tests.Messages.{toy_codec, write_header, echo}

abbrev size : Bytes → ℕ
size s = length s

-- A send that works and a recv that fails.
abbrev broken : World Bytes
broken = record {
  connection = some 5;
  sent = some 3;
  send_errno = 0;
  received = none;
  recv_errno = 104;
  parse_response = λ s. some s;
}

abbrev fine : Controller
fine = record { m_failed = false; m_err_text = [] }

-- One provider, and a request.
abbrev children : Bytes → Option (List Bytes)
children path = some (codes "a:80" ∷ [])

abbrev hi : Request
hi = record { serialized = some (72 ∷ 105 ∷ []); string_field = λ _. none }

abbrev fresh : Globals
fresh = record { g_route_cache = []; g_zk_started = false }

abbrev lost : Bytes → Option (List Bytes)
lost path = none

abbrev nothing : View
nothing path = none

fresh-Caches : Caches size fresh nothing
unfolding find
fresh-Caches q = refl

abbrev message : Bytes
message =
    frame (write_header (header_of (codes "Echo") (codes "Say") (72 ∷ 105 ∷ []))) (72 ∷ 105 ∷ [])

prepared :
    (prepare size toy_codec children (codes "Echo") (codes "Say") hi fresh).0
    ≡ ready (codes "a") 80 message
unfolding prepare locate lookup_ring choose find build_ring get_target_host split_host atoi_u16
    start_zk_once to_string hash_key bytes_beq
prepared = refl

prepare-Routed_example :
    ((hosts : List Bytes) × (known_after size toy_codec children nothing
          (codes "Echo")
          (codes "Say")
        ≡ some hosts)
      × Routed size (hash_key (codes "Echo") (codes "Say") hi) hosts (codes "a") 80)
    × ((hs : Bytes) × (args : Bytes) × (some (72 ∷ 105 ∷ []) ≡ some args)
        × (some (write_header (header_of (codes "Echo") (codes "Say") args)) ≡ some hs)
        × (message ≡ frame hs args))
prepare-Routed_example =
    prepare-Routed size toy_codec children (codes "Echo") (codes "Say") hi fresh nothing (codes "a")
      80 message fresh-Caches prepared

split_host-registered_example : split_host (codes "a:80") ≡ some (codes "a", 80)
unfolding to_string
split_host-registered_example =
    split_host-registered (codes "a") 80 ((ground arith), tt) (omega arith)

abbrev arrived : Buffer
arrived = record { m_buffer = message; m_reader_index = 0; m_writer_index = 16 }

arrived-IsValid : IsValid arrived
unfolding frame
arrived-IsValid = record { ordered = omega arith; inside = omega arith; sized = omega arith }

call-delivered_example :
    (on_message echo toy_codec (notify_service echo tt []) arrived).0 ≡ ok (72 ∷ 105 ∷ [])
unfolding contents frame find first_named bytes_beq
call-delivered_example =
    call-delivered size toy_codec children echo tt [] (codes "Say") (72 ∷ 105 ∷ []) (72 ∷ 105 ∷ [])
      (codes "Echo") (codes "Say") (72 ∷ 105 ∷ [])
      (write_header (header_of (codes "Echo") (codes "Say") (72 ∷ 105 ∷ []))) (72 ∷ 105 ∷ [])
      message hi fresh nothing (codes "a") 80 arrived fresh-Caches prepared refl refl (omega arith)
      (omega arith) refl refl refl refl refl refl arrived-IsValid refl

abbrev say_path : Bytes
say_path = codes "/Echo/Say"

abbrev hosts_a : List Bytes
hosts_a = codes "a:80" ∷ []

abbrev missed : Client
missed = record start { asking = call say_path ∷ [] }

abbrev answered_once : Client
answered_once = record missed {
  asking = [];
  fetched = (say_path, hosts_a) ∷ [];
  learnt = (say_path, hosts_a) ∷ [];
}

abbrev stored_once : Client
stored_once = record answered_once {
  globals = store_ring say_path (build_ring size hosts_a) answered_once.globals;
  fetched = [];
}

stored_once-Reach : Reach size start stored_once
unfolding find
stored_once-Reach =
    let r1 : Reach size start missed = next here (misses say_path refl refl) in
    let r2 : Reach size start answered_once =
      next r1 (answers (call say_path) hosts_a [] [] refl (λ e. cc e) refl) in
    next r2 (stores say_path hosts_a [] [] refl refl)

Reach-start-IsLearnt_example : IsLearnt size stored_once
Reach-start-IsLearnt_example = Reach-start-IsLearnt size stored_once stored_once-Reach

Reach-start-outdated_example :
    (c : Client) × Reach size start c
    × (c.learnt ≡ (say_path, codes "b:81" ∷ []) ∷ (say_path, hosts_a) ∷ [])
    × (cached say_path c.globals ≡ some (build_ring size hosts_a))
    × (c.asking ≡ [])
    × (c.fetched ≡ [])
Reach-start-outdated_example =
    Reach-start-outdated size say_path (codes "a:80") [] (codes "b:81" ∷ [])
