-- ===== src/Tests/Examples.antt =====
-- Runs of example/, with a codec that puts lengths in front.
use mprpc_advanced_z.Base.{
  ℕ, ◌≡◌, refl, sym, ap, ap₂, ◌∙◌, Bool, true, false, List, [], ◌∷◌, ◌++◌, Option, some, none,
  arith, length, take, drop, take-append, drop-append, nat_beq, if◌then◌else◌,
}
use mprpc_advanced_z.Base.Bytes.{Bytes, codes, bytes_beq, bytes_eq}
use mprpc_advanced_z.Base.Decimal.{to_string, atoi_u16}
use mprpc_advanced_z.Base.Maps.{find}
use mprpc_advanced_z.Buffer.{Buffer, IsValid, contents}
use mprpc_advanced_z.ConsistentHash.{get_target_host}
use mprpc_advanced_z.Wire.{frame}
use mprpc_advanced_z.Provider.{ok, notify_service, on_message}
use mprpc_advanced_z.Channel.{
  start_zk_once, locate, lookup_ring, choose, Globals, ready, prepare, build_ring, hash_key,
  split_host,
}
use mprpc_advanced_z.Channel.Routing.{View, Caches, header_of}
use mprpc_advanced_z.Example.{
  LoginRequest, LoginResponse, UserCodec, login, local_login, user_service, as_request, paris,
  call_user, empty_response,
}
use mprpc_advanced_z.Example.Login.{answered, login-succeeds}
use mprpc_advanced_z.Example.Benchmark.{
  Bench, tests, sleeps, prints, begin, judge, succeeded, complete, test, Step, judges, completes,
  main_tests, Reach, here, next,
}
use mprpc_advanced_z.Example.Benchmark.Waiting.{
  IsCounting, Reach-begin-IsCounting, Reach-begin-sleeps,
}
use mprpc_advanced_z.Tests.Messages.{toy_codec, write_header}

abbrev write_request : LoginRequest → Bytes
write_request r = length r.name ∷ (r.name ++ r.pwd)

abbrev read_request : Bytes → Option LoginRequest
read_request [] = none
read_request (n ∷ rest) = some (record { name = take n rest; pwd = drop n rest })

abbrev bind_request : Option Bytes → Option LoginRequest
bind_request none = none
bind_request (some s) = read_request s

read-write_request :
    (r : LoginRequest) (s : Bytes) → some (write_request r) ≡ some s → read_request s ≡ some r
read-write_request r s e =
    ap bind_request (sym e)
    ∙ ap₂ (λ (x y : Bytes). some (record { name = x; pwd = y }))
        (take-append r.name r.pwd (length r.name) refl)
        (drop-append r.name r.pwd (length r.name) refl)

abbrev write_response : LoginResponse → Bytes
write_response r = r.result.errcode ∷ (if r.success then 1 else 0) ∷ r.result.errmsg

abbrev read_response : Bytes → Option LoginResponse
read_response [] = none
read_response (c ∷ []) = none
read_response (c ∷ b ∷ msg) =
    some (record { result = record { errcode = c; errmsg = msg }; success = nat_beq b 1 })

abbrev bind_response : Option Bytes → Option LoginResponse
bind_response none = none
bind_response (some s) = read_response s

read-flag : (b : Bool) → nat_beq (if b then 1 else 0) 1 ≡ b
read-flag true = refl
read-flag false = refl

read-write_response :
    (r : LoginResponse) (s : Bytes) → some (write_response r) ≡ some s → read_response s ≡ some r
read-write_response r s e =
    ap bind_response (sym e)
    ∙ ap (λ (b : Bool). some (record { result = r.result; success = b })) (read-flag r.success)

abbrev toy_users : UserCodec
toy_users = record {
  write_request = λ r. some (write_request r);
  read_request = read_request;
  write_response = λ r. some (write_response r);
  read_response = read_response;
  read-write_request = read-write_request;
  read-write_response = read-write_response;
}

abbrev size : Bytes → ℕ
size s = length s

abbrev children : Bytes → Option (List Bytes)
children path = some (codes "a:80" ∷ [])

abbrev nobody : Bytes → Option (List Bytes)
nobody path = none

abbrev fresh : Globals
fresh = record { g_route_cache = []; g_zk_started = false }

abbrev nothing : View
nothing path = none

fresh-Caches : Caches size fresh nothing
unfolding find
fresh-Caches q = refl

abbrev head : Bytes
head = write_header (header_of (codes "UserServiceRpc") (codes "Login") (write_request paris))

abbrev message : Bytes
message = frame head (write_request paris)

routed :
    (prepare size toy_codec children
      (codes "UserServiceRpc")
      (codes "Login")
      (as_request toy_users paris)
      fresh).0
    ≡ ready (codes "a") 80 message
unfolding prepare locate lookup_ring choose find build_ring get_target_host split_host atoi_u16
    start_zk_once to_string hash_key bytes_beq as_request
routed = refl

abbrev arrived : Buffer
arrived = record { m_buffer = message; m_reader_index = 0; m_writer_index = 44 }

arrived-IsValid : IsValid arrived
unfolding frame
arrived-IsValid = record { ordered = omega arith; inside = omega arith; sized = omega arith }

login-succeeds_example :
    ((on_message
        (user_service toy_users)
        toy_codec
        (notify_service (user_service toy_users) tt [])
        arrived).0
      ≡ ok (0 ∷ 1 ∷ []))
    × (call_user size toy_codec children toy_users (answered toy_users 7 44 (0 ∷ 1 ∷ [])) fresh
        ≡ some (codes "success:1"))
unfolding contents frame find login local_login
login-succeeds_example =
    login-succeeds size toy_codec children toy_users [] (write_request paris) head (0 ∷ 1 ∷ [])
      message (codes "a") 80 7 44 fresh nothing arrived fresh-Caches routed refl refl (omega arith)
      (omega arith) refl refl arrived-IsValid refl

-- The call's closure has counted it, and the main thread has printed.
abbrev judged : Bench
judged = record {
  pending = 0;
  lost = 0;
  counting = 1;
  success_count = 1;
  completed_count = 0;
  notifying = false;
  main = tests;
}

abbrev completed : Bench
completed = record judged { counting = 0; completed_count = 1; notifying = true }

abbrev printed : Bench
printed = record completed { main = prints }

printed-Reach : Reach 1 (begin 1) printed
unfolding begin judge succeeded complete test
printed-Reach =
    let r1 : Reach 1 (begin 1) judged =
      next here
        (judges 0 (record { m_failed = false; m_err_text = [] }) empty_response refl refl) in
    let r2 : Reach 1 (begin 1) completed = next r1 (completes 0 refl refl) in
    next r2 (main_tests refl refl)

Reach-begin-IsCounting_example : IsCounting 1 printed
Reach-begin-IsCounting_example = Reach-begin-IsCounting 1 printed printed-Reach

Reach-begin-sleeps_example :
    (b : Bench) × Reach 2 (begin 2) b
    × (b.completed_count ≡ 2)
    × (b.main ≡ sleeps)
    × ((c : Bench) → Step 2 b c → c ≡ record b { main = tests })
Reach-begin-sleeps_example = Reach-begin-sleeps 2 (ground arith)
