-- ===== src/Example.antt =====
-- example/: the user service (callee/userservice.cc) and its caller (caller/Single_calluserservice.cc). The
-- classes that protoc makes of user.proto are a parameter with the round trips that they promise.
pub mod Login
pub mod Benchmark
use mprpc_advanced_z.Base.{
  ℕ, ◌≡◌, List, [], ◌∷◌, ◌++◌, Option, none, some, Bool, true, false, nat_beq, if◌then◌else◌, ◌==◌,
}
use mprpc_advanced_z.Base.Bytes.{Bytes, codes, bytes_eq}
use mprpc_advanced_z.Base.Maps.{Map}
use mprpc_advanced_z.Config.{File}
use mprpc_advanced_z.Application.{Opt, exits, hangs, started, init}
use mprpc_advanced_z.Log.{Tm}
use mprpc_advanced_z.Wire.{HeaderCodec}
use mprpc_advanced_z.Controller.{Controller, failed, error_text}
use mprpc_advanced_z.Controller
use mprpc_advanced_z.Provider.{ServiceApi, ServiceMap, notify_service}
use mprpc_advanced_z.Registration.{ZooKeeper, Registered, exited}
use mprpc_advanced_z.Registration
use mprpc_advanced_z.Channel.{Request, World, Globals, Finished, call_method}
use mprpc_advanced_z.Channel.Task.{done_runs}

-- message ResultCode; the code is an int32.
pub record ResultCode : Type 0 where
  pub errcode : ℕ
  pub errmsg : Bytes

pub record LoginRequest : Type 0 where
  pub name : Bytes
  pub pwd : Bytes

pub record LoginResponse : Type 0 where
  pub result : ResultCode
  pub success : Bool

-- A new LoginResponse, whose fields are not set.
abbrev pub empty_response : LoginResponse
empty_response = record { result = record { errcode = 0; errmsg = [] }; success = false }

-- The generated classes: SerializeToString and parsing, which reads back what was written.
pub record UserCodec : Type 0 where
  pub write_request : LoginRequest → Option Bytes
  pub read_request : Bytes → Option LoginRequest
  pub write_response : LoginResponse → Option Bytes
  pub read_response : Bytes → Option LoginResponse
  pub read-write_request :
      (r : LoginRequest) (s : Bytes) → write_request r ≡ some s → read_request s ≡ some r
  pub read-write_response :
      (r : LoginResponse) (s : Bytes) → write_response r ≡ some s → read_response s ≡ some r

-- UserService::Login(name, pwd): it prints both and waits a little.
unfoldable pub local_login : Bytes → Bytes → Bool
local_login name pwd = true

-- The override that the provider calls: the response with which it runs its closure.
unfoldable pub login : LoginRequest → LoginResponse
unfolding local_login
login request = record {
  result = record { errcode = 0; errmsg = [] };
  success = local_login request.name request.pwd;
}

-- UserServiceRpc with its one method.
abbrev pub user_service : UserCodec → ServiceApi
user_service codec = record {
  Service = Unit {0};
  Method = Unit {0};
  Request = LoginRequest;
  Response = LoginResponse;
  service_name = λ _. codes "UserServiceRpc";
  methods = λ _. tt ∷ [];
  method_name = λ _. codes "Login";
  parse_request = λ _ _ args. codec.read_request args;
  call = λ _ _ request. some (login request);
  serialize_response = codec.write_response;
}

-- main of the callee up to the event loop: Init, the service in an empty provider, and Run.
unfoldable pub publish :
    (zk : ZooKeeper)
    → UserCodec
    → ℕ
    → List Opt
    → (Bytes → Option File)
    → (Bytes → Bool)
    → Tm
    → zk.Z
    → Option (Registered zk.Z)
unfolding notify_service Registration.run init
publish zk codec argc opts disk fopen tm z = elim (init argc opts disk fopen tm []) [
  | exits ↦ some exited
  | hangs ↦ none
  | started config log ↦
      let api = user_service codec in
      some (Registration.run zk api config (notify_service api tt []) z)
]

-- A LoginRequest as the channel sees it.
unfoldable pub as_request : UserCodec → LoginRequest → Request
as_request codec r = record {
  serialized = codec.write_request r;
  string_field = λ field.
      if field == codes "name"
      then some r.name
      else (if field == codes "pwd" then some r.pwd else none);
}

-- The request of the caller.
abbrev pub paris : LoginRequest
paris = record { name = codes "paris_async"; pwd = codes "123456" }

-- What the caller prints of the result.
unfoldable pub report : Controller → LoginResponse → Bytes
unfolding failed error_text
report controller response =
    if failed controller
    then codes "failed! reason: " ++ error_text controller
    else if nat_beq 0 response.result.errcode
    then codes "success:" ++ (if response.success then codes "1" else codes "0")
    else codes "error:" ++ response.result.errmsg

-- The response object of the caller: what the task has parsed into it, if it has.
abbrev pub response_of : Option LoginResponse → LoginResponse
response_of none = empty_response
response_of (some r) = r

-- The end of the caller's main: what it prints, or `none` if future.wait() does not come back, because
-- the closure, which fulfils the promise, has not run.
unfoldable pub wait_and_print : Finished LoginResponse → Option Bytes
unfolding done_runs report
wait_and_print f =
    if nat_beq (done_runs f.actions) 0
    then none
    else some (report f.controller (response_of f.response))

module _ (hash_fn : Bytes → ℕ) (header_codec : HeaderCodec)
    (get_children : Bytes → Option (List Bytes)) where
  -- `stub.Login(&controller, &request, &response, &closure)`
  unfoldable pub stub_login :
      UserCodec
      → LoginRequest
      → World LoginResponse
      → Controller
      → Globals
      → Finished LoginResponse × Globals
  unfolding as_request call_method
  stub_login codec r w controller g =
      call_method hash_fn header_codec get_children (codes "UserServiceRpc") (codes "Login")
        (as_request codec r) w true controller g

  -- main of the caller behind Init.
  unfoldable pub call_user : UserCodec → World LoginResponse → Globals → Option Bytes
  unfolding stub_login wait_and_print Controller.new
  call_user codec w g = wait_and_print (stub_login codec paris w Controller.new g).0
