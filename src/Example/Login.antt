-- ===== src/Example/Login.antt =====
-- example/caller/Single_calluserservice.cc and example/callee/userservice.cc: a login from end to end.
use mprpc_advanced_z.Base.{
  ℕ, ◌+◌, ◌^◌, ◌<◌, ◌≡◌, ◌⊎◌, inl, inr, refl, ap, List, [], Option, none, some, true, length, arith,
}
use mprpc_advanced_z.Base.Bytes.{Bytes, codes, bytes_eq, bytes_beq}
use mprpc_advanced_z.Base.Maps.{find}
use mprpc_advanced_z.Buffer.{Buffer, IsValid, contents}
use mprpc_advanced_z.Wire.{HeaderCodec}
use mprpc_advanced_z.Controller.{Controller, failed}
use mprpc_advanced_z.Controller
use mprpc_advanced_z.Provider.{ServiceMap, ok, on_message, notify_service}
use mprpc_advanced_z.Provider.Registry.{first_named}
use mprpc_advanced_z.Channel.{
  Globals, World, gave_up, ready, prepare, rpc_task, call_method, run_done, Finished,
}
use mprpc_advanced_z.Channel.Routing.{View, Caches, header_of}
use mprpc_advanced_z.Channel.Task.{done_runs, call_method_done}
use mprpc_advanced_z.Channel.Delivery.{call-delivered}
use mprpc_advanced_z.Example.{
  UserCodec, LoginResponse, login, local_login, user_service, as_request, paris, report, stub_login,
  call_user, wait_and_print, response_of,
}

-- A task that gets a connection, sends, and receives the bytes.
abbrev pub answered : UserCodec → ℕ → ℕ → Bytes → World LoginResponse
answered codec fd n bytes = record {
  connection = some fd;
  sent = some n;
  send_errno = 0;
  received = some bytes;
  recv_errno = 0;
  parse_response = codec.read_response;
}

wait_and_print-none : (f : Finished LoginResponse) → f.actions ≡ [] → wait_and_print f ≡ none
unfolding wait_and_print done_runs
wait_and_print-none f e = ground (arith, ap done_runs e)

wait_and_print-some :
    (f : Finished LoginResponse)
    → done_runs f.actions ≡ 1
    → (printed : Bytes) × (wait_and_print f ≡ some printed)
unfolding wait_and_print
wait_and_print-some f e = (report f.controller (response_of f.response), ground (arith, e))

module _ (hash_fn : Bytes → ℕ) (header_codec : HeaderCodec)
    (get_children : Bytes → Option (List Bytes)) where
  -- The caller's login, when its message arrives whole and alone at a provider that has published the
  -- user service, is answered with the encoding of the service's response, and the caller, which
  -- receives that answer, prints that the login has succeeded. The provider is found, and the
  -- arguments and the header have less than 2 ^ 32 bytes.
  pub login-succeeds :
      (codec : UserCodec) (services : ServiceMap (user_service codec))
      (args hs answer message ip : Bytes) (port fd n : ℕ) (g : Globals) (v : View) (b : Buffer)
      → Caches hash_fn g v
      → (prepare hash_fn header_codec get_children
          (codes "UserServiceRpc")
          (codes "Login")
          (as_request codec paris)
          g).0
        ≡ ready ip port message
      → codec.write_request paris ≡ some args
      → header_codec.serialize (header_of (codes "UserServiceRpc") (codes "Login") args) ≡ some hs
      → length args < 2 ^ 32
      → 4 + length hs < 2 ^ 32
      → find (codes "UserServiceRpc") services ≡ none
      → codec.write_response (login paris) ≡ some answer
      → IsValid b
      → contents b ≡ message
      → ((on_message
            (user_service codec)
            header_codec
            (notify_service (user_service codec) tt services)
            b).0
          ≡ ok answer)
        × (call_user hash_fn header_codec get_children codec (answered codec fd n answer) g
            ≡ some (codes "success:1"))
  unfolding as_request first_named call_user wait_and_print stub_login call_method rpc_task run_done
      done_runs report failed Controller.new login local_login bytes_beq prepare
  login-succeeds codec services args hs answer message ip port fd n g v b c p a h l k f w q e =
      let back = codec.read-write_response (login paris) answer w in
      (
        call-delivered hash_fn header_codec get_children (user_service codec) tt services tt paris
            (login paris) (codes "UserServiceRpc") (codes "Login") args hs answer message
            (as_request codec paris) g v ip port b c p a h l k f refl refl
            (codec.read-write_request paris args a) refl w q e,
        rw (p, back) refl,
      )

  -- The caller comes back from its wait exactly when its call has got as far as the task: a call that
  -- gives up before leaves the caller waiting for good, whatever the network does.
  call_user_waits :
      (codec : UserCodec) (w : World LoginResponse) (g : Globals)
      → let p =
          prepare hash_fn header_codec get_children
            (codes "UserServiceRpc")
            (codes "Login")
            (as_request codec paris)
            g in
        ((reason : Bytes) × (p.0 ≡ gave_up reason)
          × (call_user hash_fn header_codec get_children codec w g ≡ none))
        ⊎ (((ip : Bytes) × (port : ℕ) × (message : Bytes) × (p.0 ≡ ready ip port message))
            × ((printed : Bytes) × (call_user hash_fn header_codec get_children codec w g
                  ≡ some printed)))
  unfolding call_user stub_login
  call_user_waits codec w g =
      let f =
        (call_method hash_fn header_codec get_children (codes "UserServiceRpc") (codes "Login")
          (as_request codec paris) w true Controller.new g).0 in
      elim (call_method_done hash_fn header_codec get_children (codes "UserServiceRpc")
        (codes "Login") (as_request codec paris) w true Controller.new g) [
          | inl (reason, e, c, r, a) ↦ inl (reason, e, wait_and_print-none f a)
          | inr (e, runs) ↦ inr (e, wait_and_print-some f runs)
        ]
