-- ===== src/Channel/Delivery.antt =====
-- A whole call: from CallMethod of src/mprpcchannel.cc to the service behind src/rpcprovider.cc.
use mprpc_advanced_z.Base.{
  ℕ, ◌+◌, ◌%◌, ◌^◌, ◌<◌, ◌≡◌, ap₂, ◌∙◌, Option, none, some, arith, length, List,
}
use mprpc_advanced_z.Base.Bytes.{Bytes, bytes_eq}
use mprpc_advanced_z.Base.Maps.{find}
use mprpc_advanced_z.Buffer.{Buffer, IsValid, contents}
use mprpc_advanced_z.Wire.{HeaderCodec, frame}
use mprpc_advanced_z.Provider.{ServiceApi, ServiceMap, ok, on_message, notify_service}
use mprpc_advanced_z.Provider.Registry.{first_named}
use mprpc_advanced_z.Provider.EndToEnd.{call-answered}
use mprpc_advanced_z.Channel.{Request, Globals, ready, prepare}
use mprpc_advanced_z.Channel.Routing.{View, Caches, header_of, prepare-Routed}

module _ (hash_fn : Bytes → ℕ) (codec : HeaderCodec) (get_children : Bytes → Option (List Bytes))
    (api : ServiceApi) where
  -- The message that a call sends, when it has arrived whole and alone at a provider that has
  -- published the service, is answered with the encoded response of the service's own code to the
  -- caller's request, for arguments and a header of less than 2 ^ 32 bytes.
  pub call-delivered :
      (service : api.Service) (services : ServiceMap api) (method : api.Method)
      (request : api.Request) (response : api.Response) (s m args hs answer message : Bytes)
      (sent : Request) (g : Globals) (v : View) (ip : Bytes) (port : ℕ) (b : Buffer)
      → Caches hash_fn g v
      → (prepare hash_fn codec get_children s m sent g).0 ≡ ready ip port message
      → sent.serialized ≡ some args
      → codec.serialize (header_of s m args) ≡ some hs
      → length args < 2 ^ 32
      → 4 + length hs < 2 ^ 32
      → find s services ≡ none
      → s ≡ api.service_name service
      → first_named api m (api.methods service) ≡ some method
      → api.parse_request service method args ≡ some request
      → api.call service method request ≡ some response
      → api.serialize_response response ≡ some answer
      → IsValid b
      → contents b ≡ message
      → (on_message api codec (notify_service api service services) b).0 ≡ ok answer
  call-delivered service services method request response s m args hs answer message sent g v ip
        port b h e a t n l f k d p c q valid arrived =
      let (routed, (hs', args', a', t', framed)) =
        prepare-Routed hash_fn codec get_children s m sent g v ip port message h e in
      let same_args : args' ≡ args = ground (arith, a, a') in
      let same_header : hs' ≡ hs = ground (arith, same_args, t, t') in
      let sized : length args % 2 ^ 32 ≡ length args = omega arith in
      call-answered api codec service services method request response (header_of s m args) hs args
        answer b (ground (arith, f, k)) d k sized t l p c q valid
        (arrived ∙ framed ∙ ap₂ frame same_header same_args)
