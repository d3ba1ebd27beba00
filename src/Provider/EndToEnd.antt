-- ===== src/Provider/EndToEnd.antt =====
-- A call from the message of src/mprpcchannel.cc to the answer of src/rpcprovider.cc.
use mprpc_advanced_z.Base.{◌+◌, ◌^◌, ◌<◌, ◌≡◌, refl, ◌∙◌, sym, [], none, some, append-nil, length}
use mprpc_advanced_z.Base.Bytes.{Bytes, bytes_eq}
use mprpc_advanced_z.Base.Maps.{find}
use mprpc_advanced_z.Buffer.{Buffer, IsValid, contents}
use mprpc_advanced_z.Wire.{RpcHeader, HeaderCodec, frame}
use mprpc_advanced_z.Provider.{
  ServiceApi, ServiceMap, ok, dispatch, on_message, notify_service, send_rpc_response,
}
use mprpc_advanced_z.Provider.Registry.{first_named, notify_service_correct}
use mprpc_advanced_z.Provider.Requests.{on_message-frame}

module _ (api : ServiceApi) (codec : HeaderCodec) where
  -- A service that was published under a free name answers a client's call of one of its methods:
  -- what is sent back is the encoding of the response of the service's own code to the request that
  -- the arguments encode.
  pub call-answered :
      (service : api.Service) (services : ServiceMap api) (method : api.Method)
      (request : api.Request) (response : api.Response) (h : RpcHeader) (hs args answer : Bytes)
      (b : Buffer)
      → find (api.service_name service) services ≡ none
      → first_named api h.method_name (api.methods service) ≡ some method
      → h.service_name ≡ api.service_name service
      → h.args_size ≡ length args
      → codec.serialize h ≡ some hs
      → 4 + length hs < 2 ^ 32
      → api.parse_request service method args ≡ some request
      → api.call service method request ≡ some response
      → api.serialize_response response ≡ some answer
      → IsValid b
      → contents b ≡ frame hs args
      → (on_message api codec (notify_service api service services) b).0 ≡ ok answer
  call-answered service services method request response h hs args answer b free m n k s l p c a v
        e =
      let ((info, found, same, table), others) = notify_service_correct api service services free in
      let (dispatched, emptied) =
        on_message-frame api codec (notify_service api service services) b h hs args [] v
          (e ∙ sym (append-nil (frame hs args))) s k l in
      let method_found = table h.method_name ∙ m in
      dispatched
      ∙ unfold dispatch send_rpc_response in rw (n, found, method_found, same, p, c, a) refl
