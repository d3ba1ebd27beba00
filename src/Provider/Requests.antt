-- ===== src/Provider/Requests.antt =====
-- OnMessage of src/rpcprovider.cc: what becomes of the bytes that wait in a connection's buffer.
use mprpc_advanced_z.Base.{◌+◌, ◌^◌, ◌<◌, ◌≡◌, refl, ap, ◌∙◌, [], ◌++◌, some, arith, length}
use mprpc_advanced_z.Base.Bytes.{Bytes, substr}
use mprpc_advanced_z.Buffer.{Buffer, IsValid, contents}
use mprpc_advanced_z.Buffer.Contents.{retrieve_all_as_string_correct}
use mprpc_advanced_z.Wire.{RpcHeader, HeaderCodec, frame, header_str_of}
use mprpc_advanced_z.Wire.RoundTrip.{frame_parts}
use mprpc_advanced_z.Provider.{ServiceApi, ServiceMap, threw, dispatch, handle, on_message}

module _ (api : ServiceApi) (codec : HeaderCodec) (services : ServiceMap api) where
  on_message-handle :
      (b : Buffer)
      → IsValid b
      → (on_message api codec services b).0 ≡ handle api codec services (contents b)
  unfolding on_message
  on_message-handle b v = ap (handle api codec services) (retrieve_all_as_string_correct b v).0

  -- A message of the client at the front of the buffer is dispatched with the client's header and
  -- arguments; the buffer is emptied, so that whatever has arrived behind the message is lost.
  pub on_message-frame :
      (b : Buffer) (h : RpcHeader) (hs args rest : Bytes)
      → IsValid b
      → contents b ≡ frame hs args ++ rest
      → codec.serialize h ≡ some hs
      → h.args_size ≡ length args
      → 4 + length hs < 2 ^ 32
      → ((on_message api codec services b).0 ≡ dispatch api codec services h args)
        × (contents (on_message api codec services b).1 ≡ [])
  on_message-frame b h hs args rest v e s n l =
      let (header, body) = frame_parts hs args rest l in
      let parsed = codec.parse-serialize h hs s in
      let answer : handle api codec services (frame hs args ++ rest)
          ≡ dispatch api codec services h args =
        unfold handle in rw (header, parsed, n, body) refl in
      (
        on_message-handle b v ∙ ap (handle api codec services) e ∙ answer,
        unfold on_message in (retrieve_all_as_string_correct b v).2,
      )

  -- Fewer bytes than a length prefix, as when a packet is cut short, end OnMessage by an exception.
  pub on_message-short :
      (b : Buffer)
      → IsValid b
      → length (contents b) < 4
      → (on_message api codec services b).0 ≡ threw
  on_message-short b v h =
      on_message-handle b v ∙ unfold handle header_str_of substr in ground arith
