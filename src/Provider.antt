-- ===== src/Provider.antt =====
-- src/include/rpcprovider.h and src/rpcprovider.cc: the services that a provider publishes, and how it
-- answers a message. What protobuf's generated classes and the user's service do is a parameter.
pub mod Registry
pub mod Requests
pub mod EndToEnd
use mprpc_advanced_z.Base.{ℕ, ◌≡◌, List, [], ◌∷◌, ◌++◌, Option, none, some}
use mprpc_advanced_z.Base.Bytes.{Bytes, bytes_eq}
use mprpc_advanced_z.Base.Maps.{Map, find, insert_new}
use mprpc_advanced_z.Buffer.{Buffer, retrieve_all_as_string}
use mprpc_advanced_z.Wire.{RpcHeader, HeaderCodec, header_str_of, args_str_of}

-- google::protobuf::Service with its descriptors and messages. `parse_request` makes a request of
-- the method's prototype and parses into it; `call` is the service's code: the response with which
-- it runs its closure, or `none` if it returns without running it.
pub record ServiceApi : Type 1 where
  pub Service : Type 0
  pub Method : Type 0
  pub Request : Type 0
  pub Response : Type 0
  pub service_name : Service → Bytes
  pub methods : Service → List Method
  pub method_name : Method → Bytes
  pub parse_request : Service → Method → Bytes → Option Request
  pub call : Service → Method → Request → Option Response
  pub serialize_response : Response → Option Bytes

-- The error that OnMessage or SendRpcResponse logs before it gives the message up.
pub data Refusal : Type 0 where
  header_parse_error : Bytes → Refusal
  no_service : Bytes → Refusal
  no_method : Bytes → Bytes → Refusal
  request_parse_error : Bytes → Refusal
  serialize_error : Refusal

-- How a handler ends: with a value, by std::out_of_range, after logging an error, or with a service
-- that has not answered.
pub data Run {ℓ} (A : Type ℓ) : Type ℓ where
  ok : A → Run A
  threw : Run A
  refused : Refusal → Run A
  unanswered : Run A

infixl 5 ◌>>=◌
abbrev pub ◌>>=◌ {ℓ κ} : {A : Type ℓ} {B : Type κ} → Run A → (A → Run B) → Run B
threw >>= next = threw
unanswered >>= next = unanswered
refused why >>= next = refused why
ok a >>= next = next a

abbrev pub required {ℓ} : {A : Type ℓ} → Option A → Run A → Run A
required none otherwise = otherwise
required (some a) otherwise = ok a

-- struct ServiceInfo
pub record ServiceInfo (api : ServiceApi) : Type 0 where
  pub m_service : api.Service
  pub m_method_map : Map Bytes api.Method

abbrev pub ServiceMap : ServiceApi → Type 0
ServiceMap api = Map Bytes (ServiceInfo api)

module _ (api : ServiceApi) where
  -- The loop of NotifyService over the methods of the descriptor.
  unfoldable pub add_methods : List api.Method → Map Bytes api.Method → Map Bytes api.Method
  unfolding insert_new
  add_methods [] m = m
  add_methods (d ∷ ds) m = add_methods ds (insert_new (api.method_name d) d m)

  unfoldable pub notify_service : api.Service → ServiceMap api → ServiceMap api
  unfolding add_methods insert_new
  notify_service service m_service_map =
      insert_new (api.service_name service)
        (record { m_service = service; m_method_map = add_methods (api.methods service) [] })
        m_service_map

  unfoldable pub send_rpc_response : api.Response → Run Bytes
  send_rpc_response response = required (api.serialize_response response) (refused serialize_error)

  module _ (codec : HeaderCodec) (m_service_map : ServiceMap api) where
    -- Steps 4 to 7 of OnMessage: the tables, the request and the call.
    unfoldable pub dispatch : RpcHeader → Bytes → Run Bytes
    unfolding find send_rpc_response
    dispatch h args_str = do
      info ← required (find h.service_name m_service_map) (refused (no_service h.service_name))
      method ←
          required (find h.method_name info.m_method_map)
            (refused (no_method h.service_name h.method_name))
      request ←
          required (api.parse_request info.m_service method args_str)
            (refused (request_parse_error args_str))
      response ← required (api.call info.m_service method request) unanswered
      send_rpc_response response

    -- OnMessage behind the first statement; the value is what is sent on the connection.
    unfoldable pub handle : Bytes → Run Bytes
    unfolding dispatch header_str_of args_str_of
    handle recv_buf = do
      rpc_header_str ← required (header_str_of recv_buf) threw
      header ← required (codec.parse rpc_header_str) (refused (header_parse_error rpc_header_str))
      args_str ← required (args_str_of header.args_size recv_buf) threw
      dispatch header args_str

    unfoldable pub on_message : Buffer → Run Bytes × Buffer
    unfolding handle retrieve_all_as_string
    on_message buffer =
        let (recv_buf, emptied) = retrieve_all_as_string buffer in (handle recv_buf, emptied)
