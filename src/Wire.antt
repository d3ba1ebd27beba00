-- ===== src/Wire.antt =====
-- The message on the wire, [header_size (4 bytes)] + [RpcHeader] + [Args]: how MprpcChannel::CallMethod
-- of src/mprpcchannel.cc lays it out and RpcProvider::OnMessage of src/rpcprovider.cc takes it apart.
-- The encoding of RpcHeader (src/rpcheader.proto) is protobuf's: a parameter with its round trip.
pub mod RoundTrip
use mprpc_advanced_z.Base.{
  ℕ, ◌+◌, ◌*◌, ◌/◌, ◌%◌, ◌^◌, ◌≡◌, List, [], ◌∷◌, ◌++◌, Option, none, some, length, take,
}
use mprpc_advanced_z.Base.Bytes.{Bytes, substr}

-- message RpcHeader
pub record RpcHeader : Type 0 where
  pub service_name : Bytes
  pub method_name : Bytes
  pub args_size : ℕ

-- SerializeToString and ParseFromString of the generated class; `none` is the result false.
pub record HeaderCodec : Type 0 where
  pub serialize : RpcHeader → Option Bytes
  pub parse : Bytes → Option RpcHeader
  pub parse-serialize : (h : RpcHeader) (s : Bytes) → serialize h ≡ some s → parse s ≡ some h

-- The four bytes of a uint32_t on a little-endian machine.
unfoldable pub u32_bytes : ℕ → Bytes
u32_bytes n = n % 256 ∷ n / 256 % 256 ∷ n / 65536 % 256 ∷ n / 16777216 % 256 ∷ []

-- The uint32_t whose low bytes are given, the others being 0.
unfoldable pub u32_of : Bytes → ℕ
u32_of [] = 0
u32_of (b ∷ bs) = b + 256 * u32_of bs

-- `send_rpc_str` of CallMethod: the sizes are uint32_t.
unfoldable pub frame : Bytes → Bytes → Bytes
unfolding u32_bytes
frame rpc_header_str args_str =
    u32_bytes (length rpc_header_str % 2 ^ 32) ++ rpc_header_str ++ args_str

-- `recv_buf.copy((char*)&header_size, 4, 0)` over a variable that is 0: at most 4 bytes.
unfoldable pub header_size_of : Bytes → ℕ
unfolding u32_of
header_size_of recv_buf = u32_of (take 4 recv_buf)

-- `recv_buf.substr(4, header_size)`
unfoldable pub header_str_of : Bytes → Option Bytes
unfolding header_size_of substr
header_str_of recv_buf = substr 4 (header_size_of recv_buf) recv_buf

-- `recv_buf.substr(4 + header_size, args_size)`, where the sum is a uint32_t.
unfoldable pub args_str_of : ℕ → Bytes → Option Bytes
unfolding header_size_of substr
args_str_of args_size recv_buf = substr ((4 + header_size_of recv_buf) % 2 ^ 32) args_size recv_buf
