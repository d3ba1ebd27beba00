-- ===== src/Tests/Messages.antt =====
-- Runs of src/rpcprovider.cc, with a codec for headers and a service that answers with its argument.
use mprpc_advanced_z.Base.{
  ◌≡◌, refl, sym, ap, ap₂, ◌∙◌, [], ◌∷◌, ◌++◌, Option, some, none, arith, length, take, drop,
  take-append, drop-append,
}
use mprpc_advanced_z.Base.Bytes.{Bytes, codes, bytes_eq}
use mprpc_advanced_z.Buffer.{Buffer, IsValid, contents}
use mprpc_advanced_z.Wire.{RpcHeader, HeaderCodec, frame}
use mprpc_advanced_z.Provider.{ServiceApi, threw, dispatch, notify_service, on_message}
use mprpc_advanced_z.Provider.Requests.{on_message-frame, on_message-short}

-- The lengths of the names and the size in front of the names.
abbrev pub write_header : RpcHeader → Bytes
write_header h =
    length h.service_name ∷ length h.method_name ∷ h.args_size ∷ (h.service_name ++ h.method_name)

abbrev pub read_header : Bytes → Option RpcHeader
read_header [] = none
read_header (a ∷ []) = none
read_header (a ∷ b ∷ []) = none
read_header (a ∷ b ∷ n ∷ rest) =
    some (record { service_name = take a rest; method_name = drop a rest; args_size = n })

abbrev bind_header : Option Bytes → Option RpcHeader
bind_header none = none
bind_header (some s) = read_header s

pub read-write :
    (h : RpcHeader) (s : Bytes) → some (write_header h) ≡ some s → read_header s ≡ some h
read-write h s e =
    ap bind_header (sym e)
    ∙ ap₂
        (λ (x y : Bytes).
          some (record { service_name = x; method_name = y; args_size = h.args_size }))
        (take-append h.service_name h.method_name (length h.service_name) refl)
        (drop-append h.service_name h.method_name (length h.service_name) refl)

abbrev pub toy_codec : HeaderCodec
toy_codec = record {
  serialize = λ h. some (write_header h);
  parse = read_header;
  parse-serialize = read-write;
}

abbrev pub echo : ServiceApi
echo = record {
  Service = Unit {0};
  Method = Bytes;
  Request = Bytes;
  Response = Bytes;
  service_name = λ _. codes "Echo";
  methods = λ _. codes "Say" ∷ [];
  method_name = λ m. m;
  parse_request = λ _ _ args. some args;
  call = λ _ _ request. some request;
  serialize_response = λ r. some r;
}

abbrev say : RpcHeader
say = record { service_name = codes "Echo"; method_name = codes "Say"; args_size = 2 }

abbrev hi : Bytes
hi = 72 ∷ 105 ∷ []

-- The message as the client lays it out, in a buffer that just holds it.
abbrev message : Bytes
message = frame (write_header say) hi

abbrev arrived : Buffer
arrived = record { m_buffer = message; m_reader_index = 0; m_writer_index = 16 }

arrived-IsValid : IsValid arrived
unfolding frame
arrived-IsValid = record { ordered = omega arith; inside = omega arith; sized = omega arith }

on_message-frame_example :
    ((on_message echo toy_codec (notify_service echo tt []) arrived).0
      ≡ dispatch echo toy_codec (notify_service echo tt []) say hi)
    × (contents (on_message echo toy_codec (notify_service echo tt []) arrived).1 ≡ [])
unfolding contents frame
on_message-frame_example =
    on_message-frame echo toy_codec (notify_service echo tt []) arrived say (write_header say) hi []
      arrived-IsValid refl refl refl (omega arith)

abbrev cut_short : Buffer
cut_short = record { m_buffer = 1 ∷ 2 ∷ 3 ∷ 4 ∷ []; m_reader_index = 1; m_writer_index = 4 }

on_message-short_example : (on_message echo toy_codec [] cut_short).0 ≡ threw
unfolding contents
on_message-short_example =
    on_message-short echo toy_codec [] cut_short
      record { ordered = omega arith; inside = omega arith; sized = omega arith } (omega arith)
