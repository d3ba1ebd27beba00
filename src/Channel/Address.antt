-- ===== src/Channel/Address.antt =====
-- The address of a provider in src/mprpcchannel.cc and src/rpcprovider.cc.
use mprpc_advanced_z.Base.{
  ℕ, ◌+◌, ◌<◌, ◌≡◌, refl, ap, ◌∙◌, [], ◌∷◌, ◌++◌, some, length, drop, arith, take-append,
  drop-append, sym, append_assoc, length-append,
}
use mprpc_advanced_z.Base.Bytes.{Bytes, Avoids, find_char-append}
use mprpc_advanced_z.Base.Decimal.{to_string, atoi_u16, atoi_u16-to_string}
use mprpc_advanced_z.Channel.{split_host}

-- A provider registers itself as `ip:port`; the client reads the same address and port from that
-- name, for an address without a colon and a port of 16 bits.
pub split_host-registered :
    (ip : Bytes) (port : ℕ)
    → Avoids b':' ip
    → port < 65536
    → split_host (ip ++ b':' ∷ to_string port) ≡ some (ip, port)
unfolding split_host
split_host-registered ip port a h =
    let host = ip ++ b':' ∷ to_string port in
    let behind : drop (length ip + 1) host ≡ to_string port =
      ap (drop (length ip + 1)) (sym (append_assoc ip (b':' ∷ []) (to_string port)))
      ∙ drop-append (ip ++ b':' ∷ []) (to_string port) _
          (omega (arith, length-append ip (b':' ∷ []))) in
    let read : atoi_u16 (to_string port) ≡ port = omega (arith, atoi_u16-to_string port) in
    rw (find_char-append b':' ip (to_string port) a, split_host)
      (ap some (λ i.
        (take-append ip (b':' ∷ to_string port) (length ip) refl i, (ap atoi_u16 behind ∙ read) i)))
