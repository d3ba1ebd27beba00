-- ===== src/TcpConnection/Reading.antt =====
-- src/tcpconnection.cc: HandleRead, from what recv returns to the message callback.
use mprpc_advanced_z.Base.{
  ◌+◌, ◌<◌, ◌≡◌, refl, ap, sym, ◌∙◌, List, [], ◌∷◌, ◌++◌, Option, none, some, true, ltb, length,
  arith, append-nil, append_assoc, length-append, size_mod,
}
use mprpc_advanced_z.Base.Bytes.{Bytes}
use mprpc_advanced_z.Buffer
use mprpc_advanced_z.Buffer.{Buffer, append, readable_bytes, contents}
use mprpc_advanced_z.Buffer.Contents.{append_writer, append_correct, length-contents}
use mprpc_advanced_z.TcpConnection.{
  TcpConnection, k_connected, is_connected, Wire, MessageCallback, handle_close, Received, bytes,
  eof, eagain, eintr, error, read_loop, returns, answer, deliver, handle_read,
}

-- What arrives before the reads stop: a piece of bytes, or an interruption.
abbrev pub received : Option Bytes → Received
received none = eintr
received (some piece) = bytes piece

-- The results of recv up to the one that stops the loop, and further ones that are not asked for.
unfoldable pub reads : List (Option Bytes) → Received → List Received → List Received
reads [] last rest = last ∷ rest
reads (a ∷ as') last rest = received a ∷ reads as' last rest

unfoldable pub joined : List (Option Bytes) → Bytes
joined [] = []
joined (none ∷ as') = joined as'
joined (some piece ∷ as') = piece ++ joined as'

-- The results that close the connection: the peer has closed, or an error that does not pass.
abbrev pub Closes : Received → Type 0
Closes eof = Unit {0}
Closes error = Unit {0}
Closes (bytes piece) = ⊥
Closes eagain = ⊥
Closes eintr = ⊥

-- The input buffer with the bytes that have come.
pub record Holds (b : Buffer) (s : Bytes) : Type 0 where
  pub valid : Buffer.IsValid b
  pub holds : contents b ≡ s

read_loop-reads :
    (as' : List (Option Bytes)) (last : Received) (rest : List Received) (c : TcpConnection)
    → Buffer.IsValid c.m_input_buffer
    → c.m_input_buffer.m_writer_index + length (joined as') < size_mod
    → (b : Buffer) × Holds b (contents c.m_input_buffer ++ joined as')
      × (read_loop (reads as' last rest) c
          ≡ read_loop (last ∷ rest) (record c { m_input_buffer = b }))
unfolding read_loop reads joined
read_loop-reads [] last rest c v fits = (
  c.m_input_buffer,
  record { valid = v; holds = sym (append-nil (contents c.m_input_buffer)) },
  refl,
)
read_loop-reads (none ∷ as') last rest c v fits = read_loop-reads as' last rest c v fits
read_loop-reads (some piece ∷ as') last rest c v fits =
    let both = length-append piece (joined as') in
    let b = c.m_input_buffer in
    let here : b.m_writer_index + length piece < size_mod = omega (arith, both) in
    let (v', added) = append_correct piece b v here in
    let back = append_writer piece b v here in
    let (b', h, e) =
      read_loop-reads as' last rest (record c { m_input_buffer = append piece b }) v'
        (omega (arith, both, back)) in
    (
      b',
      record {
        valid = h.valid;
        holds =
            h.holds
            ∙ ap (λ s. s ++ joined as') added
            ∙ append_assoc (contents b) piece (joined as');
      },
      e,
    )

-- The callback runs once, on a valid buffer that holds what was there and the pieces in order.
pub handle_read-delivers :
    (wire : Wire) (cb : MessageCallback) (as' : List (Option Bytes)) (rest : List Received)
    (c : TcpConnection)
    → c.m_state ≡ k_connected
    → c.m_message_callback ≡ some cb
    → Buffer.IsValid c.m_input_buffer
    → c.m_input_buffer.m_writer_index + length (joined as') < size_mod
    → 0 < length (contents c.m_input_buffer ++ joined as')
    → (b : Buffer) × Holds b (contents c.m_input_buffer ++ joined as')
      × (handle_read wire (reads as' eagain rest) c
          ≡ answer wire (cb b) (record c { m_input_buffer = b }))
unfolding handle_read read_loop deliver
handle_read-delivers wire cb as' rest c open' set_cb v fits some_byte =
    let (b, h, e) = read_loop-reads as' eagain rest c v fits in
    let connected' : is_connected c.m_state ≡ true = ap is_connected open' in
    let size = length-contents b h.valid in
    let held = ap length h.holds in
    let waits : ltb 0 (readable_bytes b) ≡ true = ground arith in
    (b, h, simp (handle_read, e, connected', waits, set_cb) refl)

-- HandleRead when the pieces end with a closed peer or an error: whatever came, the message callback
-- does not run, nothing is sent, and the connection is closed with the pieces in its buffer.
pub handle_read-Closes :
    (wire : Wire) (as' : List (Option Bytes)) (last : Received) (rest : List Received)
    (c : TcpConnection)
    → Closes last
    → Buffer.IsValid c.m_input_buffer
    → c.m_input_buffer.m_writer_index + length (joined as') < size_mod
    → (b : Buffer) × Holds b (contents c.m_input_buffer ++ joined as')
      × (handle_read wire (reads as' last rest) c
          ≡ returns [] (handle_close (record c { m_input_buffer = b })))
unfolding handle_read read_loop deliver handle_close
handle_read-Closes wire as' eof rest c l v fits =
    let (b, h, e) = read_loop-reads as' eof rest c v fits in (b, h, rw (handle_read, e) refl)
handle_read-Closes wire as' error rest c l v fits =
    let (b, h, e) = read_loop-reads as' error rest c v fits in (b, h, rw (handle_read, e) refl)
handle_read-Closes wire as' (bytes piece) rest c l v fits = absurd l
handle_read-Closes wire as' eagain rest c l v fits = absurd l
handle_read-Closes wire as' eintr rest c l v fits = absurd l
