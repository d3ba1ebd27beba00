-- ===== src/TcpConnection/Writing.antt =====
-- src/tcpconnection.cc: what a connection writes, over every order of Send and writable events.
use mprpc_advanced_z.Base.{
  ℕ, ◌+◌, ◌≤◌, ◌<◌, ◌≡◌, refl, ap, sym, ◌∙◌, List, [], ◌∷◌, ◌++◌, Option, none, some, Bool, true,
  false, ◌&&◌, ltb, if◌then◌else◌, length, take, drop, arith, Bool-cases, inl, inr, append-nil,
  append_assoc, length-append, take-append-drop, size_mod,
}
use mprpc_advanced_z.Base.Bytes.{Bytes}
use mprpc_advanced_z.Buffer
use mprpc_advanced_z.Buffer.{Buffer, append, peek, readable_bytes, retrieve, contents}
use mprpc_advanced_z.Buffer.Contents.{
  readable_bytes-eq, append_writer, append_correct, retrieve_correct,
}
use mprpc_advanced_z.TcpConnection.{
  TcpConnection, k_connected, k_disconnecting, is_connected, is_disconnecting, Wire, handle_close,
  handle_write, send, shutdown,
}

-- What happens to a connection that writes.
pub data Event : Type 0 where
  sends : Wire → Bytes → Event
  writable : Wire → Event

-- The bytes given to the socket, and the connection.
unfoldable pub run : List Event → TcpConnection → Bytes × TcpConnection
unfolding send handle_write
run [] c = ([], c)
run (sends wire msg ∷ es) c =
    let (sent, c') = send wire msg c in let (more, c'') = run es c' in (sent ++ more, c'')
run (writable wire ∷ es) c =
    let (sent, c') = handle_write wire c in let (more, c'') = run es c' in (sent ++ more, c'')

-- The messages that are sent, one behind the other.
unfoldable pub messages : List Event → Bytes
messages [] = []
messages (sends wire msg ∷ es) = msg ++ messages es
messages (writable wire ∷ es) = messages es

-- A connected connection with a valid output buffer.
pub record IsOpen (c : TcpConnection) : Type 0 where
  pub state : c.m_state ≡ k_connected
  pub output : Buffer.IsValid c.m_output_buffer

-- The connection stays open, and what was waiting is what went out and what waits now.
record Conserves (before : Bytes) (writer : ℕ) (r : Bytes × TcpConnection) : Type 0 where
  still : IsOpen r.1
  bytes : r.0 ++ contents r.1.m_output_buffer ≡ before
  room : r.1.m_output_buffer.m_writer_index ≤ writer

retrieve_writer : (n : ℕ) (b : Buffer) → (retrieve n b).m_writer_index ≤ b.m_writer_index
unfolding retrieve
retrieve_writer n b = elim (Bool-cases (ltb n (readable_bytes b))) [
  | inl e ↦ rw e (omega arith)
  | inr e ↦ rw e (omega arith)
]

-- The bytes that send is offered are the waiting ones.
offered_lem : (b : Buffer) → Buffer.IsValid b → take (readable_bytes b) (peek b) ≡ contents b
unfolding contents peek
offered_lem b v = ap (λ k. take k (drop b.m_reader_index b.m_buffer)) (readable_bytes-eq b v)

if_elim {ℓ ℓ'} :
    {A : Type ℓ} → (P : A → Type ℓ') (b : Bool) (x y : A) → P x → P y → P (if b then x else y)
if_elim P true x y px py = px
if_elim P false x y px py = py

and_false : (b : Bool) → (b && false) ≡ false
and_false true = refl
and_false false = refl

-- What the connection is once `n` bytes have been taken.
after_write : ℕ → TcpConnection → TcpConnection
after_write n c =
    let c' = record c { m_output_buffer = retrieve n c.m_output_buffer } in
    if ltb (readable_bytes c'.m_output_buffer) 1 && is_disconnecting c'.m_state
    then handle_close c'
    else c'

-- A connected connection is not closed by a write that empties the buffer.
after_write-connected :
    (n : ℕ) (c : TcpConnection)
    → c.m_state ≡ k_connected
    → after_write n c ≡ record c { m_output_buffer = retrieve n c.m_output_buffer }
unfolding after_write
after_write-connected n c e =
    let open' : is_disconnecting c.m_state ≡ false = ap is_disconnecting e in
    rw (open', and_false (ltb (readable_bytes (retrieve n c.m_output_buffer)) 1)) refl

taken-Conserves :
    (n : ℕ) (c : TcpConnection)
    → IsOpen c
    → Conserves
        (contents c.m_output_buffer)
        c.m_output_buffer.m_writer_index
        (take n (take (readable_bytes c.m_output_buffer) (peek c.m_output_buffer)), after_write n c)
taken-Conserves n c o =
    let b = c.m_output_buffer in
    let (valid, left) = retrieve_correct n b o.output in
    rw (after_write-connected n c o.state, offered_lem b o.output)
      record {
        still = record { state = o.state; output = valid };
        bytes = ap (◌++◌ (take n (contents b))) left ∙ take-append-drop n (contents b);
        room = retrieve_writer n b;
      }

answer-Conserves :
    (r : Option ℕ) (c : TcpConnection)
    → IsOpen c
    → Conserves
        (contents c.m_output_buffer)
        c.m_output_buffer.m_writer_index
        (elim r as (λ _. Bytes × TcpConnection) [
          | none ↦ ([], c)
          | some n ↦
              if ltb 0 n
              then (
                take n (take (readable_bytes c.m_output_buffer) (peek c.m_output_buffer)),
                after_write n c,
              )
              else ([], c)
        ])
answer-Conserves none c o = record { still = o; bytes = refl; room = omega arith }
answer-Conserves (some n) c o =
    if_elim (Conserves (contents c.m_output_buffer) c.m_output_buffer.m_writer_index) (ltb 0 n) _ _
      (taken-Conserves n c o) record { still = o; bytes = refl; room = omega arith }

handle_write-Conserves :
    (wire : Wire) (c : TcpConnection)
    → IsOpen c
    → Conserves (contents c.m_output_buffer) c.m_output_buffer.m_writer_index (handle_write wire c)
unfolding handle_write after_write
handle_write-Conserves wire c o =
    if_elim (Conserves (contents c.m_output_buffer) c.m_output_buffer.m_writer_index)
      (is_connected c.m_state && ltb 0 (readable_bytes c.m_output_buffer)) _ _
      (answer-Conserves (wire (take (readable_bytes c.m_output_buffer) (peek c.m_output_buffer))) c
        o)
      record { still = o; bytes = refl; room = omega arith }

send-Conserves :
    (wire : Wire) (msg : Bytes) (c : TcpConnection)
    → IsOpen c
    → c.m_output_buffer.m_writer_index + length msg < size_mod
    → Conserves
        (contents c.m_output_buffer ++ msg)
        (c.m_output_buffer.m_writer_index + length msg)
        (send wire msg c)
unfolding send
send-Conserves wire msg c o fits =
    let b = c.m_output_buffer in
    let (valid, added) = append_correct msg b o.output fits in
    let back = append_writer msg b o.output fits in
    let c' = record c { m_output_buffer = append msg b } in
    let k = handle_write-Conserves wire c' record { state = o.state; output = valid } in
    let open' : is_connected c.m_state ≡ true = ap is_connected o.state in
    rw open' record { still = k.still; bytes = k.bytes ∙ added; room = omega (arith, k.room, back) }

-- While a connection is open, in any order of Send and writable events and however much of what it is
-- offered the socket takes each time, the bytes that have gone out followed by those that still wait
-- are what waited at first followed by the messages in order, and the connection stays open. The
-- writer index of the buffer has room for the messages.
pub run-conserves :
    (es : List Event) (c : TcpConnection)
    → IsOpen c
    → c.m_output_buffer.m_writer_index + length (messages es) < size_mod
    → ((run es c).0 ++ contents (run es c).1.m_output_buffer
        ≡ contents c.m_output_buffer ++ messages es)
      × IsOpen (run es c).1
unfolding run messages
run-conserves [] c o fits = (sym (append-nil (contents c.m_output_buffer)), o)
run-conserves (sends wire msg ∷ es) c o fits =
    let both = length-append msg (messages es) in
    let k = send-Conserves wire msg c o (omega (arith, both)) in
    let c' = (send wire msg c).1 in
    let (rest, o') = run-conserves es c' k.still (omega (arith, both, k.room)) in
    (
      append_assoc (send wire msg c).0 (run es c').0 (contents (run es c').1.m_output_buffer)
          ∙ ap (◌++◌ (send wire msg c).0) rest
          ∙ sym (append_assoc (send wire msg c).0 (contents c'.m_output_buffer) (messages es))
          ∙ ap (λ s. s ++ messages es) k.bytes
          ∙ append_assoc (contents c.m_output_buffer) msg (messages es),
      o',
    )
run-conserves (writable wire ∷ es) c o fits =
    let k = handle_write-Conserves wire c o in
    let c' = (handle_write wire c).1 in
    let (rest, o') = run-conserves es c' k.still (omega (arith, k.room)) in
    (
      append_assoc (handle_write wire c).0 (run es c').0 (contents (run es c').1.m_output_buffer)
          ∙ ap (◌++◌ (handle_write wire c).0) rest
          ∙ sym (append_assoc (handle_write wire c).0 (contents c'.m_output_buffer) (messages es))
          ∙ ap (λ s. s ++ messages es) k.bytes,
      o',
    )

run-closed :
    (es : List Event) (c : TcpConnection) → is_connected c.m_state ≡ false → run es c ≡ ([], c)
unfolding run send handle_write
run-closed [] c e = refl
run-closed (sends wire msg ∷ es) c e = rw (e, run-closed es c e) refl
run-closed (writable wire ∷ es) c e = rw (e, run-closed es c e) refl

-- After Shutdown of an open connection nothing more goes out, in any order of Send and writable
-- events, and the connection stays as it is: what waits in its output buffer waits for good.
pub run-shutdown :
    (es : List Event) (c : TcpConnection)
    → c.m_state ≡ k_connected
    → run es (shutdown c) ≡ ([], record c { m_state = k_disconnecting })
unfolding shutdown
run-shutdown es c e =
    let open' : is_connected c.m_state ≡ true = ap is_connected e in
    rw open' (run-closed es (record c { m_state = k_disconnecting }) refl)
