-- ===== src/TcpConnection/Identity.antt =====
-- src/tcpconnection.cc: no handler of a connection changes its descriptor.
use mprpc_advanced_z.Base.{
  ◌≡◌, refl, ◌∙◌, List, [], ◌∷◌, Option, none, some, arith, Option-cases, inl, inr,
}
use mprpc_advanced_z.Base.Bytes.{Bytes}
use mprpc_advanced_z.Buffer.{Buffer, append}
use mprpc_advanced_z.TcpConnection.{
  TcpConnection, Wire, Received, bytes, eof, eagain, eintr, error, returns, handle_close,
  handle_write, send, send_all, read_loop, answer, deliver, handle_read,
}

pub handle_write-m_fd : (wire : Wire) (c : TcpConnection) → (handle_write wire c).1.m_fd ≡ c.m_fd
unfolding handle_write handle_close
handle_write-m_fd wire c = ground arith

send-m_fd : (wire : Wire) (msg : Bytes) (c : TcpConnection) → (send wire msg c).1.m_fd ≡ c.m_fd
unfolding send
send-m_fd wire msg c =
    ground
      (arith, handle_write-m_fd wire (record c { m_output_buffer = append msg c.m_output_buffer }))

send_all-m_fd :
    (wire : Wire) (msgs : List Bytes) (c : TcpConnection) → (send_all wire msgs c).1.m_fd ≡ c.m_fd
unfolding send_all
send_all-m_fd wire [] c = refl
send_all-m_fd wire (msg ∷ msgs) c =
    send_all-m_fd wire msgs (send wire msg c).1 ∙ send-m_fd wire msg c

read_loop-m_fd :
    (rs : List Received) (c c' : TcpConnection) → read_loop rs c ≡ some c' → c'.m_fd ≡ c.m_fd
unfolding read_loop handle_close
read_loop-m_fd [] c c' e = cc
read_loop-m_fd (bytes data' ∷ rs) c c' e =
    read_loop-m_fd rs (record c { m_input_buffer = append data' c.m_input_buffer }) c' e
read_loop-m_fd (eof ∷ rs) c c' e = ground arith
read_loop-m_fd (eagain ∷ rs) c c' e = ground arith
read_loop-m_fd (eintr ∷ rs) c c' e = read_loop-m_fd rs c c' e
read_loop-m_fd (error ∷ rs) c c' e = ground arith

answer-m_fd :
    (wire : Wire) (o : Option (List Bytes × Buffer)) (c : TcpConnection) (sent : Bytes)
    (c' : TcpConnection)
    → answer wire o c ≡ returns sent c'
    → c'.m_fd ≡ c.m_fd
unfolding answer
answer-m_fd wire none c sent c' e = cc
answer-m_fd wire (some (msgs, b)) c sent c' e =
    ground (arith, send_all-m_fd wire msgs (record c { m_input_buffer = b }))

deliver-m_fd :
    (wire : Wire) (c : TcpConnection) (sent : Bytes) (c' : TcpConnection)
    → deliver wire c ≡ returns sent c'
    → c'.m_fd ≡ c.m_fd
unfolding deliver
deliver-m_fd wire c sent c' e = elim (Option-cases c.m_message_callback) [
  | inl f ↦ ground arith
  | inr (cb, f) ↦ ground (arith, answer-m_fd wire (cb c.m_input_buffer) c sent c')
]

pub handle_read-m_fd :
    (wire : Wire) (rs : List Received) (c : TcpConnection) (sent : Bytes) (c' : TcpConnection)
    → handle_read wire rs c ≡ returns sent c'
    → c'.m_fd ≡ c.m_fd
unfolding handle_read
handle_read-m_fd wire rs c sent c' e = elim (Option-cases (read_loop rs c)) [
  | inl f ↦ ground arith
  | inr (c1, f) ↦ deliver-m_fd wire c1 sent c' (rw (handle_read, f) at e) ∙ read_loop-m_fd rs c c1 f
]
