-- ===== src/TcpServer/Reads.antt =====
-- src/tcpserver.cc: a connection that can be read or written.

use mprpc_advanced_z.Base.{
  ℕ, ◌≡◌, ◌≢◌, refl, List, [], ◌∷◌, Option, none, some, nat_eq, Bool-cases, Option-cases, inl, inr,
  ◌&&◌, ltb,
}
use mprpc_advanced_z.Base.Bytes.{Bytes}
use mprpc_advanced_z.Buffer.{Buffer, readable_bytes}
use mprpc_advanced_z.TimeHeap.{>>=-some}
use mprpc_advanced_z.TcpConnection.{
  TcpConnection, Wire, Received, bytes, eof, eagain, eintr, error, is_connected, read_loop, deliver,
  answer, handle_read, handle_write, returns, send_all, MessageCallback,
}
use mprpc_advanced_z.TcpServer.{Server, settle, read_ready, write_ready, after_read}
use mprpc_advanced_z.TcpServer.Timeouts.{IsServing}
use mprpc_advanced_z.TcpServer.Events.{Served, refresh-IsServing, settle-IsServing}

-- What recv returns has an end: EAGAIN, 0 or an error.
abbrev pub Ends : List Received → Type 0
Ends [] = ⊥
Ends (bytes data' ∷ rs) = Ends rs
Ends (eintr ∷ rs) = Ends rs
Ends (eof ∷ rs) = Unit {0}
Ends (eagain ∷ rs) = Unit {0}
Ends (error ∷ rs) = Unit {0}

read_loop-Ends :
    (rs : List Received) (c : TcpConnection)
    → Ends rs
    → (c' : TcpConnection) × (read_loop rs c ≡ some c')
unfolding read_loop
read_loop-Ends [] c h = absurd h
read_loop-Ends (bytes data' ∷ rs) c h = read_loop-Ends rs _ h
read_loop-Ends (eintr ∷ rs) c h = read_loop-Ends rs c h
read_loop-Ends (eof ∷ rs) c h = (_, refl)
read_loop-Ends (eagain ∷ rs) c h = (_, refl)
read_loop-Ends (error ∷ rs) c h = (_, refl)

-- The message callback does not throw on the bytes that it gets.
abbrev pub Answers : List Received → TcpConnection → Type 0
Answers rs c =
    (c' : TcpConnection) (cb : MessageCallback)
    → read_loop rs c ≡ some c'
    → c'.m_message_callback ≡ some cb
    → cb c'.m_input_buffer ≢ none

answer-returns :
    (wire : Wire) (o : Option (List Bytes × Buffer)) (c : TcpConnection)
    → o ≢ none
    → (sent : Bytes) × (c' : TcpConnection) × (answer wire o c ≡ returns sent c')
unfolding answer
answer-returns wire none c n = absurd (n refl)
answer-returns wire (some (msgs, b)) c n =
    let (sent, c') = send_all wire msgs (record c { m_input_buffer = b }) in (sent, c', refl)

deliver-returns :
    (wire : Wire) (c : TcpConnection)
    → ((cb : MessageCallback) → c.m_message_callback ≡ some cb → cb c.m_input_buffer ≢ none)
    → (sent : Bytes) × (c' : TcpConnection) × (deliver wire c ≡ returns sent c')
unfolding deliver
deliver-returns wire c calm =
    let calls = is_connected c.m_state && ltb 0 (readable_bytes c.m_input_buffer) in
    elim (Bool-cases calls) [
      | inr b ↦ ([], c, simp (deliver, b) refl)
      | inl b ↦ elim (Option-cases c.m_message_callback) [
        | inl f ↦ ([], c, simp (deliver, b, f) refl)
        | inr (cb, f) ↦
            let (sent, c', e) = answer-returns wire (cb c.m_input_buffer) c (calm cb f) in
            (sent, c', simp (deliver, b, f) e)
      ]
    ]

handle_read-returns :
    (wire : Wire) (rs : List Received) (c : TcpConnection)
    → Ends rs
    → Answers rs c
    → (sent : Bytes) × (c' : TcpConnection) × (handle_read wire rs c ≡ returns sent c')
unfolding handle_read
handle_read-returns wire rs c ends answers =
    let (c1, e) = read_loop-Ends rs c ends in
    let (sent, c', f) = deliver-returns wire c1 (λ cb. answers c1 cb e) in
    (sent, c', rw (handle_read, e) f)

pub read_ready-IsServing :
    (sockfd fresh now : ℕ) (wire : Wire) (rs : List Received) (s : Server)
    → IsServing s
    → (e : Served sockfd fresh s) → Ends rs
    → Answers rs e.conn
    → (s' : Server) × (read_ready sockfd fresh now wire rs s ≡ some s') × IsServing s'
unfolding read_ready after_read
read_ready-IsServing sockfd fresh now wire rs s v e ends answers =
    let (timers, run, w, pointer, mine) = refresh-IsServing sockfd fresh now s v e in
    let (sent, c', back) = handle_read-returns wire rs e.conn ends answers in
    let s1 = record s { timers = timers } in
    (
      settle sockfd c' s1,
      >>=-some _ run (simp (e.found, back) refl),
      settle-IsServing sockfd c' e.conn s1 w e.found,
    )

pub write_ready-IsServing :
    (sockfd fresh now : ℕ) (wire : Wire) (s : Server)
    → IsServing s
    → Served sockfd fresh s
    → (s' : Server) × (write_ready sockfd fresh now wire s ≡ some s') × IsServing s'
unfolding write_ready
write_ready-IsServing sockfd fresh now wire s v e =
    let (timers, run, w, pointer, mine) = refresh-IsServing sockfd fresh now s v e in
    let s1 = record s { timers = timers } in
    let c' = (handle_write wire e.conn).1 in
    (
      settle sockfd c' s1,
      >>=-some _ run (simp e.found refl),
      settle-IsServing sockfd c' e.conn s1 w e.found,
    )
