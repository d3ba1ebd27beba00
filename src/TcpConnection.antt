-- ===== src/TcpConnection.antt =====
-- src/include/tcpconnection.h and src/tcpconnection.cc: one connection of the server. What recv and
-- send return, and the message callback, are parameters.
pub mod Reading
pub mod Writing
pub mod Identity
pub mod Answers
use mprpc_advanced_z.Base.{
  ℕ, ◌+◌, ◌<◌, List, [], ◌∷◌, ◌++◌, Option, none, some, Bool, true, false, ◌&&◌, ltb, if◌then◌else◌,
  length, take,
}
use mprpc_advanced_z.Base.Bytes.{Bytes}
use mprpc_advanced_z.Buffer.{Buffer, append, peek, readable_bytes, retrieve}
use mprpc_advanced_z.Buffer

-- enum StateE
pub data StateE : Type 0 where
  k_disconnected : StateE
  k_connecting : StateE
  k_connected : StateE
  k_disconnecting : StateE

abbrev pub is_connected : StateE → Bool
is_connected k_connected = true
is_connected k_disconnected = false
is_connected k_connecting = false
is_connected k_disconnecting = false

abbrev pub is_disconnecting : StateE → Bool
is_disconnecting k_disconnecting = true
is_disconnecting k_disconnected = false
is_disconnecting k_connecting = false
is_disconnecting k_connected = false

-- The message callback: the strings that it hands to Send, and the buffer that it leaves; `none` when
-- an exception leaves it, which ends the program.
abbrev pub MessageCallback : Type 0
MessageCallback = Buffer → Option (List Bytes × Buffer)

-- The connection callback is only whether there is one, with the number of its runs.
pub record TcpConnection : Type 0 where
  pub m_fd : ℕ
  pub m_state : StateE
  pub m_input_buffer : Buffer
  pub m_output_buffer : Buffer
  pub m_connection_callback : Bool
  pub m_message_callback : Option MessageCallback
  pub notified : ℕ

-- TcpConnection(fd), before its callbacks are set.
unfoldable pub new : ℕ → TcpConnection
unfolding Buffer.new
new fd = record {
  m_fd = fd;
  m_state = k_connected;
  m_input_buffer = Buffer.new 1024;
  m_output_buffer = Buffer.new 1024;
  m_connection_callback = false;
  m_message_callback = none;
  notified = 0;
}

unfoldable pub set_connection_callback : Bool → TcpConnection → TcpConnection
set_connection_callback cb c = record c { m_connection_callback = cb }

unfoldable pub set_message_callback : Option MessageCallback → TcpConnection → TcpConnection
set_message_callback cb c = record c { m_message_callback = cb }

unfoldable pub connected : TcpConnection → Bool
connected c = is_connected c.m_state

unfoldable pub handle_close : TcpConnection → TcpConnection
handle_close c = record c {
  m_state = k_disconnected;
  notified = if c.m_connection_callback then c.notified + 1 else c.notified;
}

unfoldable pub shutdown : TcpConnection → TcpConnection
shutdown c = if is_connected c.m_state then record c { m_state = k_disconnecting } else c

-- The result of send for the bytes offered: how many were taken, or `none` for -1.
abbrev pub Wire : Type 0
Wire = Bytes → Option ℕ

-- HandleWrite: the bytes taken from the output buffer, and the connection.
unfoldable pub handle_write : Wire → TcpConnection → Bytes × TcpConnection
handle_write wire c =
    let waiting = readable_bytes c.m_output_buffer in
    let offered = take waiting (peek c.m_output_buffer) in
    let write : Bytes × TcpConnection = elim (wire offered) [
      | none ↦ ([], c)
      | some n ↦
          let c' = record c { m_output_buffer = retrieve n c.m_output_buffer } in
          let drained = ltb (readable_bytes c'.m_output_buffer) 1 && is_disconnecting c'.m_state in
          if ltb 0 n then (take n offered, if drained then handle_close c' else c') else ([], c)
    ] in
    if is_connected c.m_state && ltb 0 waiting then write else ([], c)

unfoldable pub send : Wire → Bytes → TcpConnection → Bytes × TcpConnection
send wire msg c =
    if is_connected c.m_state
    then handle_write wire (record c { m_output_buffer = append msg c.m_output_buffer })
    else ([], c)

-- The calls of Send that a callback makes.
unfoldable pub send_all : Wire → List Bytes → TcpConnection → Bytes × TcpConnection
send_all wire [] c = ([], c)
send_all wire (msg ∷ msgs) c =
    let (sent, c') = send wire msg c in
    let (more, c'') = send_all wire msgs c' in (sent ++ more, c'')

-- What recv returns: bytes, 0, or -1 with errno EAGAIN, EINTR or another.
pub data Received : Type 0 where
  bytes : Bytes → Received
  eof : Received
  eagain : Received
  eintr : Received
  error : Received

-- The loop of HandleRead over the results of recv; `none` if they stop before the loop does.
unfoldable pub read_loop : List Received → TcpConnection → Option TcpConnection
read_loop [] c = none
read_loop (bytes data' ∷ rs) c =
    read_loop rs (record c { m_input_buffer = append data' c.m_input_buffer })
read_loop (eof ∷ rs) c = some (handle_close c)
read_loop (eagain ∷ rs) c = some c
read_loop (eintr ∷ rs) c = read_loop rs c
read_loop (error ∷ rs) c = some (handle_close c)

-- How HandleRead ends.
pub data Outcome : Type 0 where
  starved : Outcome
  terminates : Outcome
  returns : Bytes → TcpConnection → Outcome

-- What follows when the message callback has run.
unfoldable pub answer : Wire → Option (List Bytes × Buffer) → TcpConnection → Outcome
unfolding send_all
answer wire none c = terminates
answer wire (some (msgs, b)) c =
    let (sent, c') = send_all wire msgs (record c { m_input_buffer = b }) in returns sent c'

-- The part behind the loop: the message callback.
unfoldable pub deliver : Wire → TcpConnection → Outcome
unfolding answer
deliver wire c =
    let call : Outcome = elim c.m_message_callback [
      | none ↦ returns [] c
      | some cb ↦ answer wire (cb c.m_input_buffer) c
    ] in
    if is_connected c.m_state && ltb 0 (readable_bytes c.m_input_buffer) then call else returns [] c

unfoldable pub handle_read : Wire → List Received → TcpConnection → Outcome
unfolding read_loop deliver
handle_read wire rs c = elim (read_loop rs c) [ none ↦ starved | some c' ↦ deliver wire c' ]
