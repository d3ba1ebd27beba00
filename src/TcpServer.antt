-- ===== src/TcpServer.antt =====
-- src/include/tcpserver.h and src/tcpserver.cc: the event loop. What epoll_wait, accept, recv, send
-- and the clock return is in the events; an address of a new timer is given with its allocation.
pub mod Loop
pub mod Timeouts
pub mod Accepts
pub mod Events
pub mod Reads
pub mod Watched
pub mod Handlers
pub mod Running
pub mod Lifetime
pub mod Stale
pub mod Expired
use mprpc_advanced_z.Base.{
  ℕ, ◌+◌, ◌*◌, List, [], ◌∷◌, ◌++◌, Option, none, some, Bool, true, false, ◌||◌, ◌&&◌, nat_beq,
  nat_eq, if◌then◌else◌, ltb,
}
use mprpc_advanced_z.Base.Bytes.{Bytes}
use mprpc_advanced_z.Base.Maps.{Map, find, assign, erase}
use mprpc_advanced_z.TimeHeap.{
  Timer, Memory, TimeHeap, State, put, add_timer, del_timer, adjust_timer, tick, ◌>>=◌,
}
use mprpc_advanced_z.TcpConnection.{
  TcpConnection, Wire, MessageCallback, Received, Outcome, starved, terminates, returns,
  is_connected, set_connection_callback, set_message_callback, handle_read, handle_write,
}
use mprpc_advanced_z.TcpConnection

-- The calls of the system that the server makes: epoll_ctl with ADD (and EPOLLONESHOT or not), with MOD
-- and EPOLLONESHOT, and with DEL; fcntl with O_NONBLOCK; close; alarm; and the calls of the set-up.
pub data Effect : Type 0 where
  adds : ℕ → Bool → Effect
  arms : ℕ → Effect
  drops : ℕ → Effect
  sets_nonblocking : ℕ → Effect
  closes : ℕ → Effect
  alarms : ℕ → Effect
  ignores : ℕ → Effect
  opens : ℕ → Effect
  reuses_address : ℕ → Effect
  binds : ℕ → Bytes → ℕ → Effect
  listens : ℕ → ℕ → Effect
  creates_epoll : ℕ → Effect
  pairs : ℕ → ℕ → Effect
  catches : ℕ → Effect

-- setnonblocking: the option is set in the flags that F_GETFL gives.
unfoldable pub set_nonblocking : ℕ → List Effect
set_nonblocking fd = sets_nonblocking fd ∷ []

-- addfd
unfoldable pub add_fd : ℕ → Bool → List Effect
unfolding set_nonblocking
add_fd fd one_shot = adds fd one_shot ∷ set_nonblocking fd

-- m_connections, timer_lst with the timers of users_timer, and the flags of Start; `done` is what has
-- been done, in order. A shared pointer to a connection is held by the table alone.
pub record Server : Type 0 where
  pub m_connections : Map ℕ TcpConnection
  pub timers : State
  pub timeout : Bool
  pub stop_server : Bool
  pub done : List Effect

abbrev pub timeslot : ℕ
timeslot = 5

-- The number of clients that users_timer has room for.
abbrev pub max_fd : ℕ
max_fd = 65536

-- ~TcpConnection of the connection that the table gives up at `fd`: it closes the descriptor.
unfoldable pub destroyed : ℕ → Map ℕ TcpConnection → List Effect
unfolding find
destroyed fd m = elim (find fd m) [ none ↦ [] | some conn ↦ closes conn.m_fd ∷ [] ]

-- removefd: the descriptor is closed, and once more by the destructor.
unfoldable pub remove_fd : ℕ → Server → Server
unfolding destroyed erase
remove_fd fd s = record s {
  m_connections = erase fd s.m_connections;
  done = s.done ++ (drops fd ∷ closes fd ∷ destroyed fd s.m_connections);
}

-- The callbacks that the provider has set: whether there is one for connections, and the other.
pub record Callbacks : Type 0 where
  pub m_connection_callback : Bool
  pub m_message_callback : Option MessageCallback

-- A connection that accept returns, with the address of its timer and the time.
pub record Accepted : Type 0 where
  pub connfd : ℕ
  pub timer : ℕ
  pub now : ℕ

-- The new connection, with the callbacks set and the connection callback run.
unfoldable pub greeted : Callbacks → ℕ → TcpConnection
greeted cbs connfd =
    let fresh = set_connection_callback cbs.m_connection_callback (TcpConnection.new connfd) in
    let conn = set_message_callback cbs.m_message_callback fresh in
    record conn { notified = if cbs.m_connection_callback then 1 else 0 }

-- The server with the connection in its table and its timers as they are then.
unfoldable pub admit : Callbacks → Accepted → State → Server → Server
unfolding greeted assign destroyed add_fd
admit cbs a timers s = record s {
  m_connections = assign a.connfd (greeted cbs a.connfd) s.m_connections;
  timers = timers;
  done = s.done ++ (destroyed a.connfd s.m_connections ++ add_fd a.connfd true);
}

-- One round of the loop over accept; `none` if users_timer has no entry for the descriptor.
unfoldable pub accept_one : Callbacks → Accepted → Server → Option Server
unfolding admit
accept_one cbs a s =
    let t : Timer = record {
      expire = a.now + 3 * timeslot;
      cb_func = true;
      user_data = a.connfd;
    } in
    let users = λ (fd : ℕ). if nat_beq a.connfd fd then a.timer else s.timers.client_timer fd in
    let timers = record s.timers {
      memory = put a.timer (some t) s.timers.memory;
      client_timer = users;
    } in
    let added = add_timer a.timer timers >>= λ timers'. some (admit cbs a timers' s) in
    if ltb a.connfd max_fd then added else none

unfoldable pub accept_all : Callbacks → List Accepted → Server → Option Server
unfolding accept_one
accept_all cbs [] s = some s
accept_all cbs (a ∷ as') s = accept_one cbs a s >>= λ s'. accept_all cbs as' s'

-- The signals that the handler has written to the pipe: SIGALRM, SIGTERM and SIGINT.
unfoldable pub take_signals : List ℕ → Server → Server
take_signals [] s = s
take_signals (sig ∷ sigs) s = take_signals sigs (
    if nat_beq sig 14
    then record s { timeout = true }
    else if nat_beq sig 15 || nat_beq sig 2
    then record s { stop_server = true }
    else s)

-- `users_timer[sockfd].timer`
unfoldable pub timer_of : ℕ → Server → Option ℕ
timer_of sockfd s = if ltb sockfd max_fd then some (s.timers.client_timer sockfd) else none

-- EPOLLRDHUP, EPOLLHUP or EPOLLERR.
unfoldable pub hang_up : ℕ → Server → Option Server
unfolding timer_of remove_fd
hang_up sockfd s = do
  timer ← timer_of sockfd s
  timers ← del_timer timer s.timers
  some (remove_fd sockfd (record s { timers = timers }))

-- The connection after its handler: removed if it is not connected, armed if it is.
unfoldable pub settle : ℕ → TcpConnection → Server → Server
unfolding remove_fd assign
settle sockfd conn s =
    let kept = record s { m_connections = assign sockfd conn s.m_connections } in
    if is_connected conn.m_state
    then record kept { done = kept.done ++ (arms sockfd ∷ []) }
    else remove_fd sockfd kept

-- `if (timer) timer_lst.adjust_timer(timer);`
unfoldable pub refresh : ℕ → ℕ → ℕ → Server → Option Server
unfolding timer_of
refresh sockfd fresh now s = do
  timer ← timer_of sockfd s
  timers ← adjust_timer fresh now timer s.timers
  some (record s { timers = timers })

-- What follows HandleRead; `none` if an exception leaves the message callback or recv is not followed
-- to its end.
unfoldable pub after_read : ℕ → Outcome → Server → Option Server
unfolding settle
after_read sockfd starved s = none
after_read sockfd terminates s = none
after_read sockfd (returns sent conn) s = some (settle sockfd conn s)

-- EPOLLIN
unfoldable pub read_ready : ℕ → ℕ → ℕ → Wire → List Received → Server → Option Server
unfolding refresh after_read find
read_ready sockfd fresh now wire rs s = do
  s' ← refresh sockfd fresh now s
  elim (find sockfd s'.m_connections) [
    | none ↦ some s'
    | some conn ↦ after_read sockfd (handle_read wire rs conn) s'
  ]

-- EPOLLOUT
unfoldable pub write_ready : ℕ → ℕ → ℕ → Wire → Server → Option Server
unfolding refresh settle find
write_ready sockfd fresh now wire s = do
  s' ← refresh sockfd fresh now s
  elim (find sockfd s'.m_connections) [
    | none ↦ some s'
    | some conn ↦ some (settle sockfd (handle_write wire conn).1 s')
  ]

-- cb_func for each of the clients, in order.
unfoldable pub kick_all : List ℕ → Server → Server
unfolding remove_fd
kick_all [] s = s
kick_all (fd ∷ fds) s = kick_all fds (remove_fd fd s)

-- The body of `if (timeout)`, at the time `cur`. cb_func does not touch the heap.
unfoldable pub sweep : ℕ → Server → Option Server
unfolding kick_all
sweep cur s = do
  (timers, kicked) ← tick cur s.timers
  let swept = kick_all kicked (record s { timers = timers })
  some (record swept { timeout = false; done = swept.done ++ (alarms timeslot ∷ []) })

unfoldable pub on_timeout : ℕ → Server → Option Server
unfolding sweep
on_timeout cur s = if s.timeout then sweep cur s else some s
