-- ===== src/TcpServer/Loop.antt =====
-- src/tcpserver.cc: Start, which sets up the sockets and the signals and then serves what epoll_wait
-- returns until it is told to stop.
use mprpc_advanced_z.Base.{
  ℕ, ◌%◌, ◌^◌, List, [], ◌∷◌, ◌++◌, Option, none, some, Bool, false, ◌&&◌, nat_beq, nat_eq,
  if◌then◌else◌,
}
use mprpc_advanced_z.Base.Bytes.{Bytes}
use mprpc_advanced_z.TimeHeap
use mprpc_advanced_z.TimeHeap.{◌>>=◌}
use mprpc_advanced_z.TcpConnection.{Wire, Received}
use mprpc_advanced_z.TcpServer.{
  Server, Callbacks, Accepted, Effect, closes, alarms, ignores, opens, reuses_address, binds,
  listens, creates_epoll, pairs, catches, set_nonblocking, add_fd, timeslot, accept_all,
  take_signals, hang_up, read_ready, write_ready, on_timeout,
}

-- One entry of `events`: the descriptor and its flags, with what the calls that follow return.
pub record Ready : Type 0 where
  pub sockfd : ℕ
  pub epollin : Bool
  pub epollout : Bool
  pub hung_up : Bool
  pub accepted : List Accepted
  pub signals : List ℕ
  pub fresh : ℕ
  pub now : ℕ
  pub wire : Wire
  pub received : List Received

-- What epoll_wait returns: an error, which ends the loop unless it is EINTR, or events, with the
-- time at which they have been served.
pub data Batch : Type 0 where
  failure : Batch
  interrupted : ℕ → Batch
  events : List Ready → ℕ → Batch

-- The events of a connection.
unfoldable pub serve_client : Ready → Server → Option Server
unfolding hang_up read_ready write_ready
serve_client e s =
    if e.hung_up
    then hang_up e.sockfd s
    else if e.epollin
    then read_ready e.sockfd e.fresh e.now e.wire e.received s
    else if e.epollout
    then write_ready e.sockfd e.fresh e.now e.wire s
    else some s

module _ (server_fd pipe_fd : ℕ) (cbs : Callbacks) where
  -- The body of the loop over `events`.
  unfoldable pub serve : Ready → Server → Option Server
  unfolding accept_all take_signals serve_client
  serve e s =
      if nat_beq e.sockfd server_fd
      then accept_all cbs e.accepted s
      else if nat_beq e.sockfd pipe_fd && e.epollin
      then some (take_signals e.signals s)
      else serve_client e s

  unfoldable pub serve_all : List Ready → Server → Option Server
  unfolding serve
  serve_all [] s = some s
  serve_all (e ∷ es) s = serve e s >>= λ s'. serve_all es s'

  -- The loop of Start over the results of epoll_wait, for as long as there are any.
  unfoldable pub start : List Batch → Server → Option Server
  unfolding serve_all on_timeout
  start [] s = some s
  start (failure ∷ bs) s = some s
  start (interrupted cur ∷ bs) s =
      let more = on_timeout cur s >>= λ s'. start bs s' in if s.stop_server then some s else more
  start (events es cur ∷ bs) s =
      let more = (do s' ← serve_all es s; s'' ← on_timeout cur s'; start bs s'') in
      if s.stop_server then some s else more

-- The descriptors that the calls of the set-up return, and the address of the constructor.
pub record Sockets : Type 0 where
  pub m_ip : Bytes
  pub m_port : ℕ
  pub server_fd : ℕ
  pub epoll_fd : ℕ
  pub pipe_out : ℕ
  pub pipe_in : ℕ

-- sig_handler: one byte into the pipe; SIGALRM is 14, SIGTERM 15 and SIGINT 2.
unfoldable pub sig_handler : ℕ → List ℕ → List ℕ
sig_handler sig pipe = pipe ++ (sig % 2 ^ 8 ∷ [])

-- addsig: the handler, with SA_RESTART and every signal blocked while it runs.
unfoldable pub add_signal : ℕ → List Effect
add_signal sig = catches sig ∷ []

-- The calls of Start in front of its loop, SIGPIPE being 13.
unfoldable pub set_up_calls : Sockets → List Effect
unfolding set_nonblocking add_fd add_signal
set_up_calls k =
    ignores 13
    ∷ opens k.server_fd
    ∷ reuses_address k.server_fd
    ∷ binds k.server_fd k.m_ip k.m_port
    ∷ listens k.server_fd 10000
    ∷ creates_epoll k.epoll_fd
    ∷ (add_fd k.server_fd false
        ++ (pairs k.pipe_out k.pipe_in
            ∷ (set_nonblocking k.pipe_in
                ++ add_fd k.pipe_out false
                ++ add_signal 14
                ++ add_signal 15
                ++ add_signal 2
                ++ (alarms timeslot ∷ []))))

-- What the loop starts with: `new client_data[MAX_FD]` leaves the pointers as they are.
unfoldable pub set_up : Sockets → (ℕ → ℕ) → Server
unfolding set_up_calls TimeHeap.new
set_up k garbage = record {
  m_connections = [];
  timers = record { heap = TimeHeap.new 10000; memory = λ _. none; client_timer = garbage };
  timeout = false;
  stop_server = false;
  done = set_up_calls k;
}

-- The calls behind the loop.
unfoldable pub finish : Sockets → Server → Server
finish k s = record s {
  done =
      s.done
      ++ (closes k.epoll_fd ∷ closes k.server_fd ∷ closes k.pipe_in ∷ closes k.pipe_out ∷ []);
}

-- Start, over the results of epoll_wait.
unfoldable pub run_server : Sockets → Callbacks → (ℕ → ℕ) → List Batch → Option Server
unfolding set_up start finish
run_server k cbs garbage bs =
    start k.server_fd k.pipe_out cbs bs (set_up k garbage) >>= λ s. some (finish k s)
