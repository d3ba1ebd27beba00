-- ===== src/Tests/Servers.antt =====
-- Runs of src/tcpserver.cc: a client is accepted, and the server is told to stop.
use mprpc_advanced_z.Base.{
  ℕ, ◌≡◌, refl, subst, true, false, [], ◌∷◌, some, none, arith, nat_eq, ltb→lt,
}
use mprpc_advanced_z.Base.Maps.{find}
use mprpc_advanced_z.TcpConnection.{eagain}
use mprpc_advanced_z.TcpServer.{Server, Callbacks, max_fd, set_nonblocking, add_fd}
use mprpc_advanced_z.TcpServer.Loop.{
  Ready, Sockets, events, start, serve, set_up, set_up_calls, add_signal, finish, run_server,
}
use mprpc_advanced_z.TcpServer.Watched.{watches}
use mprpc_advanced_z.TcpServer.Running.{Reports, IsRunning, Lasts, serve-IsRunning}
use mprpc_advanced_z.TimeHeap.{Memory}
use mprpc_advanced_z.TimeHeap.Leaks.{destroy}
use mprpc_advanced_z.TcpServer.Lifetime.{run_server-IsRunning, run_server-frees, set_up-IsRunning}

abbrev silent : Callbacks
silent = record { m_connection_callback = false; m_message_callback = none }

abbrev sockets : Sockets
sockets = record {
  m_ip = [];
  m_port = 8000;
  server_fd = 3;
  epoll_fd = 4;
  pipe_out = 5;
  pipe_in = 6;
}

abbrev pointers : ℕ → ℕ
pointers _ = 0

abbrev begin : Server
begin = set_up sockets pointers

-- A client connects, and then SIGALRM and SIGTERM have arrived.
abbrev connects : Ready
connects = record {
  sockfd = 3;
  epollin = true;
  epollout = false;
  hung_up = false;
  accepted = record { connfd = 8; timer = 1; now = 100 } ∷ [];
  signals = [];
  fresh = 2;
  now = 100;
  wire = λ _. none;
  received = eagain ∷ [];
}

abbrev told : Ready
told = record connects { sockfd = 5; accepted = []; signals = 14 ∷ 15 ∷ [] }

connects-Reports : Reports 3 5 silent max_fd connects begin
unfolding set_up set_up_calls add_fd set_nonblocking add_signal watches find
connects-Reports = record {
  watched = refl;
  piped = λ e. absurd (ground arith);
  arrive = (
    record { unused = refl; inside = ltb→lt 8 max_fd refl; nonnull = ground arith; free = refl },
    λ s' e. tt,
  );
  client = λ c e. absurd (ground (arith, e));
}

told-Reports :
    (s : Server) → serve 3 5 silent connects begin ≡ some s → Reports 3 5 silent max_fd told s
told-Reports s e =
    let (s', e', v) =
      serve-IsRunning 3 5 silent max_fd connects begin (omega arith)
        (set_up-IsRunning sockets silent pointers) connects-Reports in
    let same : s' ≡ s = cc (e, e') in
    let w : IsRunning 3 5 silent s = subst (IsRunning 3 5 silent) same v in
    record {
      watched = ground (arith, w.watching.watched 5);
      piped = λ _. refl;
      arrive = tt;
      client = λ c f.
          let mine = w.serving.current 5 c f in
          let own = w.watching.clients (s.timers.client_timer 5) mine.timer mine.live in
          absurd (ground (arith, mine.owner));
    }

silent_run : Lasts 3 5 silent max_fd (events (connects ∷ told ∷ []) 1000 ∷ []) begin
silent_run = ((connects-Reports, λ s e. (told-Reports s e, λ s' e'. tt)), λ s1 s2 e1 e2. tt)

run_server-IsRunning_example :
    (s : Server) × (start 3 5 silent (events (connects ∷ told ∷ []) 1000 ∷ []) begin ≡ some s)
    × IsRunning 3 5 silent s
    × (run_server sockets silent pointers (events (connects ∷ told ∷ []) 1000 ∷ [])
        ≡ some (finish sockets s))
run_server-IsRunning_example =
    run_server-IsRunning sockets silent pointers max_fd (events (connects ∷ told ∷ []) 1000 ∷ [])
      (omega arith) silent_run

run_server-frees_example :
    (s : Server) × (run_server sockets silent pointers (events (connects ∷ told ∷ []) 1000 ∷ [])
      ≡ some s)
    × ((mem : Memory) × (destroy s.timers ≡ some mem) × ((p : ℕ) → mem p ≡ none))
run_server-frees_example =
    run_server-frees sockets silent pointers max_fd (events (connects ∷ told ∷ []) 1000 ∷ [])
      (omega arith) silent_run
