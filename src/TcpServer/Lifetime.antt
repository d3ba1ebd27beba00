-- ===== src/TcpServer/Lifetime.antt =====
-- src/tcpserver.cc: Start from its set-up to the end of its loop.
use mathlib.Core.List.{Nodup-nil}
use mprpc_advanced_z.Base.{
  ℕ, ◌≤◌, ◌≡◌, refl, List, [], ◌∷◌, Option, none, some, Bool, true, false, nat_eq, if◌then◌else◌,
  arith, Bool-cases, inl, inr, length-replicate,
}
use mprpc_advanced_z.Base.Maps.{find}
use mprpc_advanced_z.TimeHeap.{State, Memory, ◌>>=◌, >>=-some}
use mprpc_advanced_z.TimeHeap.Leaks.{destroy, destroy-frees}
use mprpc_advanced_z.TimeHeap
use mprpc_advanced_z.TcpServer.{Server, Callbacks, max_fd, on_timeout, set_nonblocking, add_fd}
use mprpc_advanced_z.TcpServer.Loop.{
  Ready, serve_all, Batch, failure, interrupted, events, start, Sockets, set_up_calls, add_signal,
  set_up, finish, run_server,
}
use mprpc_advanced_z.TcpServer.Timeouts.{on_timeout-IsServing}
use mprpc_advanced_z.TcpServer.Watched.{watches}
use mprpc_advanced_z.TcpServer.Handlers.{on_timeout-IsWatching}
use mprpc_advanced_z.TcpServer.Running.{AllReport, Lasts, IsRunning, serve-IsRunning}

module _ (server_fd pipe_fd : ℕ) (cbs : Callbacks) where
  serve_all-IsRunning :
      (limit : ℕ) (es : List Ready) (s : Server)
      → limit ≤ max_fd
      → IsRunning server_fd pipe_fd cbs s
      → AllReport server_fd pipe_fd cbs limit es s
      → (s' : Server) × (serve_all server_fd pipe_fd cbs es s ≡ some s')
        × IsRunning server_fd pipe_fd cbs s'
  unfolding serve_all
  serve_all-IsRunning limit [] s m v h = (s, refl, v)
  serve_all-IsRunning limit (e ∷ es) s m v (h, more) =
      let (s1, e1, w1) = serve-IsRunning server_fd pipe_fd cbs limit e s m v h in
      let (s2, e2, w2) = serve_all-IsRunning limit es s1 m w1 (more s1 e1) in
      (s2, >>=-some _ e1 e2, w2)

  on_timeout-IsRunning :
      (cur : ℕ) (s : Server)
      → IsRunning server_fd pipe_fd cbs s
      → (s' : Server) × (on_timeout cur s ≡ some s') × IsRunning server_fd pipe_fd cbs s'
  unfolding on_timeout
  on_timeout-IsRunning cur s v = elim (Bool-cases s.timeout) [
    | inr b ↦ (s, rw b refl, v)
    | inl b ↦
        let (s1, e, w, off, kept) = on_timeout-IsServing cur s v.serving b in
        let x = on_timeout-IsWatching server_fd pipe_fd cur s s1 e v.watching in
        (s1, e, record { serving = w; watching = x })
  ]

  -- `while (!stop_server)`
  stop-IsRunning :
      (stop_server : Bool) (s s' : Server) (more : Option Server)
      → more ≡ some s'
      → IsRunning server_fd pipe_fd cbs s
      → IsRunning server_fd pipe_fd cbs s'
      → (final : Server) × ((if stop_server then some s else more) ≡ some final)
        × IsRunning server_fd pipe_fd cbs final
  stop-IsRunning true s s' more e v w = (s, refl, v)
  stop-IsRunning false s s' more e v w = (s', e, w)

  start-IsRunning :
      (limit : ℕ) (bs : List Batch) (s : Server)
      → limit ≤ max_fd
      → IsRunning server_fd pipe_fd cbs s
      → Lasts server_fd pipe_fd cbs limit bs s
      → (s' : Server) × (start server_fd pipe_fd cbs bs s ≡ some s')
        × IsRunning server_fd pipe_fd cbs s'
  unfolding start
  start-IsRunning limit [] s m v h = (s, refl, v)
  start-IsRunning limit (failure ∷ bs) s m v h = (s, refl, v)
  start-IsRunning limit (interrupted cur ∷ bs) s m v h =
      let (s1, e1, w1) = on_timeout-IsRunning cur s v in
      let (s2, e2, w2) = start-IsRunning limit bs s1 m w1 (h s1 e1) in
      stop-IsRunning s.stop_server s s2 _ (>>=-some _ e1 e2) v w2
  start-IsRunning limit (events es cur ∷ bs) s m v (h, more) =
      let (s1, e1, w1) = serve_all-IsRunning limit es s m v h in
      let (s2, e2, w2) = on_timeout-IsRunning cur s1 w1 in
      let (s3, e3, w3) = start-IsRunning limit bs s2 m w2 (more s1 s2 e1 e2) in
      stop-IsRunning s.stop_server s s3 _ (>>=-some _ e1 (>>=-some _ e2 e3)) v w3

-- The set-up leaves no connection, and its two descriptors watched.
pub set_up-IsRunning :
    (k : Sockets) (cbs : Callbacks) (garbage : ℕ → ℕ)
    → IsRunning k.server_fd k.pipe_out cbs (set_up k garbage)
unfolding set_up set_up_calls add_fd set_nonblocking add_signal find watches TimeHeap.new
set_up-IsRunning k cbs garbage = record {
  serving = record {
    heap = record {
      fits = omega arith;
      size = length-replicate {A = ℕ} 10000 0;
      positive = omega arith;
      ordered = λ c p q. absurd (omega arith);
      live = λ c q. absurd (omega arith);
      distinct = Nodup-nil;
      null = refl;
    };
    owned = λ p t e. absurd (ground (arith, e));
    current = λ fd c e. absurd (ground (arith, e));
  };
  watching = record {
    watched = λ fd. ground arith;
    owns = λ fd c e. absurd (ground (arith, e));
    clients = λ p t e. absurd (ground (arith, e));
  };
}

-- Whatever epoll_wait reports, Start comes to the end of its loop without a dangling pointer and then
-- makes its last calls; at that end every connection in the table has its live timer in the heap, and
-- epoll watches the connections of the table, each under its own descriptor, and the server's two
-- descriptors, and no other.
-- The conditions: the limit of the process on open descriptors is at most MAX_FD, which the code does
-- not check, and accept returns new descriptors below it; epoll reports descriptors that it watches, and
-- for the pipe that it can be read; each series of recv ends; the addresses of new timers are free; and
-- the message callback does not throw.
pub run_server-IsRunning :
    (k : Sockets) (cbs : Callbacks) (garbage : ℕ → ℕ) (limit : ℕ) (bs : List Batch)
    → limit ≤ max_fd
    → Lasts k.server_fd k.pipe_out cbs limit bs (set_up k garbage)
    → (s : Server) × (start k.server_fd k.pipe_out cbs bs (set_up k garbage) ≡ some s)
      × IsRunning k.server_fd k.pipe_out cbs s
      × (run_server k cbs garbage bs ≡ some (finish k s))
unfolding run_server
run_server-IsRunning k cbs garbage limit bs m h =
    let (s, e, v) =
      start-IsRunning k.server_fd k.pipe_out cbs limit bs (set_up k garbage) m
        (set_up-IsRunning k cbs garbage) h in
    (s, e, v, >>=-some _ e refl)

-- Whatever epoll_wait reports, Start comes to its end, and the destructor of the server's heap of
-- timers then deletes each of its timers once, through no pointer that is not live, and leaves no
-- timer in the memory.
-- The conditions: the limit of the process on open descriptors is at most MAX_FD, which the code does
-- not check, and accept returns new descriptors below it; epoll reports descriptors that it watches, and
-- for the pipe that it can be read; each series of recv ends; the addresses of new timers are free; and
-- the message callback does not throw.
pub run_server-frees :
    (k : Sockets) (cbs : Callbacks) (garbage : ℕ → ℕ) (limit : ℕ) (bs : List Batch)
    → limit ≤ max_fd
    → Lasts k.server_fd k.pipe_out cbs limit bs (set_up k garbage)
    → (s : Server) × (run_server k cbs garbage bs ≡ some s)
      × ((mem : Memory) × (destroy s.timers ≡ some mem) × ((p : ℕ) → mem p ≡ none))
unfolding finish
run_server-frees k cbs garbage limit bs m h =
    let (s, e, v, run) = run_server-IsRunning k cbs garbage limit bs m h in
    (finish k s, run, destroy-frees s.timers v.serving.heap v.serving.owned)
