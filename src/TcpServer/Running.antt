-- ===== src/TcpServer/Running.antt =====
-- src/tcpserver.cc: the event loop of Start over what epoll_wait returns.
use mprpc_advanced_z.Base.{
  ℕ, ◌<◌, ◌≤◌, ◌≡◌, ◌≢◌, refl, sym, subst, List, [], ◌∷◌, none, some, true, false, nat_beq, nat_eq,
  arith, Bool-cases, Option-cases, inl, inr,
}
use mprpc_advanced_z.Base.Maps.{find}
use mprpc_advanced_z.TimeHeap.{>>=-some}
use mprpc_advanced_z.TcpConnection.{TcpConnection}
use mprpc_advanced_z.TcpServer.{
  Server, Callbacks, Accepted, max_fd, accept_one, accept_all, take_signals, on_timeout,
}
use mprpc_advanced_z.TcpServer.Loop.{
  Ready, serve_client, serve, serve_all, Batch, failure, interrupted, events,
}
use mprpc_advanced_z.TcpServer.Timeouts.{IsServing}
use mprpc_advanced_z.TcpServer.Accepts.{accept_one-IsServing}
use mprpc_advanced_z.TcpServer.Events.{Served, hang_up-IsServing}
use mprpc_advanced_z.TcpServer.Reads.{Ends, Answers, read_ready-IsServing, write_ready-IsServing}
use mprpc_advanced_z.TcpServer.Watched.{watches, reserved, IsWatching}
use mprpc_advanced_z.TcpServer.Handlers.{
  accept_one-IsWatching, hang_up-IsWatching, read_ready-IsWatching, write_ready-IsWatching,
  take_signals-kept,
}

-- An event of a connection: the address of a new timer is free, recv comes to an end, and the message
-- callback does not throw.
pub record Client (e : Ready) (s : Server) (c : TcpConnection) : Type 0 where
  pub nonnull : e.fresh ≢ 0
  pub free : s.timers.memory e.fresh ≡ none
  pub ends : Ends e.received
  pub answers : Answers e.received c

-- A descriptor that accept returns is not in use and below the limit that the process has on open
-- descriptors, RLIMIT_NOFILE, at which accept fails; and the address of its timer is new.
pub record Arrives (limit : ℕ) (a : Accepted) (s : Server) : Type 0 where
  pub unused : watches s.done a.connfd false ≡ false
  pub inside : a.connfd < limit
  pub nonnull : a.timer ≢ 0
  pub free : s.timers.memory a.timer ≡ none

module _ (server_fd pipe_fd : ℕ) (cbs : Callbacks) where
  abbrev pub AllArrive : ℕ → List Accepted → Server → Type 0
  AllArrive limit [] s = Unit {0}
  AllArrive limit (a ∷ as') s =
      Arrives limit a s × ((s' : Server) → accept_one cbs a s ≡ some s' → AllArrive limit as' s')

  -- What the system and the callback promise of an event, when it is served in the state: epoll
  -- reports a descriptor that it watches, and for the pipe, whose other end stays open, only that it
  -- can be read; accept returns new descriptors; and what an event of a connection needs.
  pub record Reports (limit : ℕ) (e : Ready) (s : Server) : Type 0 where
    pub watched : watches s.done e.sockfd false ≡ true
    pub piped : nat_beq e.sockfd pipe_fd ≡ true → e.epollin ≡ true
    pub arrive : AllArrive limit e.accepted s
    pub client : (c : TcpConnection) → find e.sockfd s.m_connections ≡ some c → Client e s c

  abbrev pub AllReport : ℕ → List Ready → Server → Type 0
  AllReport limit [] s = Unit {0}
  AllReport limit (e ∷ es) s =
      Reports limit e s
      × ((s' : Server) → serve server_fd pipe_fd cbs e s ≡ some s' → AllReport limit es s')

  abbrev pub Lasts : ℕ → List Batch → Server → Type 0
  Lasts limit [] s = Unit {0}
  Lasts limit (failure ∷ bs) s = Unit {0}
  Lasts limit (interrupted cur ∷ bs) s =
      (s' : Server) → on_timeout cur s ≡ some s' → Lasts limit bs s'
  Lasts limit (events es cur ∷ bs) s =
      AllReport limit es s
      × ((s1 s2 : Server)
          → serve_all server_fd pipe_fd cbs es s ≡ some s1
          → on_timeout cur s1 ≡ some s2
          → Lasts limit bs s2)

  -- Every connection has its timer, and epoll watches the connections and the server's descriptors.
  pub record IsRunning (s : Server) : Type 0 where
    pub serving : IsServing s
    pub watching : IsWatching server_fd pipe_fd s

  accept_all-IsRunning :
      (limit : ℕ) (as' : List Accepted) (s : Server)
      → limit ≤ max_fd
      → IsRunning s
      → AllArrive limit as' s
      → (s' : Server) × (accept_all cbs as' s ≡ some s') × IsRunning s'
  unfolding accept_all
  accept_all-IsRunning limit [] s m v h = (s, refl, v)
  accept_all-IsRunning limit (a ∷ as') s m v (h, more) =
      let inside : a.connfd < max_fd = omega (arith, h.inside, m) in
      let (s1, e, w, there, pointer, others) =
        accept_one-IsServing cbs a s v.serving h.nonnull h.free inside in
      let w' = accept_one-IsWatching server_fd pipe_fd cbs a s s1 e v.watching h.unused in
      let (s2, f, x) =
        accept_all-IsRunning limit as' s1 m (record { serving = w; watching = w' }) (more s1 e) in
      (s2, >>=-some _ e f, x)

  take_signals-IsRunning :
      (sigs : List ℕ) (s : Server) → IsRunning s → IsRunning (take_signals sigs s)
  take_signals-IsRunning sigs s v =
      let (flags, e) = take_signals-kept sigs s in
      subst IsRunning (sym e) record {
        serving = record {
          heap = v.serving.heap;
          owned = v.serving.owned;
          current = v.serving.current;
        };
        watching = record {
          watched = v.watching.watched;
          owns = v.watching.owns;
          clients = v.watching.clients;
        };
      }

  -- A descriptor that epoll reports and that is not the server's own is that of a connection.
  reported :
      (fd : ℕ) (s : Server)
      → IsWatching server_fd pipe_fd s
      → watches s.done fd false ≡ true
      → reserved server_fd pipe_fd fd ≡ false
      → (c : TcpConnection) × (find fd s.m_connections ≡ some c)
  reported fd s v e r = elim (Option-cases (find fd s.m_connections)) [
    | inl f ↦ absurd (ground (arith, v.watched fd))
    | inr (c, f) ↦ (c, f)
  ]

  client-IsRunning :
      (limit : ℕ) (e : Ready) (s : Server)
      → IsRunning s
      → Reports limit e s
      → reserved server_fd pipe_fd e.sockfd ≡ false
      → (s' : Server) × (serve_client e s ≡ some s') × IsRunning s'
  unfolding serve_client
  client-IsRunning limit e s v h r =
      let (c, f) = reported e.sockfd s v.watching h.watched r in
      let h' = h.client c f in
      let served : Served e.sockfd e.fresh s = record {
        conn = c;
        found = f;
        nonnull = h'.nonnull;
        free = h'.free;
      } in
      let (s1, e1, w1) = hang_up-IsServing e.sockfd s c v.serving f in
      let (s2, e2, w2) =
        read_ready-IsServing e.sockfd e.fresh e.now e.wire e.received s v.serving served h'.ends
          h'.answers in
      let (s3, e3, w3) = write_ready-IsServing e.sockfd e.fresh e.now e.wire s v.serving served in
      let x1 = hang_up-IsWatching server_fd pipe_fd e.sockfd s s1 e1 v.watching r in
      let x2 =
        read_ready-IsWatching server_fd pipe_fd e.sockfd e.fresh e.now e.wire e.received s s2 e2
          v.watching r in
      let x3 =
        write_ready-IsWatching server_fd pipe_fd e.sockfd e.fresh e.now e.wire s s3 e3 v.watching
          r in
      elim (Bool-cases e.hung_up) [
        | inl b ↦ (s1, rw b e1, record { serving = w1; watching = x1 })
        | inr b ↦ elim (Bool-cases e.epollin) [
          | inl b' ↦ (s2, simp (b, b') e2, record { serving = w2; watching = x2 })
          | inr b' ↦ elim (Bool-cases e.epollout) [
            | inl b'' ↦ (s3, simp (b, b', b'') e3, record { serving = w3; watching = x3 })
            | inr b'' ↦ (s, simp (b, b', b'') refl, v)
          ]
        ]
      ]

  pub serve-IsRunning :
      (limit : ℕ) (e : Ready) (s : Server)
      → limit ≤ max_fd
      → IsRunning s
      → Reports limit e s
      → (s' : Server) × (serve server_fd pipe_fd cbs e s ≡ some s') × IsRunning s'
  unfolding serve
  serve-IsRunning limit e s m v h =
      let (s1, e1, w1) = accept_all-IsRunning limit e.accepted s m v h.arrive in
      elim (Bool-cases (nat_beq e.sockfd server_fd)) [
        | inl b ↦ (s1, rw b e1, w1)
        | inr b ↦ elim (Bool-cases (nat_beq e.sockfd pipe_fd)) [
          | inl b' ↦ (
            take_signals e.signals s,
            simp (b, b', h.piped b') refl,
            take_signals-IsRunning e.signals s v,
          )
          | inr b' ↦
              let (s2, e2, w2) = client-IsRunning limit e s v h (simp (b, b') refl) in
              (s2, simp (b, b') e2, w2)
        ]
      ]
