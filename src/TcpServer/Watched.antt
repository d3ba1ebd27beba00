-- ===== src/TcpServer/Watched.antt =====
-- src/tcpserver.cc: the descriptors that epoll watches are those of the table, and the server's own.
use mprpc_advanced_z.Base.{
  ℕ, ◌≡◌, refl, ◌∙◌, List, [], ◌∷◌, none, some, Bool, true, false, nat_beq, nat_eq, if◌then◌else◌,
  arith, Bool-cases, Option-cases, inl, inr, ◌++◌, ◌||◌,
}
use mprpc_advanced_z.Base.Maps.{Map, find, assign, find-assign, find-erase}
use mprpc_advanced_z.TimeHeap.{State}
use mprpc_advanced_z.TimeHeap.Clients.{AllClients, AllOf}
use mprpc_advanced_z.TcpConnection
use mprpc_advanced_z.TcpConnection.{
  set_message_callback, set_connection_callback, TcpConnection, Wire, Received, is_connected,
}
use mprpc_advanced_z.TcpServer.{
  Effect, adds, arms, drops, sets_nonblocking, closes, alarms, ignores, opens, reuses_address,
  binds, listens, creates_epoll, pairs, catches, set_nonblocking, add_fd, Server, Callbacks,
  Accepted, greeted, admit, destroyed, remove_fd, settle, kick_all,
}

-- Whether epoll watches a descriptor after the calls, if it does before as `b` says: a descriptor that
-- is closed is watched no longer.
unfoldable pub watches : List Effect → ℕ → Bool → Bool
watches [] fd b = b
watches (adds k one_shot ∷ es) fd b = watches es fd (if nat_beq k fd then true else b)
watches (drops k ∷ es) fd b = watches es fd (if nat_beq k fd then false else b)
watches (closes k ∷ es) fd b = watches es fd (if nat_beq k fd then false else b)
watches (_ ∷ es) fd b = watches es fd b

pub watches-append :
    (xs ys : List Effect) (fd : ℕ) (b : Bool)
    → watches (xs ++ ys) fd b ≡ watches ys fd (watches xs fd b)
unfolding watches
watches-append [] ys fd b = refl
watches-append (adds k one_shot ∷ xs) ys fd b = watches-append xs ys fd _
watches-append (drops k ∷ xs) ys fd b = watches-append xs ys fd _
watches-append (closes k ∷ xs) ys fd b = watches-append xs ys fd _
watches-append (arms k ∷ xs) ys fd b = watches-append xs ys fd b
watches-append (sets_nonblocking k ∷ xs) ys fd b = watches-append xs ys fd b
watches-append (alarms k ∷ xs) ys fd b = watches-append xs ys fd b
watches-append (ignores k ∷ xs) ys fd b = watches-append xs ys fd b
watches-append (opens k ∷ xs) ys fd b = watches-append xs ys fd b
watches-append (reuses_address k ∷ xs) ys fd b = watches-append xs ys fd b
watches-append (binds k ip port ∷ xs) ys fd b = watches-append xs ys fd b
watches-append (listens k n ∷ xs) ys fd b = watches-append xs ys fd b
watches-append (creates_epoll k ∷ xs) ys fd b = watches-append xs ys fd b
watches-append (pairs k j ∷ xs) ys fd b = watches-append xs ys fd b
watches-append (catches k ∷ xs) ys fd b = watches-append xs ys fd b

-- The connection's descriptor is closed at most, by its destructor.
watches-destroyed :
    (fd : ℕ) (m : Map ℕ TcpConnection) (k : ℕ) (b : Bool)
    → ((c : TcpConnection) → find fd m ≡ some c → c.m_fd ≡ fd)
    → (nat_beq fd k ≡ true → b ≡ false)
    → watches (destroyed fd m) k b ≡ b
unfolding watches destroyed
watches-destroyed fd m k b owns gone = elim (Option-cases (find fd m)) [
  | inl e ↦ ground arith
  | inr (c, e) ↦ ground (arith, owns c e)
]

greeted-m_fd : (cbs : Callbacks) (fd : ℕ) → (greeted cbs fd).m_fd ≡ fd
unfolding greeted TcpConnection.new set_message_callback set_connection_callback
greeted-m_fd cbs fd = refl

module _ (server_fd pipe_fd : ℕ) where
  -- The listening socket and the end of the pipe that is read.
  abbrev pub reserved : ℕ → Bool
  reserved fd = nat_beq fd server_fd || nat_beq fd pipe_fd

  abbrev pub in_table : ℕ → Map ℕ TcpConnection → Bool
  in_table fd m = elim (find fd m) [ none ↦ false | some c ↦ true ]

  -- epoll watches the server's own descriptors and those of the table; each connection stands in the
  -- table under its descriptor, and no timer has one of the server's own as its client.
  pub record IsWatching (s : Server) : Type 0 where
    pub watched : (fd : ℕ) → watches s.done fd false ≡ (in_table fd s.m_connections || reserved fd)
    pub owns : (fd : ℕ) (c : TcpConnection) → find fd s.m_connections ≡ some c → c.m_fd ≡ fd
    pub clients : AllClients (λ fd. reserved fd ≡ false) s.timers.memory

  pub remove_fd-IsWatching :
      (fd : ℕ) (s : Server) → IsWatching s → reserved fd ≡ false → IsWatching (remove_fd fd s)
  unfolding remove_fd watches
  remove_fd-IsWatching fd s v r = record {
    watched = λ k.
        watches-append s.done (drops fd ∷ closes fd ∷ destroyed fd s.m_connections) k false
        ∙ (watches-destroyed fd s.m_connections k _ (v.owns fd) (λ e. rw e refl)
            ∙ ground (arith, v.watched k, find-erase fd k s.m_connections));
    owns = λ k c e. ground (arith, v.owns k c, find-erase fd k s.m_connections);
    clients = v.clients;
  }

  -- A descriptor that accept returns is not in use yet.
  pub admit-IsWatching :
      (cbs : Callbacks) (a : Accepted) (timers : State) (s : Server)
      → IsWatching s
      → watches s.done a.connfd false ≡ false
      → AllClients (λ fd. reserved fd ≡ false) timers.memory
      → IsWatching (admit cbs a timers s)
  unfolding admit watches destroyed add_fd set_nonblocking
  admit-IsWatching cbs a timers s v unused clients = record {
    watched = λ k.
        watches-append s.done (destroyed a.connfd s.m_connections ++ add_fd a.connfd true) k false
        ∙ ground (
          arith,
          v.watched k,
          v.watched a.connfd,
          find-assign a.connfd k (greeted cbs a.connfd) s.m_connections,
        );
    owns = λ k c e. ground (
      arith,
      v.owns k c,
      find-assign a.connfd k (greeted cbs a.connfd) s.m_connections,
      greeted-m_fd cbs a.connfd,
    );
    clients = clients;
  }

  pub settle-IsWatching :
      (fd : ℕ) (conn old : TcpConnection) (s : Server)
      → IsWatching s
      → find fd s.m_connections ≡ some old
      → conn.m_fd ≡ fd
      → reserved fd ≡ false
      → IsWatching (settle fd conn s)
  unfolding settle watches
  settle-IsWatching fd conn old s v e same r =
      let kept = record s { m_connections = assign fd conn s.m_connections } in
      let stays : IsWatching kept = record {
        watched = λ k. ground (arith, v.watched k, find-assign fd k conn s.m_connections);
        owns = λ k c f. ground (arith, v.owns k c, find-assign fd k conn s.m_connections);
        clients = v.clients;
      } in
      elim (Bool-cases (is_connected conn.m_state)) [
        | inl b ↦ rw b record {
          watched = λ k. watches-append s.done (arms fd ∷ []) k false ∙ stays.watched k;
          owns = stays.owns;
          clients = stays.clients;
        }
        | inr b ↦ rw b (remove_fd-IsWatching fd kept stays r)
      ]

  pub kick_all-IsWatching :
      (fds : List ℕ) (s : Server)
      → IsWatching s
      → AllOf (λ fd. reserved fd ≡ false) fds
      → IsWatching (kick_all fds s)
  unfolding kick_all
  kick_all-IsWatching [] s v h = v
  kick_all-IsWatching (fd ∷ fds) s v h =
      kick_all-IsWatching fds (remove_fd fd s) (remove_fd-IsWatching fd s v h.0) h.1
