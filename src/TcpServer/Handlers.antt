-- ===== src/TcpServer/Handlers.antt =====
-- src/tcpserver.cc: each event keeps the descriptors that epoll watches those of the table.
use mprpc_advanced_z.Base.{
  ℕ, ◌+◌, ◌*◌, ◌≡◌, refl, sym, subst, ◌∙◌, List, [], ◌∷◌, some, Bool, true, false, nat_beq, nat_eq,
  if◌then◌else◌, arith, Bool-cases, Option-cases, inl, inr, ◌||◌, ltb,
}
use mprpc_advanced_z.Base.Bytes.{Bytes}
use mprpc_advanced_z.Base.Maps.{find}
use mprpc_advanced_z.TimeHeap.{Timer, State, add_timer, del_timer, adjust_timer, tick, >>=-eq-some}
use mprpc_advanced_z.TimeHeap.Clients.{
  AllClients, put-AllClients, add_timer-memory, del_timer-AllClients, adjust_timer-AllClients,
  tick-AllClients,
}
use mprpc_advanced_z.TcpConnection.{
  TcpConnection, Wire, Received, Outcome, starved, terminates, returns, handle_read, handle_write,
}
use mprpc_advanced_z.TcpConnection.Identity.{handle_read-m_fd, handle_write-m_fd}
use mprpc_advanced_z.TcpServer.{
  Server, Callbacks, Accepted, alarms, timeslot, max_fd, accept_one, take_signals, timer_of,
  hang_up, refresh, after_read, read_ready, write_ready, kick_all, sweep, on_timeout,
}
use mprpc_advanced_z.TcpServer.Watched.{
  watches, watches-append, reserved, IsWatching, remove_fd-IsWatching, admit-IsWatching,
  settle-IsWatching, kick_all-IsWatching,
}

-- Signals set flags, and nothing else.
pub take_signals-kept :
    (sigs : List ℕ) (s : Server)
    → (flags : Bool × Bool) × (take_signals sigs s
        ≡ record s { timeout = flags.0; stop_server = flags.1 })
unfolding take_signals
take_signals-kept [] s = ((s.timeout, s.stop_server), refl)
take_signals-kept (sig ∷ sigs) s =
    let s1 =
      if nat_beq sig 14
      then record s { timeout = true }
      else if nat_beq sig 15 || nat_beq sig 2
      then record s { stop_server = true }
      else s in
    let (flags, e) = take_signals-kept sigs s1 in (flags, e ∙ ground arith)

module _ (server_fd pipe_fd : ℕ) where
  abbrev Own : ℕ → Type 0
  Own fd = reserved server_fd pipe_fd fd ≡ false

  -- The state is the same but for its timers and flags.
  same-IsWatching :
      (s s' : Server)
      → some s ≡ some s'
      → IsWatching server_fd pipe_fd s
      → IsWatching server_fd pipe_fd s'
  same-IsWatching s s' e v = let same : s ≡ s' = cc e in subst (IsWatching server_fd pipe_fd) same v

  retimed-IsWatching :
      (timers : State) (s : Server)
      → IsWatching server_fd pipe_fd s
      → AllClients Own timers.memory
      → IsWatching server_fd pipe_fd (record s { timers = timers })
  retimed-IsWatching timers s v h = record { watched = v.watched; owns = v.owns; clients = h }

  pub accept_one-IsWatching :
      (cbs : Callbacks) (a : Accepted) (s s' : Server)
      → accept_one cbs a s ≡ some s'
      → IsWatching server_fd pipe_fd s
      → watches s.done a.connfd false ≡ false
      → IsWatching server_fd pipe_fd s'
  unfolding accept_one
  accept_one-IsWatching cbs a s s' e v unused =
      let t : Timer = record {
        expire = a.now + 3 * timeslot;
        cb_func = true;
        user_data = a.connfd;
      } in
      let own : Own a.connfd = ground (arith, v.watched a.connfd) in
      elim (Bool-cases (ltb a.connfd max_fd)) [
        | inr b ↦ ground arith
        | inl b ↦
            let (timers, f, g) = >>=-eq-some (add_timer a.timer _) _ (rw b at e) in
            let (m, c) = add_timer-memory Own a.timer _ timers f in
            same-IsWatching _ s' g (
              admit-IsWatching server_fd pipe_fd cbs a timers s v unused (
                subst (AllClients Own) (sym m)
                  (put-AllClients Own s.timers.memory a.timer t v.clients own)))
      ]

  pub hang_up-IsWatching :
      (sockfd : ℕ) (s s' : Server)
      → hang_up sockfd s ≡ some s'
      → IsWatching server_fd pipe_fd s
      → Own sockfd
      → IsWatching server_fd pipe_fd s'
  unfolding hang_up
  hang_up-IsWatching sockfd s s' e v own =
      let (timer, f, g) = >>=-eq-some (timer_of sockfd s) _ e in
      let (timers, f1, g1) = >>=-eq-some (del_timer timer s.timers) _ g in
      let kept = del_timer-AllClients Own timer s.timers timers f1 v.clients in
      same-IsWatching _ s' g1 (
        remove_fd-IsWatching server_fd pipe_fd sockfd (record s { timers = timers })
          (retimed-IsWatching timers s v kept) own)

  refresh-IsWatching :
      (sockfd fresh now : ℕ) (s s' : Server)
      → refresh sockfd fresh now s ≡ some s'
      → IsWatching server_fd pipe_fd s
      → IsWatching server_fd pipe_fd s'
  unfolding refresh
  refresh-IsWatching sockfd fresh now s s' e v =
      let (timer, f, g) = >>=-eq-some (timer_of sockfd s) _ e in
      let (timers, f1, g1) = >>=-eq-some (adjust_timer fresh now timer s.timers) _ g in
      let kept = adjust_timer-AllClients Own fresh now timer s.timers timers f1 v.clients in
      same-IsWatching _ s' g1 (retimed-IsWatching timers s v kept)

  after_read-IsWatching :
      (sockfd : ℕ) (o : Outcome) (conn : TcpConnection) (s s' : Server)
      → after_read sockfd o s ≡ some s'
      → ((sent : Bytes) (conn' : TcpConnection) → o ≡ returns sent conn' → conn'.m_fd ≡ conn.m_fd)
      → IsWatching server_fd pipe_fd s
      → find sockfd s.m_connections ≡ some conn
      → Own sockfd
      → IsWatching server_fd pipe_fd s'
  unfolding after_read
  after_read-IsWatching sockfd starved conn s s' e same v h own = cc
  after_read-IsWatching sockfd terminates conn s s' e same v h own = cc
  after_read-IsWatching sockfd (returns sent conn') conn s s' e same v h own =
      same-IsWatching _ s' e (
        settle-IsWatching server_fd pipe_fd sockfd conn' conn s v h
          (same sent conn' refl ∙ v.owns sockfd conn h) own)

  pub read_ready-IsWatching :
      (sockfd fresh now : ℕ) (wire : Wire) (rs : List Received) (s s' : Server)
      → read_ready sockfd fresh now wire rs s ≡ some s'
      → IsWatching server_fd pipe_fd s
      → Own sockfd
      → IsWatching server_fd pipe_fd s'
  unfolding read_ready
  read_ready-IsWatching sockfd fresh now wire rs s s' e v own =
      let (s1, f, g) = >>=-eq-some (refresh sockfd fresh now s) _ e in
      let v1 = refresh-IsWatching sockfd fresh now s s1 f v in
      elim (Option-cases (find sockfd s1.m_connections)) [
        | inl h ↦ same-IsWatching s1 s' (rw h at g) v1
        | inr (c, h) ↦
            after_read-IsWatching sockfd (handle_read wire rs c) c s1 s' (rw h at g)
              (handle_read-m_fd wire rs c) v1 h own
      ]

  pub write_ready-IsWatching :
      (sockfd fresh now : ℕ) (wire : Wire) (s s' : Server)
      → write_ready sockfd fresh now wire s ≡ some s'
      → IsWatching server_fd pipe_fd s
      → Own sockfd
      → IsWatching server_fd pipe_fd s'
  unfolding write_ready
  write_ready-IsWatching sockfd fresh now wire s s' e v own =
      let (s1, f, g) = >>=-eq-some (refresh sockfd fresh now s) _ e in
      let v1 = refresh-IsWatching sockfd fresh now s s1 f v in
      elim (Option-cases (find sockfd s1.m_connections)) [
        | inl h ↦ same-IsWatching s1 s' (rw h at g) v1
        | inr (c, h) ↦ same-IsWatching _ s' (rw h at g) (
            settle-IsWatching server_fd pipe_fd sockfd (handle_write wire c).1 c s1 v1 h
              (handle_write-m_fd wire c ∙ v1.owns sockfd c h) own)
      ]

  sweep-IsWatching :
      (cur : ℕ) (s s' : Server)
      → sweep cur s ≡ some s'
      → IsWatching server_fd pipe_fd s
      → IsWatching server_fd pipe_fd s'
  unfolding sweep watches
  sweep-IsWatching cur s s' e v =
      let ((timers, kicked), f, g) = >>=-eq-some (tick cur s.timers) _ e in
      let (kept, own) = tick-AllClients Own cur s.timers timers kicked f v.clients in
      let swept = kick_all kicked (record s { timers = timers }) in
      let w =
        kick_all-IsWatching server_fd pipe_fd kicked (record s { timers = timers })
          (retimed-IsWatching timers s v kept) own in
      same-IsWatching _ s' g record {
        watched = λ k. watches-append swept.done (alarms timeslot ∷ []) k false ∙ w.watched k;
        owns = w.owns;
        clients = w.clients;
      }

  pub on_timeout-IsWatching :
      (cur : ℕ) (s s' : Server)
      → on_timeout cur s ≡ some s'
      → IsWatching server_fd pipe_fd s
      → IsWatching server_fd pipe_fd s'
  unfolding on_timeout
  on_timeout-IsWatching cur s s' e v = by_flag s.timeout e
    where
      by_flag :
          (b : Bool)
          → (if b then sweep cur s else some s) ≡ some s'
          → IsWatching server_fd pipe_fd s'
      by_flag true f = sweep-IsWatching cur s s' f v
      by_flag false f = same-IsWatching s s' f v
