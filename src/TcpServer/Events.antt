-- ===== src/TcpServer/Events.antt =====
-- src/tcpserver.cc: the events of a connection, by which it is read, written or hung up.
use mathlib.Core.List.{Mem, mem-cons_self, mem-cons_of_mem}
use mathlib.Core.List.Perm
use mprpc_advanced_z.Base.{
  ℕ, ◌+◌, ◌≡◌, ◌≢◌, refl, sym, ap, subst, ◌∙◌, none, some, false, nat_beq, nat_eq, arith,
  Bool-cases, inl, inr, take, lt→ltb, ◌<◌,
}
use mprpc_advanced_z.Base.Maps.{find, assign, find-assign, find-erase}
use mprpc_advanced_z.TimeHeap.{Timer, State, TimeHeap, >>=-some}
use mprpc_advanced_z.TimeHeap.Slots.{none-ne-some}
use mprpc_advanced_z.TimeHeap.Insert.{active, IsHeap}
use mprpc_advanced_z.TimeHeap.Leaks.{IsOwned, adjusted-IsOwned, changed-IsOwned}
use mprpc_advanced_z.TimeHeap.Adjust.{del_timer_correct, adjust_timer_correct}
use mprpc_advanced_z.TcpConnection.{TcpConnection, is_connected}
use mprpc_advanced_z.TcpServer.{Server, max_fd, timer_of, remove_fd, hang_up, settle, refresh}
use mprpc_advanced_z.TcpServer.Timeouts.{Current, IsServing}

-- A client keeps its timer where its pointer, the timer and the slot of the heap stay.
Current-keep :
    (s s' : State) (fd : ℕ) (c : Current s fd)
    → s'.client_timer fd ≡ s.client_timer fd
    → s'.memory (s.client_timer fd) ≡ s.memory (s.client_timer fd)
    → Mem (s.client_timer fd) (active s')
    → Current s' fd
Current-keep s s' fd c same kept there = record {
  timer = c.timer;
  live = ap s'.memory same ∙ kept ∙ c.live;
  armed = c.armed;
  owner = c.owner;
  there = subst (λ p. Mem p (active s')) (sym same) there;
  inside = c.inside;
}

-- The pointers of two clients differ.
Current-apart :
    (s : State) (fd fd' : ℕ)
    → Current s fd
    → Current s fd'
    → fd ≢ fd'
    → s.client_timer fd ≢ s.client_timer fd'
Current-apart s fd fd' c c' n e =
    let same : some c.timer ≡ some c'.timer = sym c.live ∙ (ap s.memory e ∙ c'.live) in
    let timer : c.timer ≡ c'.timer = cc same in
    n (sym c.owner ∙ (ap (λ (t : Timer). t.user_data) timer ∙ c'.owner))

timer_of-inside :
    (fd : ℕ) (s : Server) → fd < max_fd → timer_of fd s ≡ some (s.timers.client_timer fd)
unfolding timer_of
timer_of-inside fd s h = rw (lt→ltb _ _ h) refl

-- What epoll and the allocator promise when a connection is served: the descriptor is that of a
-- connection, and the address of the new timer is free.
pub record Served (sockfd fresh : ℕ) (s : Server) : Type 0 where
  pub conn : TcpConnection
  pub found : find sockfd s.m_connections ≡ some conn
  pub nonnull : fresh ≢ 0
  pub free : s.timers.memory fresh ≡ none

-- The client's old timer is replaced by a new one, and the other clients keep theirs.
pub refresh-IsServing :
    (sockfd fresh now : ℕ) (s : Server)
    → IsServing s
    → Served sockfd fresh s
    → (timers : State) × (refresh sockfd fresh now s ≡ some (record s { timers = timers }))
      × IsServing (record s { timers = timers })
      × (timers.client_timer sockfd ≡ fresh)
      × ((t : Timer) × (timers.memory fresh ≡ some t) × (t.expire ≡ now + 15))
unfolding refresh
refresh-IsServing sockfd fresh now s v e =
    let c = v.current sockfd e.conn e.found in
    let p = s.timers.client_timer sockfd in
    let (timers, run, heap, added, old, new, mine, others, clients) =
      adjust_timer_correct s.timers p fresh now c.timer v.heap c.live e.nonnull e.free in
    let owner : c.timer.user_data ≡ sockfd = c.owner in
    let pointer : timers.client_timer sockfd ≡ fresh = ap timers.client_timer (sym owner) ∙ mine in
    let current : (fd : ℕ) (q : TcpConnection)
        → find fd s.m_connections ≡ some q
        → Current timers fd =
      λ fd q f. elim (Bool-cases (nat_beq sockfd fd)) [
        | inl b ↦
            let same : sockfd ≡ fd = ground arith in
            subst (Current timers) same record {
              timer = record c.timer { expire = now + 15 };
              live = ap timers.memory pointer ∙ new;
              armed = c.armed;
              owner = c.owner;
              there =
                  subst (λ q. Mem q (active timers)) (sym pointer)
                    ((Perm.mem_iff added).1 mem-cons_self);
              inside = c.inside;
            }
        | inr b ↦
            let differs : sockfd ≢ fd = ground arith in
            let d = v.current fd q f in
            let far = Current-apart s.timers sockfd fd c d differs in
            let used : fresh ≢ s.timers.client_timer fd =
              λ g. none-ne-some d.timer (sym e.free ∙ (ap s.timers.memory g ∙ d.live)) in
            Current-keep s.timers timers fd d (clients fd (λ g. differs (sym owner ∙ g)))
              (others (s.timers.client_timer fd) far used)
              ((Perm.mem_iff added).1 (mem-cons_of_mem fresh d.there))
      ] in
    (
      timers,
      >>=-some _ (timer_of-inside sockfd s c.inside) (>>=-some _ run refl),
      record {
        heap = heap;
        owned = adjusted-IsOwned s.timers timers p fresh c.timer v.owned c.live added others;
        current = current;
      },
      pointer,
      (record c.timer { expire = now + 15 }, new, refl),
    )

-- A table in which no connection is new.
IsServing-fewer :
    (s s' : Server)
    → IsServing s
    → s'.timers ≡ s.timers
    → ((fd : ℕ) (c : TcpConnection)
        → find fd s'.m_connections ≡ some c
        → (d : TcpConnection) × (find fd s.m_connections ≡ some d))
    → IsServing s'
IsServing-fewer s s' v e old = record {
  heap = subst IsHeap (sym e) v.heap;
  owned = subst IsOwned (sym e) v.owned;
  current =
      λ fd c f. let (d, g) = old fd c f in subst (λ t. Current t fd) (sym e) (v.current fd d g);
}

remove_fd-old :
    (fd : ℕ) (s : Server) (k : ℕ) (c : TcpConnection)
    → find k (remove_fd fd s).m_connections ≡ some c
    → (nat_beq fd k ≡ false) × (find k s.m_connections ≡ some c)
unfolding remove_fd
remove_fd-old fd s k c f = ground (arith, find-erase fd k s.m_connections)

remove_fd-IsServing : (fd : ℕ) (s : Server) → IsServing s → IsServing (remove_fd fd s)
unfolding remove_fd
remove_fd-IsServing fd s v =
    IsServing-fewer s (remove_fd fd s) v refl (λ k c f. (c, (remove_fd-old fd s k c f).1))

assign-IsServing :
    (fd : ℕ) (conn old : TcpConnection) (s : Server)
    → IsServing s
    → find fd s.m_connections ≡ some old
    → IsServing (record s { m_connections = assign fd conn s.m_connections })
assign-IsServing fd conn old s v e =
    IsServing-fewer s (record s { m_connections = assign fd conn s.m_connections }) v refl
      λ k c f. elim (Bool-cases (nat_beq fd k)) [
        | inl b ↦ let same : fd ≡ k = ground arith in (old, rw (← same) e)
        | inr b ↦ (c, sym (find-assign fd k conn s.m_connections ∙ rw b refl) ∙ f)
      ]

pub settle-IsServing :
    (fd : ℕ) (conn old : TcpConnection) (s : Server)
    → IsServing s
    → find fd s.m_connections ≡ some old
    → IsServing (settle fd conn s)
unfolding settle
settle-IsServing fd conn old s v e =
    let kept = record s { m_connections = assign fd conn s.m_connections } in
    let w = assign-IsServing fd conn old s v e in
    elim (Bool-cases (is_connected conn.m_state)) [
      | inl b ↦ rw b (IsServing-fewer kept _ w refl (λ k c f. (c, f)))
      | inr b ↦ rw b (remove_fd-IsServing fd kept w)
    ]

-- The hung-up connection is out of the table, its timer stays without its callback.
pub hang_up-IsServing :
    (sockfd : ℕ) (s : Server) (conn : TcpConnection)
    → IsServing s
    → find sockfd s.m_connections ≡ some conn
    → (s' : Server) × (hang_up sockfd s ≡ some s') × IsServing s'
unfolding hang_up remove_fd
hang_up-IsServing sockfd s conn v e =
    let c = v.current sockfd conn e in
    let p = s.timers.client_timer sockfd in
    let (timers, run, heap, slots, emptied, others, clients) =
      del_timer_correct s.timers p c.timer v.heap c.live in
    let s1 = record s { timers = timers } in
    let current : (fd : ℕ) (q : TcpConnection)
        → find fd (remove_fd sockfd s1).m_connections ≡ some q
        → Current timers fd =
      λ fd q f.
        let (apart, g) = remove_fd-old sockfd s1 fd q f in
        let differs : sockfd ≢ fd = ground arith in
        let d = v.current fd q g in
        Current-keep s.timers timers fd d (ap (λ (k : ℕ → ℕ). k fd) clients)
          (others (s.timers.client_timer fd) (Current-apart s.timers sockfd fd c d differs))
          (subst (λ (h : TimeHeap). Mem (s.timers.client_timer fd) (take h.cur_size h.array))
            (sym slots) d.there) in
    (
      remove_fd sockfd s1,
      >>=-some _ (timer_of-inside sockfd s c.inside) (>>=-some _ run refl),
      record {
        heap = heap;
        owned =
            changed-IsOwned s.timers timers p c.timer v.owned c.live
              (ap (λ (h : TimeHeap). take h.cur_size h.array) slots) others;
        current = current;
      },
    )
