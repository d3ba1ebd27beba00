-- ===== src/TcpServer/Stale.antt =====
-- src/tcpserver.cc: the timer that a connection leaves behind when HandleRead has closed it.

use mathlib.Core.List.{Mem}
use mathlib.Core.List.Perm
use mprpc_advanced_z.Base.{
  ℕ, ◌+◌, ◌≤◌, ◌<◌, ◌≡◌, ◌≢◌, refl, sym, ap, subst, ◌∙◌, List, [], ◌∷◌, ◌++◌, none, some, true,
  false, nat_beq, nat_eq, arith, Option-cases, inl, inr,
}
use mprpc_advanced_z.Base.Bytes.{Bytes}
use mprpc_advanced_z.Base.Maps.{find, assign, find-erase}
use mprpc_advanced_z.TimeHeap.{Timer, >>=-some}
use mprpc_advanced_z.TimeHeap.Slots.{at, IsLive-at, IsLive-cases, none-ne-some}
use mprpc_advanced_z.TimeHeap.Insert.{active}
use mprpc_advanced_z.TimeHeap.Leaks.{skip-front, no_slot}
use mprpc_advanced_z.TimeHeap.Tick.{pointers, tick_correct}
use mprpc_advanced_z.TcpConnection.{
  TcpConnection, Wire, Received, handle_read, returns, is_connected,
}
use mprpc_advanced_z.TcpServer.{
  Server, Callbacks, Accepted, max_fd, alarms, timeslot, remove_fd, settle, read_ready, after_read,
  accept_one, kick_all, sweep, on_timeout,
}
use mprpc_advanced_z.TcpServer.Timeouts.{IsServing, NotIn, not-gone, kick_all-find}
use mprpc_advanced_z.TcpServer.Accepts.{accept_one-IsServing}
use mprpc_advanced_z.TcpServer.Events.{Served, refresh-IsServing, settle-IsServing}

-- A timer with its callback that has expired closes the connection of its descriptor, whether or not
-- it is that connection's own.
pub on_timeout-kicks :
    (cur p fd : ℕ) (t : Timer) (s : Server)
    → IsServing s
    → s.timeout ≡ true
    → s.timers.memory p ≡ some t
    → t.cb_func ≡ true
    → t.user_data ≡ fd
    → t.expire ≤ cur
    → (s' : Server) × (on_timeout cur s ≡ some s') × (find fd s'.m_connections ≡ none)
unfolding on_timeout sweep
on_timeout-kicks cur p fd t s v e live armed owner late =
    let (timers, kicked, gone, run, k) = tick_correct cur s.timers v.heap in
    let s1 = record s { timers = timers } in
    let swept = kick_all kicked s1 in
    let there = (Perm.mem_iff k.split).1 (v.owned p t live) in
    let stays : ¬ Mem p (active timers) =
      no_slot (λ q. q ≡ p) timers.heap.cur_size timers.heap.array p
        (λ c h l same.
          let (u, f) = IsLive-cases timers.memory (at timers.heap.array c) (k.heap.live c h) in
          let f' : timers.memory p ≡ some u = sym (ap timers.memory same) ∙ f in
          let old : u ≡ t = ground (arith, k.only_freed p u f', live) in
          omega (
            arith,
            k.fresh c h,
            (IsLive-at timers.memory _ u f).1,
            ap (λ (w : Timer). w.expire) old,
            late,
          ))
        refl in
    let gone_now : (find fd swept.m_connections) ≡ none =
      elim (Option-cases (find fd swept.m_connections)) [
        | inl f ↦ f
        | inr (c, f) ↦
            let (before, n) = kick_all-find kicked s1 fd c f in
            let out =
              not-gone cur s.timers.memory gone p fd t k.expired live armed owner
                (subst (NotIn fd) k.called n) in
            absurd (stays (skip-front p (pointers gone) (active timers) out there))
      ] in
    (
      record swept { timeout = false; done = swept.done ++ (alarms timeslot ∷ []) },
      rw e (>>=-some _ run refl),
      gone_now,
    )

-- A connection that HandleRead closes is taken out of the table, and its timer stays as it was made.
read_ready-leaves :
    (sockfd fresh now : ℕ) (wire : Wire) (rs : List Received) (sent : Bytes)
    (closed : TcpConnection) (s : Server)
    → IsServing s
    → (e : Served sockfd fresh s) → handle_read wire rs e.conn ≡ returns sent closed
    → is_connected closed.m_state ≡ false
    → (s' : Server) × (read_ready sockfd fresh now wire rs s ≡ some s')
      × IsServing s'
      × (find sockfd s'.m_connections ≡ none)
      × ((t : Timer) × (s'.timers.memory fresh ≡ some t)
          × (t.cb_func ≡ true)
          × (t.user_data ≡ sockfd)
          × (t.expire ≡ now + 15))
unfolding read_ready after_read settle remove_fd
read_ready-leaves sockfd fresh now wire rs sent closed s v e back shut =
    let (timers, run, w, pointer, (t, live, expires)) = refresh-IsServing sockfd fresh now s v e in
    let s1 = record s { timers = timers } in
    let mine = w.current sockfd e.conn e.found in
    let same : mine.timer ≡ t = ground (arith, ap timers.memory pointer, mine.live, live) in
    let kept = assign sockfd closed s.m_connections in
    let self : nat_beq sockfd sockfd ≡ true = ground arith in
    (
      settle sockfd closed s1,
      >>=-some _ run (simp (e.found, back) refl),
      settle-IsServing sockfd closed e.conn s1 w e.found,
      rw shut (find-erase sockfd sockfd kept ∙ rw self refl),
      (
        t,
        rw shut live,
        ap (λ (u : Timer). u.cb_func) (sym same) ∙ mine.armed,
        ap (λ (u : Timer). u.user_data) (sym same) ∙ mine.owner,
        expires,
      ),
    )

-- A client whose connection HandleRead closes leaves its timer armed, since the server does not call
-- del_timer then: when accept gives the descriptor to another client, and the alarm goes off once the
-- left timer has expired, the new client is taken out of the table, however late its own timer expires.
-- The connection is served as epoll and the allocator promise, recv gives bytes after which the
-- connection is not connected, and the address of the new client's timer is free.
pub accept_one-kicked :
    (sockfd fresh now cur : ℕ) (wire : Wire) (rs : List Received) (sent : Bytes)
    (closed : TcpConnection) (cbs : Callbacks) (a : Accepted) (s : Server)
    → IsServing s
    → (e : Served sockfd fresh s) → handle_read wire rs e.conn ≡ returns sent closed
    → is_connected closed.m_state ≡ false
    → a.connfd ≡ sockfd
    → a.timer ≢ 0
    → ((s1 : Server)
        → read_ready sockfd fresh now wire rs s ≡ some s1
        → s1.timers.memory a.timer ≡ none)
    → now + 15 ≤ cur
    → (s1 s2 s3 : Server) × (read_ready sockfd fresh now wire rs s ≡ some s1)
      × (accept_one cbs a s1 ≡ some s2)
      × ((c : TcpConnection) × (find sockfd s2.m_connections ≡ some c))
      × (on_timeout cur (record s2 { timeout = true }) ≡ some s3)
      × (find sockfd s3.m_connections ≡ none)
accept_one-kicked sockfd fresh now cur wire rs sent closed cbs a s v e back shut again nonnull free
      late =
    let (s1, e1, v1, out, (t, live, armed, owner, expires)) =
      read_ready-leaves sockfd fresh now wire rs sent closed s v e back shut in
    let unused = free s1 e1 in
    let inside = (v.current sockfd e.conn e.found).inside in
    let (s2, e2, v2, (c, there), pointer, others) =
      accept_one-IsServing cbs a s1 v1 nonnull unused
        (subst (λ k. k < max_fd) (sym again) inside) in
    let apart : a.timer ≢ fresh =
      λ g. none-ne-some t (sym unused ∙ (ap s1.timers.memory g ∙ live)) in
    let alarmed = record s2 { timeout = true } in
    let (s3, e3, gone) =
      on_timeout-kicks cur fresh sockfd t alarmed
        (record { heap = v2.heap; owned = v2.owned; current = v2.current }) refl
        (others fresh apart ∙ live) armed owner (omega (arith, expires, late)) in
    let found = subst (λ k. find k s2.m_connections ≡ some c) again there in
    (s1, s2, s3, e1, e2, (c, found), e3, gone)
