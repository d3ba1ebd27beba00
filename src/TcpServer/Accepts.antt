-- ===== src/TcpServer/Accepts.antt =====
-- src/tcpserver.cc: a connection that is accepted gets a timer of its own.
use mathlib.Core.List.{Mem, mem-cons_self, mem-cons_of_mem}
use mathlib.Core.List.Perm
use mprpc_advanced_z.Base.{
  ℕ, ◌+◌, ◌*◌, ◌≡◌, ◌≢◌, refl, sym, ap, subst, ◌∙◌, none, some, true, false, nat_beq, nat_eq,
  if◌then◌else◌, arith, Bool-cases, inl, inr, lt→ltb, ◌<◌,
}
use mprpc_advanced_z.Base.Maps.{find, find-assign}
use mprpc_advanced_z.TimeHeap.{Timer, Memory, State, put}
use mprpc_advanced_z.TimeHeap.Slots.{put_self, put-other, IsLive-at, none-ne-some}
use mprpc_advanced_z.TimeHeap.Insert.{active, add_timer_correct}
use mprpc_advanced_z.TimeHeap.Adjust.{IsHeap-memory, put-fresh-Extends, fresh-not-mem}
use mprpc_advanced_z.TcpConnection.{TcpConnection}
use mprpc_advanced_z.TimeHeap.Leaks.{added-IsOwned}
use mprpc_advanced_z.TcpServer.{
  Server, Callbacks, Accepted, greeted, admit, accept_one, timeslot, max_fd,
}
use mprpc_advanced_z.TcpServer.Timeouts.{Current, IsServing}

admitted_self :
    (cbs : Callbacks) (a : Accepted) (timers : State) (s : Server)
    → find a.connfd (admit cbs a timers s).m_connections ≡ some (greeted cbs a.connfd)
unfolding admit
admitted_self cbs a timers s =
    let self : nat_beq a.connfd a.connfd ≡ true = ground arith in
    find-assign a.connfd a.connfd (greeted cbs a.connfd) s.m_connections ∙ rw self refl

admitted_other :
    (cbs : Callbacks) (a : Accepted) (timers : State) (s : Server) (fd : ℕ) (q : TcpConnection)
    → nat_beq a.connfd fd ≡ false
    → find fd (admit cbs a timers s).m_connections ≡ some q
    → find fd s.m_connections ≡ some q
unfolding admit
admitted_other cbs a timers s fd q b e =
    sym (find-assign a.connfd fd (greeted cbs a.connfd) s.m_connections ∙ rw b refl) ∙ e

-- Accepting a connection meets no dangling pointer if the address of its timer is new and users_timer
-- has an entry for it: afterwards it is in the table, its pointer leads to that timer, no other timer
-- has changed, the timers form a heap with every live timer in it, and every connection in the table has
-- its live timer with its callback in it, if that was so before.
pub accept_one-IsServing :
    (cbs : Callbacks) (a : Accepted) (s : Server)
    → IsServing s
    → a.timer ≢ 0
    → s.timers.memory a.timer ≡ none
    → a.connfd < max_fd
    → (s' : Server) × (accept_one cbs a s ≡ some s')
      × IsServing s'
      × ((c : TcpConnection) × (find a.connfd s'.m_connections ≡ some c))
      × (s'.timers.client_timer a.connfd ≡ a.timer)
      × ((p : ℕ) → a.timer ≢ p → s'.timers.memory p ≡ s.timers.memory p)
unfolding accept_one admit
accept_one-IsServing cbs a s v z f inside =
    let t : Timer = record {
      expire = a.now + 3 * timeslot;
      cb_func = true;
      user_data = a.connfd;
    } in
    let mem = put a.timer (some t) s.timers.memory in
    let users = λ (fd : ℕ). if nat_beq a.connfd fd then a.timer else s.timers.client_timer fd in
    let grown = put-fresh-Extends s.timers.memory a.timer t f z v.heap.null in
    let heap = IsHeap-memory s.timers mem users v.heap grown in
    let here = put_self a.timer (some t) s.timers.memory in
    let self : nat_beq a.connfd a.connfd ≡ true = ground arith in
    let (timers, run, heap', added, m, c) =
      add_timer_correct (record s.timers { memory = mem; client_timer = users }) a.timer heap z
        (IsLive-at mem a.timer t here).0 (fresh-not-mem s.timers a.timer v.heap f) in
    let current : (fd : ℕ) (q : TcpConnection)
        → find fd (admit cbs a timers s).m_connections ≡ some q
        → Current timers fd =
      λ fd q e. elim (Bool-cases (nat_beq a.connfd fd)) [
        | inl b ↦
            let same : a.connfd ≡ fd = ground arith in
            let pointer : timers.client_timer fd ≡ a.timer =
              ap (λ (k : ℕ → ℕ). k fd) c ∙ rw b refl in
            record {
              timer = t;
              live = ap timers.memory pointer ∙ (ap (λ (k : Memory). k a.timer) m ∙ here);
              armed = refl;
              owner = same;
              there =
                  subst (λ p. Mem p (active timers)) (sym pointer)
                    ((Perm.mem_iff added).1 mem-cons_self);
              inside = rw (← same) inside;
            }
        | inr b ↦
            let old = v.current fd q (admitted_other cbs a timers s fd q b e) in
            let p = s.timers.client_timer fd in
            let pointer : timers.client_timer fd ≡ p = ap (λ (k : ℕ → ℕ). k fd) c ∙ rw b refl in
            let differs : a.timer ≢ p =
              λ g. none-ne-some old.timer (sym f ∙ (ap s.timers.memory g ∙ old.live)) in
            record {
              timer = old.timer;
              live =
                  ap timers.memory pointer
                  ∙ (ap (λ (k : Memory). k p) m
                      ∙ (put-other a.timer p (some t) s.timers.memory differs ∙ old.live));
              armed = old.armed;
              owner = old.owner;
              there =
                  subst (λ p. Mem p (active timers)) (sym pointer)
                    ((Perm.mem_iff added).1 (mem-cons_of_mem a.timer old.there));
              inside = old.inside;
            }
      ] in
    (
      admit cbs a timers s,
      rw (lt→ltb _ _ inside, run) refl,
      record {
        heap = heap';
        owned = added-IsOwned s.timers timers a.timer t v.owned added m;
        current = current;
      },
      (greeted cbs a.connfd, admitted_self cbs a timers s),
      ap (λ (k : ℕ → ℕ). k a.connfd) c ∙ rw self refl,
      λ p n. ap (λ (k : Memory). k p) m ∙ put-other a.timer p (some t) s.timers.memory n,
    )
