-- ===== src/TcpServer/Timeouts.antt =====
-- src/tcpserver.cc with src/include/lst_timer.h: which connections a timeout closes.
use mathlib.Core.HLevel.{⊥_prop}
use mathlib.Core.Logic.Or
use mathlib.Core.List.{Mem, mem-cons, not-mem-nil}
use mathlib.Core.List.Perm
use mprpc_advanced_z.Base.{
  ℕ, ◌≤◌, ◌<◌, ◌≡◌, ◌≢◌, refl, sym, ap, subst, ◌∙◌, List, [], ◌∷◌, ◌++◌, none, some, true, false,
  ltb, nat_beq, nat_eq, if◌then◌else◌, arith, Bool-cases, Option-cases, inl, inr, ltb→lt, ltb→le,
}
use mprpc_advanced_z.Base.Maps.{find, find-erase}
use mprpc_advanced_z.TimeHeap.{Timer, Memory, State, >>=-some}
use mprpc_advanced_z.TimeHeap.Slots.{key, IsLive, IsLive-cases}
use mprpc_advanced_z.TimeHeap.Insert.{active, IsHeap}
use mprpc_advanced_z.TimeHeap.Slots.{none-ne-some}
use mprpc_advanced_z.TimeHeap.Leaks.{IsOwned, skip-front, no_slot, Ticked-IsOwned}
use mprpc_advanced_z.TimeHeap.Tick.{pointers, kicks, AllExpired, Ticked, tick_correct}
use mprpc_advanced_z.TcpConnection.{TcpConnection}
use mprpc_advanced_z.TcpServer.{
  Server, max_fd, alarms, timeslot, remove_fd, kick_all, sweep, on_timeout,
}

-- The client's pointer, in users_timer, leads to a live timer in the heap, with its callback, that is
-- the client's.
pub record Current (s : State) (fd : ℕ) : Type 0 where
  pub timer : Timer
  pub live : s.memory (s.client_timer fd) ≡ some timer
  pub armed : timer.cb_func ≡ true
  pub owner : timer.user_data ≡ fd
  pub there : Mem (s.client_timer fd) (active s)
  pub inside : fd < max_fd

-- The timers form a heap in which every live timer is, that of each connection in the table among them.
pub record IsServing (s : Server) : Type 0 where
  pub heap : IsHeap s.timers
  pub owned : IsOwned s.timers
  pub current :
      (fd : ℕ) (c : TcpConnection) → find fd s.m_connections ≡ some c → Current s.timers fd

abbrev pub NotIn : ℕ → List ℕ → Type 0
NotIn fd [] = Unit {0}
NotIn fd (k ∷ ks) = (k ≢ fd) × NotIn fd ks

kick_all-timers : (ks : List ℕ) (s : Server) → (kick_all ks s).timers ≡ s.timers
unfolding kick_all remove_fd
kick_all-timers [] s = refl
kick_all-timers (k ∷ ks) s = kick_all-timers ks (remove_fd k s)

-- A connection that is left was there, and was not kicked.
pub kick_all-find :
    (ks : List ℕ) (s : Server) (fd : ℕ) (c : TcpConnection)
    → find fd (kick_all ks s).m_connections ≡ some c
    → (find fd s.m_connections ≡ some c) × NotIn fd ks
unfolding kick_all remove_fd
kick_all-find [] s fd c e = (e, tt)
kick_all-find (k ∷ ks) s fd c e =
    let (before, rest) = kick_all-find ks (remove_fd k s) fd c e in
    let erased = find-erase k fd s.m_connections in
    elim (Bool-cases (nat_beq k fd)) [
      | inl b ↦
          let nothing : none ≡ some c = sym (erased ∙ rw b refl) ∙ before in absurd (cc nothing)
      | inr b ↦ (sym (erased ∙ rw b refl) ∙ before, ((ground (arith, b)), rest))
    ]

NotIn-later :
    (fd : ℕ) (u : Timer) (gone : List (ℕ × Timer))
    → NotIn fd (if u.cb_func then u.user_data ∷ kicks gone else kicks gone)
    → NotIn fd (kicks gone)
NotIn-later fd u gone n = elim (Bool-cases u.cb_func) [
  | inl e ↦
      let n' : NotIn fd (u.user_data ∷ kicks gone) =
        subst (λ b. NotIn fd (if b then u.user_data ∷ kicks gone else kicks gone)) e n in
      n'.1
  | inr e ↦ subst (λ b. NotIn fd (if b then u.user_data ∷ kicks gone else kicks gone)) e n
]

-- A timer that is in use and armed is not among those taken out, if its client was not kicked.
pub not-gone :
    (cur : ℕ) (mem : Memory) (gone : List (ℕ × Timer)) (p fd : ℕ) (t : Timer)
    → AllExpired cur mem gone
    → mem p ≡ some t
    → t.cb_func ≡ true
    → t.user_data ≡ fd
    → NotIn fd (kicks gone)
    → ¬ Mem p (pointers gone)
not-gone cur mem [] p fd t x l a o n m = not-mem-nil m
not-gone cur mem ((q, u) ∷ gone) p fd t (there, late, x) l a o n m =
    Or.elim ⊥_prop (mem-cons.0 m)
      (λ e.
        let same : u ≡ t = ground (arith, ap mem e, there, l) in
        let called = ap (λ (v : Timer). v.cb_func) same ∙ a in
        let n' : NotIn fd (u.user_data ∷ kicks gone) =
          subst (λ b. NotIn fd (if b then u.user_data ∷ kicks gone else kicks gone)) called n in
        n'.0 (ap (λ (v : Timer). v.user_data) same ∙ o))
      (λ m'. not-gone cur mem gone p fd t x l a o (NotIn-later fd u gone n) m')

dead_slot : (mem : Memory) (q : ℕ) → mem q ≡ none → ¬ IsLive mem q
dead_slot mem q e l = let (t, f) = IsLive-cases mem q l in none-ne-some t (sym e ∙ f)

-- The client's timer after a tick that did not kick the client: the same, and not yet expired.
Ticked-Current :
    (cur fd : ℕ) (s s' : State) (kicked : List ℕ) (gone : List (ℕ × Timer))
    → Ticked cur s s' kicked gone
    → NotIn fd kicked
    → Current s fd
    → Current s' fd × (cur < key s'.memory (s'.client_timer fd))
Ticked-Current cur fd s s' kicked gone k n c =
    let p = s.client_timer fd in
    let out =
      not-gone cur s.memory gone p fd c.timer k.expired c.live c.armed c.owner
        (subst (NotIn fd) k.called n) in
    let there = skip-front p (pointers gone) (active s') out ((Perm.mem_iff k.split).1 c.there) in
    let same_pointer : s'.client_timer fd ≡ p = ap (λ (f : ℕ → ℕ). f fd) k.clients in
    let live : s'.memory p ≡ some c.timer = elim (Option-cases (s'.memory p)) [
      | inl e ↦ absurd (
          no_slot (λ q. s'.memory q ≡ none) s'.heap.cur_size s'.heap.array p
            (λ i h l e'. dead_slot s'.memory _ e' (k.heap.live i h)) e there)
      | inr (t, e) ↦ let before = k.only_freed p t e in e ∙ (sym before ∙ c.live)
    ] in
    let fresh : cur < key s'.memory p = elim (Bool-cases (ltb cur (key s'.memory p))) [
      | inl e ↦ ltb→lt _ _ e
      | inr e ↦ absurd (
          no_slot (λ q. key s'.memory q ≤ cur) s'.heap.cur_size s'.heap.array p
            (λ i h l late. omega (arith, k.fresh i h, late)) (ltb→le _ _ e) there)
    ] in
    rw same_pointer (
      record {
        timer = c.timer;
        live = ap s'.memory same_pointer ∙ live;
        armed = c.armed;
        owner = c.owner;
        there = subst (λ q. Mem q (active s')) (sym same_pointer) there;
        inside = c.inside;
      },
      fresh,
    )

-- When the alarm has gone off, the server goes through no dangling pointer, and every connection that
-- it keeps was there before, has its live timer with its callback in the heap, and expires after the
-- present time. Before and after, the timers form a heap with every live timer in it, and before each
-- connection has its timer in it.
pub on_timeout-IsServing :
    (cur : ℕ) (s : Server)
    → IsServing s
    → s.timeout ≡ true
    → (s' : Server) × (on_timeout cur s ≡ some s')
      × IsServing s'
      × (s'.timeout ≡ false)
      × ((fd : ℕ) (c : TcpConnection)
          → find fd s'.m_connections ≡ some c
          → (find fd s.m_connections ≡ some c)
            × (cur < key s'.timers.memory (s'.timers.client_timer fd)))
unfolding on_timeout sweep
on_timeout-IsServing cur s v e =
    let (timers, kicked, gone, run, k) = tick_correct cur s.timers v.heap in
    let s1 = record s { timers = timers } in
    let swept = kick_all kicked s1 in
    let s' = record swept { timeout = false; done = swept.done ++ (alarms timeslot ∷ []) } in
    let same = kick_all-timers kicked s1 in
    let kept : (fd : ℕ) (c : TcpConnection)
        → find fd s'.m_connections ≡ some c
        → (find fd s.m_connections ≡ some c)
          × (Current timers fd × (cur < key timers.memory (timers.client_timer fd))) =
      λ fd c f.
        let (before, n) = kick_all-find kicked s1 fd c f in
        (before, Ticked-Current cur fd s.timers timers kicked gone k n (v.current fd c before)) in
    (
      s',
      rw e (>>=-some _ run refl),
      record {
        heap = subst IsHeap (sym same) k.heap;
        owned = subst IsOwned (sym same) (Ticked-IsOwned cur s.timers timers kicked gone k v.owned);
        current = λ fd c f. subst (λ t. Current t fd) (sym same) (kept fd c f).1.0;
      },
      refl,
      λ fd c f. (
        (kept fd c f).0,
        subst (λ (t : State). cur < key t.memory (t.client_timer fd)) (sym same) (kept fd c f).1.1,
      ),
    )
