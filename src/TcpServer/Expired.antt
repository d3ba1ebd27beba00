-- ===== src/TcpServer/Expired.antt =====
-- src/tcpserver.cc with src/include/lst_timer.h: a timeout closes the connections whose descriptor has a
-- timer that has expired with its callback, and keeps every other one.
use mprpc_advanced_z.Base.{
  ℕ, ◌≤◌, ◌<◌, ◌≡◌, ◌≢◌, ◌⊎◌, refl, sym, ap, subst, ◌∙◌, List, [], ◌∷◌, ◌++◌, none, some, true,
  false, nat_beq, nat_eq, arith, Bool-cases, inl, inr,
}
use mprpc_advanced_z.Base.Maps.{find, find-erase}
use mprpc_advanced_z.TimeHeap.{Timer, State, >>=-some}
use mprpc_advanced_z.TimeHeap.Slots.{key}
use mprpc_advanced_z.TimeHeap.Tick.{kicks, AllExpired, tick_correct}
use mprpc_advanced_z.TcpConnection.{TcpConnection}
use mprpc_advanced_z.TcpServer.{Server, alarms, timeslot, remove_fd, kick_all, sweep, on_timeout}
use mprpc_advanced_z.TcpServer.Timeouts.{IsServing, NotIn, on_timeout-IsServing}
use mprpc_advanced_z.TcpServer.Stale.{on_timeout-kicks}

-- A live timer of the descriptor that has its callback and has expired by the time.
pub record Expired (cur fd : ℕ) (s : State) : Type 0 where
  pub pointer : ℕ
  pub timer : Timer
  pub live : s.memory pointer ≡ some timer
  pub armed : timer.cb_func ≡ true
  pub owner : timer.user_data ≡ fd
  pub late : timer.expire ≤ cur

-- What is not kicked stays.
kick_all-kept :
    (ks : List ℕ) (s : Server) (fd : ℕ)
    → NotIn fd ks
    → find fd (kick_all ks s).m_connections ≡ find fd s.m_connections
unfolding kick_all remove_fd
kick_all-kept [] s fd n = refl
kick_all-kept (k ∷ ks) s fd (apart, n) =
    let other : nat_beq k fd ≡ false = ground (arith, apart) in
    kick_all-kept ks (remove_fd k s) fd n ∙ (find-erase k fd s.m_connections ∙ rw other refl)

-- A client that is kicked has an expired timer.
kicked-Expired :
    (cur fd : ℕ) (s : State) (gone : List (ℕ × Timer))
    → AllExpired cur s.memory gone
    → NotIn fd (kicks gone) ⊎ Expired cur fd s
kicked-Expired cur fd s [] x = inl tt
kicked-Expired cur fd s ((p, t) ∷ gone) (live, late, x) = elim (kicked-Expired cur fd s gone x) [
  | inr e ↦ inr e
  | inl n ↦ elim (Bool-cases t.cb_func) [
    | inr b ↦ inl (rw b n)
    | inl b ↦ elim (Bool-cases (nat_beq t.user_data fd)) [
      | inl c ↦ inr record {
        pointer = p;
        timer = t;
        live = live;
        armed = b;
        owner = ground arith;
        late = late;
      }
      | inr c ↦ let apart : t.user_data ≢ fd = ground arith in inl (rw b (apart, n))
    ]
  ]
]

unkicked :
    (cur : ℕ) (s s' : Server) (fd : ℕ) (c : TcpConnection)
    → IsServing s
    → s.timeout ≡ true
    → on_timeout cur s ≡ some s'
    → find fd s.m_connections ≡ some c
    → (find fd s'.m_connections ≡ some c) ⊎ Expired cur fd s.timers
unfolding on_timeout sweep
unkicked cur s s' fd c v e run found =
    let (timers, kicked, gone, ticks, k) = tick_correct cur s.timers v.heap in
    let s1 = record s { timers = timers } in
    let swept = kick_all kicked s1 in
    let final = record swept { timeout = false; done = swept.done ++ (alarms timeslot ∷ []) } in
    let ends : on_timeout cur s ≡ some final = rw e (>>=-some _ ticks refl) in
    let same : s' ≡ final = cc (sym run ∙ ends) in
    elim (kicked-Expired cur fd s.timers gone k.expired) [
      | inr x ↦ inr x
      | inl n ↦ inl (
          ap (λ (o : Server). find fd o.m_connections) same
          ∙ (kick_all-kept kicked s1 fd (subst (NotIn fd) (sym k.called) n) ∙ found))
    ]

-- The alarm has gone off, a connection is in the table, and the timers are a heap with every live timer
-- in it, among them one with its callback for each connection of the table. Then the server goes through
-- no dangling pointer, and one of two things happens. Either a live timer of the connection's descriptor
-- had its callback and had expired, its own or one that an earlier client of the descriptor has left, and
-- the descriptor is not in the table any more. Or there was no such timer, the connection is still in
-- the table as it was, and its own timer expires after the present time. Every connection that is then in
-- the table was there before, the timers are such a heap again, and the alarm is taken as served.
pub on_timeout-closes :
    (cur fd : ℕ) (c : TcpConnection) (s : Server)
    → IsServing s
    → s.timeout ≡ true
    → find fd s.m_connections ≡ some c
    → (s' : Server) × (on_timeout cur s ≡ some s')
      × IsServing s'
      × (s'.timeout ≡ false)
      × ((Expired cur fd s.timers × (find fd s'.m_connections ≡ none))
          ⊎ ((¬ Expired cur fd s.timers)
              × (find fd s'.m_connections ≡ some c)
              × (cur < key s'.timers.memory (s'.timers.client_timer fd))))
      × ((k : ℕ) (d : TcpConnection)
          → find k s'.m_connections ≡ some d
          → find k s.m_connections ≡ some d)
on_timeout-closes cur fd c s v e found =
    let (s', run, w, off, kept) = on_timeout-IsServing cur s v e in
    let taken_out : Expired cur fd s.timers → find fd s'.m_connections ≡ none = λ x.
      let (t', run', out) =
        on_timeout-kicks cur x.pointer fd x.timer s v e x.live x.armed x.owner x.late in
      let same : s' ≡ t' = cc (sym run ∙ run') in
      ap (λ (o : Server). find fd o.m_connections) same ∙ out in
    let outcome : (Expired cur fd s.timers × (find fd s'.m_connections ≡ none))
        ⊎ ((¬ Expired cur fd s.timers)
            × (find fd s'.m_connections ≡ some c)
            × (cur < key s'.timers.memory (s'.timers.client_timer fd))) =
      elim (unkicked cur s s' fd c v e run found) [
        | inr x ↦ inl (x, taken_out x)
        | inl still ↦ inr (
          (λ x. let clash : none ≡ some c = sym (taken_out x) ∙ still in cc clash),
          still,
          (kept fd c still).1,
        )
      ] in
    (s', run, w, off, outcome, λ k d f. (kept k d f).0)
