-- ===== src/Tests/Timers.antt =====
-- Runs of src/include/lst_timer.h and src/tcpserver.cc, on a heap of two timers.
use mathlib.Core.HLevel.{⊥_prop}
use mathlib.Core.Logic.Or
use mathlib.Core.List.{
  Mem, Nodup-nil, mem-cons, mem-cons_self, mem-cons_of_mem, not-mem-nil, Nodup-cons,
}
use mprpc_advanced_z.Base.{
  ℕ, zero, suc, ◌≡◌, ◌≢◌, ◌⊎◌, ◌<◌, refl, sym, ap, ◌∙◌, subst, true, false, List, [], ◌∷◌, Option,
  some, none, arith, nat_beq, nat_eq, if◌then◌else◌, Bool-cases, inl, inr, ltb→lt,
}
use mprpc_advanced_z.TimeHeap.{
  Timer, Memory, State, put, expire_of, load, store, grown, up_loop, add_timer, adjust_timer, tick,
}
use mprpc_advanced_z.Base.Maps.{find}
use mprpc_advanced_z.TcpConnection.{TcpConnection, k_connected, eof, handle_close, handle_read}
use mprpc_advanced_z.TcpServer.{
  Server, Callbacks, Accepted, max_fd, on_timeout, read_ready, accept_one,
}
use mprpc_advanced_z.TcpServer.Stale.{accept_one-kicked}
use mprpc_advanced_z.TcpServer.Timeouts.{Current, IsServing}
use mprpc_advanced_z.TcpServer.Expired.{Expired, on_timeout-closes}
use mprpc_advanced_z.TimeHeap.Slots.{key, AllLive, Ordered}
use mprpc_advanced_z.TimeHeap.Insert.{active, IsHeap}
use mprpc_advanced_z.TimeHeap.Tick.{Ticked, tick_correct}

abbrev early : Timer
early = record { expire = 10; cb_func = true; user_data = 6 }

abbrev late : Timer
late = record { expire = 20; cb_func = true; user_data = 7 }

-- The timers 1 and 2 are in the heap.
abbrev memory : Memory
memory = put 1 (some early) (put 2 (some late) (λ _. none))

abbrev two : State
two = record {
  heap = record { array = 1 ∷ 2 ∷ 0 ∷ []; capacity = 3; cur_size = 2 };
  memory = memory;
  client_timer = λ _. 0;
}

two-AllLive : AllLive memory 2 (1 ∷ 2 ∷ 0 ∷ [])
unfolding expire_of
two-AllLive zero h = refl
two-AllLive (suc zero) h = refl
two-AllLive (suc (suc c)) h = absurd (omega arith)

two-Ordered : Ordered memory 2 (1 ∷ 2 ∷ 0 ∷ [])
two-Ordered zero p h = absurd (omega arith)
two-Ordered (suc zero) p h = omega arith
two-Ordered (suc (suc c)) p h = absurd (omega arith)

not-in_one : (p q : ℕ) → p ≢ q → ¬ Mem p (q ∷ [])
not-in_one p q ne m = Or.elim ⊥_prop (mem-cons.0 m) ne not-mem-nil

two-IsHeap : IsHeap two
two-IsHeap = record {
  fits = omega arith;
  size = refl;
  positive = omega arith;
  ordered = two-Ordered;
  live = two-AllLive;
  distinct = Nodup-cons.1 (not-in_one 1 2 (ground arith), Nodup-cons.1 (not-mem-nil, Nodup-nil));
  null = refl;
}

tick_correct_example :
    (s' : State) × (kicked : List ℕ) × (gone : List (ℕ × Timer)) × (tick 15 two ≡ some (s', kicked))
    × Ticked 15 two s' kicked gone
tick_correct_example = tick_correct 15 two two-IsHeap

-- The clients 6 and 7 are connected, and the alarm has gone off.
abbrev conn : TcpConnection
conn = record {
  m_fd = 6;
  m_state = k_connected;
  m_input_buffer = record { m_buffer = []; m_reader_index = 0; m_writer_index = 0 };
  m_output_buffer = record { m_buffer = []; m_reader_index = 0; m_writer_index = 0 };
  m_connection_callback = false;
  m_message_callback = none;
  notified = 0;
}

abbrev serving : Server
serving = record {
  m_connections = (6, conn) ∷ (7, record conn { m_fd = 7 }) ∷ [];
  timers = record two { client_timer = λ fd. if nat_beq fd 6 then 1 else 2 };
  timeout = true;
  stop_server = false;
  done = [];
}

serving-Current :
    (fd : ℕ) (c : TcpConnection)
    → find fd serving.m_connections ≡ some c
    → Current serving.timers fd
unfolding find
serving-Current fd c e = elim (Bool-cases (nat_beq 6 fd)) [
  | inl f ↦
      let here : 6 ≡ fd = ground arith in
      subst (Current serving.timers) here record {
        timer = early;
        live = refl;
        armed = refl;
        owner = refl;
        there = mem-cons_self;
        inside = ltb→lt 6 max_fd refl;
      }
  | inr f ↦ elim (Bool-cases (nat_beq 7 fd)) [
    | inl g ↦
        let here : 7 ≡ fd = ground arith in
        subst (Current serving.timers) here record {
          timer = late;
          live = refl;
          armed = refl;
          owner = refl;
          there = mem-cons_of_mem 1 mem-cons_self;
          inside = ltb→lt 7 max_fd refl;
        }
    | inr g ↦ absurd (ground (arith, e, f, g))
  ]
]

serving-IsOwned : (p : ℕ) (t : Timer) → serving.timers.memory p ≡ some t → Mem p (active two)
serving-IsOwned p t e = elim (Bool-cases (nat_beq 1 p)) [
  | inl f ↦ let here : 1 ≡ p = ground arith in subst (λ q. Mem q (active two)) here mem-cons_self
  | inr f ↦ elim (Bool-cases (nat_beq 2 p)) [
    | inl g ↦
        let here : 2 ≡ p = ground arith in
        subst (λ q. Mem q (active two)) here (mem-cons_of_mem 1 mem-cons_self)
    | inr g ↦ absurd (ground (arith, e, f, g))
  ]
]

serving-IsServing : IsServing serving
serving-IsServing = record {
  heap = record {
    fits = omega arith;
    size = refl;
    positive = omega arith;
    ordered = two-Ordered;
    live = two-AllLive;
    distinct = two-IsHeap.distinct;
    null = refl;
  };
  owned = serving-IsOwned;
  current = serving-Current;
}

on_timeout-closes_example :
    (s' : Server) × (on_timeout 15 serving ≡ some s')
    × IsServing s'
    × (s'.timeout ≡ false)
    × ((Expired 15 7 serving.timers × (find 7 s'.m_connections ≡ none))
        ⊎ ((¬ Expired 15 7 serving.timers)
            × (find 7 s'.m_connections ≡ some (record conn { m_fd = 7 }))
            × (15 < key s'.timers.memory (s'.timers.client_timer 7))))
    × ((k : ℕ) (d : TcpConnection)
        → find k s'.m_connections ≡ some d
        → find k serving.m_connections ≡ some d)
unfolding find
on_timeout-closes_example =
    on_timeout-closes 15 7 (record conn { m_fd = 7 }) serving serving-IsServing refl refl

-- The client 6 hangs up, its descriptor is given to another at 114, and the alarm goes off at 115.
abbrev second : Accepted
second = record { connfd = 6; timer = 5; now = 114 }

abbrev deaf : Callbacks
deaf = record { m_connection_callback = false; m_message_callback = none }

abbrev read : Option Server
read = read_ready 6 4 100 (λ _. none) (eof ∷ []) serving

abbrev timer_at : ℕ → Option Server → Option Timer
timer_at p none = none
timer_at p (some s) = s.timers.memory p

read-free : timer_at 5 read ≡ none
unfolding read_ready adjust_timer add_timer up_loop grown load expire_of store handle_read
    handle_close
read-free = refl

accept_one-kicked_example :
    (s1 s2 s3 : Server) × (read_ready 6 4 100 (λ _. none) (eof ∷ []) serving ≡ some s1)
    × (accept_one deaf second s1 ≡ some s2)
    × ((c : TcpConnection) × (find 6 s2.m_connections ≡ some c))
    × (on_timeout 115 (record s2 { timeout = true }) ≡ some s3)
    × (find 6 s3.m_connections ≡ none)
unfolding find handle_read handle_close
accept_one-kicked_example =
    accept_one-kicked 6 4 100 115 (λ _. none) (eof ∷ []) [] (handle_close conn) deaf second serving
      serving-IsServing (record { conn = conn; found = refl; nonnull = ground arith; free = refl })
      refl refl refl (ground arith) (λ s1 e. ap (timer_at 5) (sym e) ∙ read-free) (omega arith)
