-- ===== src/TimeHeap/Clients.antt =====
-- src/include/lst_timer.h: the timers' clients are those that the timers were made with.
use mprpc_advanced_z.Base.{
  ℕ, zero, suc, ◌+◌, ◌*◌, ◌≡◌, sym, subst, List, [], ◌∷◌, some, false, ltb, nat_beq, arith,
  Bool-cases, inl, inr,
}
use mprpc_advanced_z.TimeHeap.{
  Timer, Memory, State, put, load, store, up_loop, add_timer, del_timer, adjust_timer, free,
  pop_timer, tick_loop, tick, down_loop, >>=-eq-some,
}

-- Every timer in the memory has a client of the kind.
abbrev pub AllClients : (ℕ → Type 0) → Memory → Type 0
AllClients P mem = (p : ℕ) (t : Timer) → mem p ≡ some t → P t.user_data

abbrev pub AllOf : (ℕ → Type 0) → List ℕ → Type 0
AllOf P [] = Unit {0}
AllOf P (x ∷ xs) = P x × AllOf P xs

module _ (P : ℕ → Type 0) where
  same-AllClients :
      (s s' : State) → some s ≡ some s' → AllClients P s.memory → AllClients P s'.memory
  same-AllClients s s' e h =
      let same : s ≡ s' = cc e in subst (λ (o : State). AllClients P o.memory) same h

  pub put-AllClients :
      (mem : Memory) (q : ℕ) (u : Timer)
      → AllClients P mem
      → P u.user_data
      → AllClients P (put q (some u) mem)
  put-AllClients mem q u h x p t e = ground (arith, h p t)

  free-AllClients : (mem : Memory) (q : ℕ) → AllClients P mem → AllClients P (free q mem)
  unfolding free
  free-AllClients mem zero h p t e = h p t e
  free-AllClients mem (suc q) h p t e = ground (arith, h p t)

  pub add_timer-memory :
      (q : ℕ) (s s' : State)
      → add_timer q s ≡ some s'
      → (s'.memory ≡ s.memory) × (s'.client_timer ≡ s.client_timer)
  unfolding add_timer
  add_timer-memory zero s s' e = ground arith
  add_timer-memory (suc q) s s' e =
      let (a, f, g) = >>=-eq-some (up_loop _ _ _ _ _) _ e in ground arith

  pub del_timer-AllClients :
      (q : ℕ) (s s' : State)
      → del_timer q s ≡ some s'
      → AllClients P s.memory
      → AllClients P s'.memory
  unfolding del_timer
  del_timer-AllClients zero s s' e h = ground arith
  del_timer-AllClients (suc q) s s' e h =
      let (t, f, g) = >>=-eq-some (s.memory (suc q)) _ e in
      same-AllClients _ s' g
        (put-AllClients s.memory (suc q) (record t { cb_func = false }) h (h (suc q) t f))

  pub adjust_timer-AllClients :
      (fresh now q : ℕ) (s s' : State)
      → adjust_timer fresh now q s ≡ some s'
      → AllClients P s.memory
      → AllClients P s'.memory
  unfolding adjust_timer
  adjust_timer-AllClients fresh now zero s s' e h = ground arith
  adjust_timer-AllClients fresh now (suc q) s s' e h =
      let (t, f, g) = >>=-eq-some (s.memory (suc q)) _ e in
      let emptied : Timer = record t { cb_func = false } in
      let new : Timer = record t { expire = now + 3 * 5 } in
      let mem = put (suc q) (some emptied) s.memory in
      let (m, c) = add_timer-memory fresh _ s' g in
      subst (AllClients P) (sym m) (
        put-AllClients mem fresh new (put-AllClients s.memory (suc q) emptied h (h (suc q) t f))
          (h (suc q) t f))

  pop_timer-AllClients :
      (s s' : State) → pop_timer s ≡ some s' → AllClients P s.memory → AllClients P s'.memory
  unfolding pop_timer
  pop_timer-AllClients s s' e h = elim (Bool-cases (nat_beq s.heap.cur_size 0)) [
    | inl b ↦ ground arith
    | inr b ↦
        let (root, f, e1) = >>=-eq-some (load s.heap.array 0) _ (rw b at e) in
        let (a, f1, e2) = >>=-eq-some (store s.heap.array 0 0) _ e1 in
        let (temp, f2, e3) = >>=-eq-some (load a _) _ e2 in
        let (b, f3, e4) = >>=-eq-some (store a 0 temp) _ e3 in
        let (c, f4, e5) = >>=-eq-some (down_loop _ _ b _ 0 temp) _ e4 in
        same-AllClients _ s' e5 (free-AllClients s.memory root h)
  ]

  -- What a tick leaves in the memory was there, and the clients that it kicks are of the kind.
  tick_loop-AllClients :
      (fuel cur tmp : ℕ) (s s' : State) (kicked : List ℕ)
      → tick_loop fuel cur tmp s ≡ some (s', kicked)
      → AllClients P s.memory
      → AllClients P s'.memory × AllOf P kicked
  unfolding tick_loop
  tick_loop-AllClients zero cur tmp s s' kicked e h = cc
  tick_loop-AllClients (suc fuel) cur tmp s s' kicked e h =
      elim (Bool-cases (nat_beq s.heap.cur_size 0)) [
        | inl b ↦ ground arith
        | inr b ↦ elim (Bool-cases (nat_beq tmp 0)) [
          | inl c ↦ ground arith
          | inr c ↦
              let (t, f, e1) = >>=-eq-some (s.memory tmp) _ (rw (b, c) at e) in
              elim (Bool-cases (ltb cur t.expire)) [
                | inl d ↦ ground arith
                | inr d ↦
                    let (root, f1, e2) = >>=-eq-some (load s.heap.array 0) _ (rw d at e1) in
                    let (r, f2, e3) = >>=-eq-some (s.memory root) _ e2 in
                    let (s1, f3, e4) = >>=-eq-some (pop_timer s) _ e3 in
                    let (tmp', f4, e5) = >>=-eq-some (load s1.heap.array 0) _ e4 in
                    let ((final, more), f5, e6) = >>=-eq-some (tick_loop fuel cur tmp' s1) _ e5 in
                    let (kept, all) =
                      tick_loop-AllClients fuel cur tmp' s1 final more f5
                        (pop_timer-AllClients s s1 f3 h) in
                    ground (arith, h root r f2)
              ]
        ]
      ]

  pub tick-AllClients :
      (cur : ℕ) (s s' : State) (kicked : List ℕ)
      → tick cur s ≡ some (s', kicked)
      → AllClients P s.memory
      → AllClients P s'.memory × AllOf P kicked
  unfolding tick
  tick-AllClients cur s s' kicked e h =
      let (tmp, f, e1) = >>=-eq-some (load s.heap.array 0) _ e in
      tick_loop-AllClients (s.heap.cur_size + 1) cur tmp s s' kicked e1 h
