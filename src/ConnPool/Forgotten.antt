-- ===== src/ConnPool/Forgotten.antt =====
-- src/connpool.cc: with two providers, the one condition variable of the pool forgets a thread.
use mprpc_advanced_z.Base.{
  ℕ, zero, suc, ◌+◌, ◌*◌, ◌-◌, ◌^◌, ◌≤◌, ◌<◌, ◌≡◌, ◌≢◌, refl, sym, ap, ◌∙◌, List, [], ◌∷◌, ◌++◌,
  arith, true, false, length, ◌==◌, lt→ltb, ltb-ge,
}
use mprpc_advanced_z.Base.Bytes.{Bytes, bytes_eq, bytes_beq_iff}
use mprpc_advanced_z.Base.Maps.{Map, find, assign, insert_new, find-assign, find-insert_new}
use mprpc_advanced_z.ConnPool
use mprpc_advanced_z.ConnPool.{
  ConnectionItem, ConnectionPool, max_connections, queue_of, Attempt, got, create, wait, try_get,
  release_connection, is_stale, max_idle_time, clean_queue, clean_idle_connections,
}
use mprpc_advanced_z.ConnPool.Accounting.{System}
use mprpc_advanced_z.ConnPool.Accounting
use mprpc_advanced_z.ConnPool.Waiting.{
  Crowd, start, serve, served, one, give, sweep, arrives, resumes, connects, gives, notifies, Reach,
  here, next,
}
use mprpc_advanced_z.ConnPool.Usable.{queue_of-assign, queue_of-touch, clean_map-queue}

abbrev pub Any : Bytes → Type 0
Any key = Unit {0}

queue_of-apart :
    (k key : Bytes) (q : List ConnectionItem) (m : Map Bytes (List ConnectionItem))
    → (k == key) ≡ false
    → queue_of key (assign k q m) ≡ queue_of key m
unfolding queue_of
queue_of-apart k key q m e = ground (arith, find-assign k key q m)

touch-apart :
    (k key : Bytes) (m : Map Bytes (List ConnectionItem))
    → (k == key) ≡ false
    → queue_of key (insert_new k [] m) ≡ queue_of key m
unfolding queue_of
touch-apart k key m e = ground (arith, find-insert_new k key [] m)

serve-creates :
    (key : Bytes) (c : Crowd)
    → queue_of key c.sys.pool.m_conn_map ≡ []
    → c.sys.pool.m_cur_conn_count < max_connections
    → serve key c ≡ record c {
      sys = record c.sys {
        pool = record c.sys.pool {
          m_cur_conn_count = c.sys.pool.m_cur_conn_count + 1;
          m_conn_map = insert_new key [] c.sys.pool.m_conn_map;
        };
        creating = c.sys.creating + 1;
      };
    }
unfolding serve served try_get
serve-creates key c e h = simp (serve, try_get, e, lt→ltb _ _ h) refl

-- The thread in the wait.
abbrev pub waiting : Bytes → Crowd → Crowd
waiting key c = record c {
  sys = record c.sys {
    pool = record c.sys.pool { m_conn_map = insert_new key [] c.sys.pool.m_conn_map };
  };
  asleep = key ∷ c.asleep;
}

pub serve-waits :
    (key : Bytes) (c : Crowd)
    → queue_of key c.sys.pool.m_conn_map ≡ []
    → max_connections ≤ c.sys.pool.m_cur_conn_count
    → serve key c ≡ waiting key c
unfolding serve served try_get
serve-waits key c e h = simp (serve, try_get, e, ltb-ge _ _ h) refl

-- The clock 61 seconds after each item was put back.
abbrev pub later : ConnectionItem → ℕ
later item = item.last_active_time + 61 * 10 ^ 9

clean_queue-later : (q : List ConnectionItem) → length (clean_queue later q).1 ≡ length q
unfolding clean_queue is_stale
clean_queue-later [] = refl
clean_queue-later (x ∷ q) =
    let old : is_stale (later x) x ≡ true = ground arith in rw old (ap suc (clean_queue-later q))

module _ (a b : Bytes) where
  -- So many connections, all lent, and no thread that waits.
  pub record IsFilled (n : ℕ) (c : Crowd) : Type 0 where
    pub count : c.sys.pool.m_cur_conn_count ≡ n
    pub lent : c.sys.lent ≡ n
    pub first : queue_of a c.sys.pool.m_conn_map ≡ []
    pub second : queue_of b c.sys.pool.m_conn_map ≡ []
    pub asleep : c.asleep ≡ []
    pub woken : c.woken ≡ []
    pub notices : c.notices ≡ 0

  -- Calls for the first provider alone fill the pool.
  pub fill :
      (P : Bytes → Type 0) (n : ℕ)
      → P a
      → (a == b) ≡ false
      → n ≤ max_connections
      → (c : Crowd) × Reach P start c × IsFilled n c
  unfolding start Accounting.start ConnPool.new queue_of find
  fill P zero p apart h = (
    start,
    here,
    record {
      count = refl;
      lent = refl;
      first = refl;
      second = refl;
      asleep = refl;
      woken = refl;
      notices = refl;
    },
  )
  fill P (suc n) p apart h =
      let (c, r, v) = fill P n p apart (omega arith) in
      let room : c.sys.pool.m_cur_conn_count < max_connections = omega (arith, v.count) in
      let d = record c {
        sys = record c.sys {
          pool = record c.sys.pool {
            m_cur_conn_count = c.sys.pool.m_cur_conn_count + 1;
            m_conn_map = insert_new a [] c.sys.pool.m_conn_map;
          };
          creating = c.sys.creating + 1;
        };
      } in
      let e = record d {
        sys = record d.sys { creating = d.sys.creating - 1; lent = d.sys.lent + 1 };
      } in
      (
        e,
        next (next r (arrives a p (sym (serve-creates a c v.first room))))
            (connects (omega arith) refl),
        record {
          count = omega (arith, v.count);
          lent = omega (arith, v.lent);
          first = queue_of-touch a c.sys.pool.m_conn_map ∙ v.first;
          second = touch-apart a b c.sys.pool.m_conn_map apart ∙ v.second;
          asleep = v.asleep;
          woken = v.woken;
          notices = v.notices;
        },
      )

  -- Both threads sleep, a connection for the first provider is idle, and nobody will wake one of them.
  record IsForgotten (c : Crowd) : Type 0 where
    asleep : c.asleep ≡ b ∷ a ∷ []
    woken : c.woken ≡ []
    notices : c.notices ≡ 0
    idle : length (queue_of a c.sys.pool.m_conn_map) ≡ 1
    full : c.sys.pool.m_cur_conn_count ≡ max_connections

  forgets :
      (c0 : Crowd)
      → (a == b) ≡ false
      → (b == a) ≡ false
      → Reach Any start c0
      → IsFilled max_connections c0
      → (c : Crowd) × Reach Any start c × IsForgotten c
  unfolding give release_connection
  forgets c0 apart apart' r0 v =
      let full : max_connections ≤ c0.sys.pool.m_cur_conn_count = omega (arith, v.count) in
      let m = c0.sys.pool.m_conn_map in
      let c1 = waiting a c0 in
      let b_empty = touch-apart a b m apart ∙ v.second in
      let c2 = waiting b c1 in
      let m1 = c1.sys.pool.m_conn_map in
      let m2 = c2.sys.pool.m_conn_map in
      let a_empty = touch-apart b a m1 apart' ∙ (queue_of-touch a m ∙ v.first) in
      let c3 = give a 3 0 c2 in
      let c4 = record c3 { notices = c3.notices - 1; asleep = c1.asleep; woken = b ∷ c3.woken } in
      let lent : 0 < c2.sys.lent = omega (arith, v.lent) in
      let r1 = next r0 (arrives a tt (sym (serve-waits a c0 v.first full))) in
      let r2 = next r1 (arrives b tt (sym (serve-waits b c1 b_empty full))) in
      let r3 = next r2 (gives a 3 0 tt lent refl) in
      let r4 = next r3 (notifies (omega arith) (one b [] c1.asleep refl refl)) in
      let still = queue_of-apart a b _ m2 apart ∙ (queue_of-touch b m1 ∙ b_empty) in
      let back = serve-waits b (record c4 { woken = c3.woken }) still full in
      let item : ConnectionItem = record { fd = 3; last_active_time = 0 } in
      let kept =
        queue_of-assign a (queue_of a m2 ++ item ∷ []) m2 ∙ ap (λ q. q ++ item ∷ []) a_empty in
      (
        waiting b (record c4 { woken = c3.woken }),
        next r4 (resumes b [] c3.woken refl (sym back)),
        record {
          asleep = ap (λ ks. b ∷ a ∷ ks) v.asleep;
          woken = v.woken;
          notices = omega (arith, v.notices);
          idle = ap length (touch-apart b a _ apart' ∙ kept);
          full = v.count;
        },
      )

  -- For two providers, there is an order of the threads that ends with a thread asleep in
  -- GetConnection for each, although a connection for the first one's provider is idle, no thread is
  -- woken and no call of notify_one is still to come: the wake-up went to the other thread, which
  -- found nothing for its own provider and went back to sleep. When the idle connection has become
  -- old, a sweep frees a place, and both sleep on.
  pub Reach-start-forgets :
      a ≢ b
      → (c : Crowd) × Reach Any start c
        × (c.asleep ≡ b ∷ a ∷ [])
        × (c.woken ≡ [])
        × (c.notices ≡ 0)
        × (length (queue_of a c.sys.pool.m_conn_map) ≡ 1)
        × ((sweep later c).asleep ≡ b ∷ a ∷ [])
        × ((sweep later c).woken ≡ [])
        × ((sweep later c).notices ≡ 0)
        × ((sweep later c).sys.pool.m_cur_conn_count < max_connections)
  unfolding sweep clean_idle_connections
  Reach-start-forgets differ =
      let apart : (a == b) ≡ false = ground (arith, bytes_beq_iff a b) in
      let apart' : (b == a) ≡ false = ground (arith, bytes_beq_iff b a) in
      let (c0, r0, v) = fill Any max_connections tt apart (omega arith) in
      let (c, r, w) = forgets c0 apart apart' r0 v in
      let m = c.sys.pool.m_conn_map in
      let (kept, most) = clean_map-queue later a m in
      let gone = clean_queue-later (queue_of a m) in
      (
        c,
        r,
        w.asleep,
        w.woken,
        w.notices,
        w.idle,
        w.asleep,
        w.woken,
        w.notices,
        omega (arith, w.full, w.idle, most, gone),
      )
