-- ===== src/ConnPool/Accounting.antt =====
-- The count of connections in src/connpool.cc, under any interleaving of the threads that use the
-- pool, the task of src/mprpcchannel.cc included, which closes a connection after a failed send or recv.
use mprpc_advanced_z.Base.{
  ℕ, ◌+◌, ◌-◌, ◌≤◌, ◌<◌, ◌≡◌, refl, ap, List, [], ◌∷◌, ◌++◌, some, arith, Option-cases, inl, inr,
  length, length-append,
}
use mprpc_advanced_z.Base.Bytes.{Bytes, bytes_eq}
use mprpc_advanced_z.Base.Maps.{Map, find, assign, insert_new}
use mprpc_advanced_z.ConnPool.{
  ConnectionItem, ConnectionPool, new, max_connections, queue_of, got, create, wait, try_get,
  create_failed, release_connection, clean_queue, clean_map, clean_idle_connections,
}

-- The connections that wait in the queues.
unfoldable pub idle : Map Bytes (List ConnectionItem) → ℕ
idle [] = 0
idle ((key, q) ∷ m) = length q + idle m

pub idle-assign :
    (key : Bytes) (q : List ConnectionItem) (m : Map Bytes (List ConnectionItem))
    → idle (assign key q m) + length (queue_of key m) ≡ idle m + length q
unfolding idle assign queue_of
idle-assign key q [] = omega arith
idle-assign key q ((k, r) ∷ m) = ground (arith, idle-assign key q m)

pub idle-touch :
    (key : Bytes) (m : Map Bytes (List ConnectionItem)) → idle (insert_new key [] m) ≡ idle m
unfolding insert_new
idle-touch key m = elim (Option-cases (find key m)) [
  | inl e ↦
      let empty : queue_of key m ≡ [] = unfold queue_of in ground arith in
      rw (e, insert_new) (omega (arith, idle-assign key [] m, ap length empty))
  | inr (q, e) ↦ rw (e, insert_new) refl
]

pub clean_queue-length :
    (now : ConnectionItem → ℕ) (q : List ConnectionItem)
    → length (clean_queue now q).0 + length (clean_queue now q).1 ≡ length q
unfolding clean_queue
clean_queue-length now [] = omega arith
clean_queue-length now (x ∷ q) = ground (arith, clean_queue-length now q)

pub clean_map-idle :
    (now : ConnectionItem → ℕ) (m : Map Bytes (List ConnectionItem))
    → idle (clean_map now m).0 + length (clean_map now m).1 ≡ idle m
unfolding idle clean_map
clean_map-idle now [] = omega arith
clean_map-idle now ((key, q) ∷ m) = omega (
  arith,
  clean_map-idle now m,
  clean_queue-length now q,
  length-append (clean_queue now q).1 (clean_map now m).1,
)

-- The pool and its users: how many connections are lent, how many are being made, and how many a
-- task has closed while it had them.
pub record System : Type 0 where
  pub pool : ConnectionPool
  pub lent : ℕ
  pub creating : ℕ
  pub dropped : ℕ

unfoldable pub start : System
start = record { pool = new; lent = 0; creating = 0; dropped = 0 }

-- One turn of one thread with the mutex, or of a thread that makes or closes a connection.
pub data Step (s t : System) : Type 0 where
  takes :
      (key : Bytes) (fd : ℕ)
      → (try_get key s.pool).0 ≡ got fd
      → t ≡ record s { pool = (try_get key s.pool).1; lent = s.lent + 1 }
      → Step s t
  begins :
      (key : Bytes)
      → (try_get key s.pool).0 ≡ create
      → t ≡ record s { pool = (try_get key s.pool).1; creating = s.creating + 1 }
      → Step s t
  waits :
      (key : Bytes)
      → (try_get key s.pool).0 ≡ wait
      → t ≡ record s { pool = (try_get key s.pool).1 }
      → Step s t
  connects :
      0 < s.creating → t ≡ record s { creating = s.creating - 1; lent = s.lent + 1 } → Step s t
  fails :
      0 < s.creating
      → t ≡ record s { pool = create_failed s.pool; creating = s.creating - 1 }
      → Step s t
  gives :
      (key : Bytes) (fd now : ℕ)
      → 0 < s.lent
      → t ≡ record s { pool = release_connection key (some fd) now s.pool; lent = s.lent - 1 }
      → Step s t
  drops : 0 < s.lent → t ≡ record s { lent = s.lent - 1; dropped = s.dropped + 1 } → Step s t
  sweeps :
      (now : ConnectionItem → ℕ)
      → t ≡ record s { pool = (clean_idle_connections now s.pool).0 }
      → Step s t

pub data Reach (s : System) : System → Type 0 where
  here : Reach s s
  next : {t u : System} → Reach s t → Step t u → Reach s u

-- The count is that of the connections idle, lent, in the making, or dropped, and within the limit.
pub record IsCounted (s : System) : Type 0 where
  pub counted : s.pool.m_cur_conn_count ≡ idle s.pool.m_conn_map + s.lent + s.creating + s.dropped
  pub limited : s.pool.m_cur_conn_count ≤ max_connections

module _ (key : Bytes) (p : ConnectionPool) where
  got-counts-by_queue :
      (fd : ℕ) (q : List ConnectionItem)
      → queue_of key p.m_conn_map ≡ q
      → (try_get key p).0 ≡ got fd
      → (idle (try_get key p).1.m_conn_map + 1 ≡ idle p.m_conn_map)
        × ((try_get key p).1.m_cur_conn_count ≡ p.m_cur_conn_count)
  unfolding try_get
  got-counts-by_queue fd [] e h = absurd (ground arith)
  got-counts-by_queue fd (x ∷ q) e h = ground (arith, idle-assign key q p.m_conn_map)

  create-counts-by_queue :
      (q : List ConnectionItem)
      → queue_of key p.m_conn_map ≡ q
      → (try_get key p).0 ≡ create
      → (idle (try_get key p).1.m_conn_map ≡ idle p.m_conn_map)
        × ((try_get key p).1.m_cur_conn_count ≡ p.m_cur_conn_count + 1)
        × (p.m_cur_conn_count < max_connections)
  unfolding try_get
  create-counts-by_queue [] e h = ground (arith, idle-touch key p.m_conn_map)
  create-counts-by_queue (x ∷ q) e h = absurd (ground arith)

  wait-counts-by_queue :
      (q : List ConnectionItem)
      → queue_of key p.m_conn_map ≡ q
      → (try_get key p).0 ≡ wait
      → (idle (try_get key p).1.m_conn_map ≡ idle p.m_conn_map)
        × ((try_get key p).1.m_cur_conn_count ≡ p.m_cur_conn_count)
  unfolding try_get
  wait-counts-by_queue [] e h = ground (arith, idle-touch key p.m_conn_map)
  wait-counts-by_queue (x ∷ q) e h = absurd (ground arith)

pub release-counts :
    (key : Bytes) (fd now : ℕ) (p : ConnectionPool)
    → (idle (release_connection key (some fd) now p).m_conn_map ≡ idle p.m_conn_map + 1)
      × ((release_connection key (some fd) now p).m_cur_conn_count ≡ p.m_cur_conn_count)
unfolding release_connection
release-counts key fd now p =
    let q = queue_of key p.m_conn_map in
    let item : ConnectionItem = record { fd = fd; last_active_time = now } in
    (
      omega (arith, idle-assign key (q ++ item ∷ []) p.m_conn_map, length-append q (item ∷ [])),
      refl,
    )

pub Step-IsCounted : {s t : System} → Step s t → IsCounted s → IsCounted t
unfolding create_failed clean_idle_connections
Step-IsCounted {s} (Step.takes key fd h e) v =
    ground (arith, got-counts-by_queue key s.pool fd _ refl h)
Step-IsCounted {s} (Step.begins key h e) v =
    ground (arith, create-counts-by_queue key s.pool _ refl h)
Step-IsCounted {s} (Step.waits key h e) v = ground (arith, wait-counts-by_queue key s.pool _ refl h)
Step-IsCounted (Step.connects h e) v = ground arith
Step-IsCounted (Step.fails h e) v = ground arith
Step-IsCounted {s} (Step.gives key fd now h e) v = ground (arith, release-counts key fd now s.pool)
Step-IsCounted (Step.drops h e) v = ground arith
Step-IsCounted {s} (Step.sweeps now e) v = ground (arith, clean_map-idle now s.pool.m_conn_map)

pub Reach-IsCounted : {s t : System} → IsCounted s → Reach s t → IsCounted t
Reach-IsCounted v Reach.here = v
Reach-IsCounted v (Reach.next r st) = Step-IsCounted st (Reach-IsCounted v r)

pub start-IsCounted : IsCounted start
unfolding start new idle
start-IsCounted = record { counted = refl; limited = omega arith }

-- Under every interleaving, the count is the number of connections that are idle, lent, being made
-- or dropped by a task, and it never exceeds the limit.
pub Reach-start-IsCounted : (s : System) → Reach start s → IsCounted s
Reach-start-IsCounted s r = Reach-IsCounted start-IsCounted r
