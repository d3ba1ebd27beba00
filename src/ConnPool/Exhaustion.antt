-- ===== src/ConnPool/Exhaustion.antt =====
-- What the connections that the task of src/mprpcchannel.cc closes do to the pool of
-- src/connpool.cc: the task calls close() and the pool's count is not told.
use mprpc_advanced_z.Base.{
  ◌+◌, ◌≤◌, ◌≡◌, refl, ap, List, [], ◌∷◌, length, arith, ltb, ltb-ge, false,
}
use mprpc_advanced_z.Base.Bytes.{Bytes, bytes_eq}
use mprpc_advanced_z.Base.Maps.{Map}
use mprpc_advanced_z.ConnPool.{ConnectionItem, max_connections, queue_of, wait, try_get}
use mprpc_advanced_z.ConnPool.Accounting.{
  idle, System, start, Step, Reach, IsCounted, Reach-IsCounted, Reach-start-IsCounted,
}

pub queue_of-le-idle :
    (key : Bytes) (m : Map Bytes (List ConnectionItem)) → length (queue_of key m) ≤ idle m
unfolding queue_of idle
queue_of-le-idle key [] = omega arith
queue_of-le-idle key ((k, q) ∷ m) = ground (arith, queue_of-le-idle key m)

Step-dropped : {s t : System} → Step s t → s.dropped ≤ t.dropped
Step-dropped (Step.takes key fd h e) = ground arith
Step-dropped (Step.begins key h e) = ground arith
Step-dropped (Step.waits key h e) = ground arith
Step-dropped (Step.connects h e) = ground arith
Step-dropped (Step.fails h e) = ground arith
Step-dropped (Step.gives key fd now h e) = ground arith
Step-dropped (Step.drops h e) = ground arith
Step-dropped (Step.sweeps now e) = ground arith

Reach-dropped : {s t : System} → Reach s t → s.dropped ≤ t.dropped
Reach-dropped Reach.here = omega arith
Reach-dropped (Reach.next r st) = omega (arith, Reach-dropped r, Step-dropped st)

-- Each connection that a task has dropped takes a place in the pool for good: in every later state
-- what is idle, lent and in the making is at most the limit less the connections dropped by then.
pub dropped_shrinks :
    (s t : System)
    → Reach start s
    → Reach s t
    → idle t.pool.m_conn_map + t.lent + t.creating + s.dropped ≤ max_connections
dropped_shrinks s t r q =
    let v = Reach-IsCounted (Reach-start-IsCounted s r) q in
    omega (arith, v.counted, v.limited, Reach-dropped q)

full_waits :
    (key : Bytes) (t : System) (q : List ConnectionItem)
    → IsCounted t
    → queue_of key t.pool.m_conn_map ≡ q
    → max_connections ≤ t.dropped
    → (try_get key t.pool).0 ≡ wait
unfolding try_get
full_waits key t [] v e h =
    let full : ltb t.pool.m_cur_conn_count max_connections ≡ false =
      ltb-ge t.pool.m_cur_conn_count max_connections (omega (arith, v.counted)) in
    ground (arith, full)
full_waits key t (x ∷ q) v e h =
    absurd
      (omega (arith, queue_of-le-idle key t.pool.m_conn_map, ap length e, v.counted, v.limited))

-- Once the tasks have dropped as many connections as the limit, every later GetConnection, for any
-- provider, waits, and nothing that the pool's users do can change that.
pub dropped_exhausts :
    (s t : System) (key : Bytes)
    → Reach start s
    → max_connections ≤ s.dropped
    → Reach s t
    → (try_get key t.pool).0 ≡ wait
dropped_exhausts s t key r h q =
    full_waits key t _ (Reach-IsCounted (Reach-start-IsCounted s r) q) refl
      (omega (arith, Reach-dropped q))
