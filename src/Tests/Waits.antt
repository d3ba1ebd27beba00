-- ===== src/Tests/Waits.antt =====
-- Runs of the condition variable of src/connpool.cc.
use mprpc_advanced_z.Base.{◌+◌, ◌≤◌, ◌<◌, ◌≡◌, refl, sym, [], ◌∷◌, arith, length}
use mprpc_advanced_z.Base.Bytes.{Bytes, codes, bytes_beq, bytes_eq, bytes_beq_iff}
use mprpc_advanced_z.ConnPool.{max_connections, queue_of}
use mprpc_advanced_z.ConnPool.Waiting.{Crowd, start, Reach, next, arrives, sweep}
use mprpc_advanced_z.ConnPool.Usable.{usable}
use mprpc_advanced_z.ConnPool.Heeded.{Reach-start-heard}
use mprpc_advanced_z.ConnPool.Forgotten.{
  Any, later, fill, waiting, serve-waits, Reach-start-forgets,
}

abbrev key : Bytes
key = codes "a:1"

-- A call that finds the pool full and no idle connection.
full_pool : (c : Crowd) × Reach (λ k. k ≡ key) start c × (0 < length c.asleep)
unfolding bytes_beq
full_pool =
    let (c, r, v) = fill key [] (λ k. k ≡ key) max_connections refl refl (omega arith) in
    let full : max_connections ≤ c.sys.pool.m_cur_conn_count = omega (arith, v.count) in
    (waiting key c, next r (arrives key refl (sym (serve-waits key c v.first full))), omega arith)

Reach-start-heard_example :
    usable key full_pool.0.sys.pool ≤ length full_pool.0.woken + full_pool.0.notices
Reach-start-heard_example = Reach-start-heard key full_pool.0 full_pool.1 full_pool.2

Reach-start-forgets_example :
    (c : Crowd) × Reach Any start c
    × (c.asleep ≡ codes "b:1" ∷ key ∷ [])
    × (c.woken ≡ [])
    × (c.notices ≡ 0)
    × (length (queue_of key c.sys.pool.m_conn_map) ≡ 1)
    × ((sweep later c).asleep ≡ codes "b:1" ∷ key ∷ [])
    × ((sweep later c).woken ≡ [])
    × ((sweep later c).notices ≡ 0)
    × ((sweep later c).sys.pool.m_cur_conn_count < max_connections)
Reach-start-forgets_example =
    Reach-start-forgets key (codes "b:1") (ground (arith, bytes_beq_iff key (codes "b:1")))
