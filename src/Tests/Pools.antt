-- ===== src/Tests/Pools.antt =====
-- Runs of src/connpool.cc.
use mprpc_advanced_z.Base.{
  ℕ, zero, suc, subst, ap, sym, ltb, ◌+◌, ◌<◌, ◌≡◌, refl, true, false, List, [], ◌∷◌, arith,
}
use mprpc_advanced_z.Base.Bytes.{Bytes, codes, bytes_beq, bytes_eq}
use mprpc_advanced_z.Base.Maps.{Map, find, insert_new, assign}
use mprpc_advanced_z.ConnPool.{ConnectionItem, new, queue_of, try_get, create, wait, clean_queue}
use mprpc_advanced_z.ConnPool.Sweep.{fresh_items, stale_fds, clean_queue-filter}
use mprpc_advanced_z.ConnPool.Accounting.{
  System, Step, begins, connects, drops, Reach, here, next, start, IsCounted, Reach-start-IsCounted,
}
use mprpc_advanced_z.ConnPool.Exhaustion.{dropped_exhausts}

abbrev old : ConnectionItem
old = record { fd = 4; last_active_time = 0 }

abbrev young : ConnectionItem
young = record { fd = 5; last_active_time = 60000000000 }

clean_queue-filter_example :
    clean_queue (λ _. 61000000000) (old ∷ young ∷ [])
    ≡ (fresh_items 61000000000 (old ∷ young ∷ []), stale_fds 61000000000 (old ∷ young ∷ []))
clean_queue-filter_example =
    clean_queue-filter 61000000000 0 (old ∷ young ∷ []) (omega arith, (omega arith, tt))

abbrev key : Bytes
key = codes "a:1"

-- What is left when `n` connections have been made, lent and dropped, with the queues `m`.
abbrev spent : Map Bytes (List ConnectionItem) → ℕ → System
spent m n = record {
  pool = record { m_cur_conn_count = n; m_conn_map = m; m_stop = false };
  lent = 0;
  creating = 0;
  dropped = n;
}

abbrev queues : Map Bytes (List ConnectionItem)
queues = (key, []) ∷ []

-- A task begins a connection, has it made and drops it.
spend-first : Reach start (spent queues 1)
unfolding start new try_get queue_of find insert_new assign
spend-first =
    next (next (next here (begins key refl refl)) (connects (omega arith) refl))
      (drops (omega arith) refl)

begin_lem :
    (n : ℕ)
    → n < 5000
    → try_get key (spent queues n).pool
      ≡ (create, record (spent queues n).pool { m_cur_conn_count = n + 1 })
unfolding try_get queue_of find insert_new bytes_beq
begin_lem n h = let free : ltb n 5000 ≡ true = ground arith in rw free refl

spend : (n : ℕ) → n < 5000 → Reach start (spent queues n) → Reach start (spent queues (n + 1))
spend n h r =
    let e = begin_lem n h in
    let begun : System = record (spent queues n) {
      pool = record (spent queues n).pool { m_cur_conn_count = n + 1 };
      creating = 1;
    } in
    let begins' : Step (spent queues n) begun =
      begins key (ap (λ r. r.0) e)
        (ap (λ r. record (spent queues n) { pool = r.1; creating = 1 }) (sym e)) in
    next (next (next r begins') (connects (omega arith) refl)) (drops (omega arith) refl)

spend_all : (n : ℕ) → n < 5000 → Reach start (spent queues (n + 1))
spend_all zero h = spend-first
spend_all (suc n) h =
    let same : n + 1 + 1 ≡ suc n + 1 = omega arith in
    subst (λ k. Reach start (spent queues k)) same
      (spend (n + 1) (omega arith) (spend_all n (omega arith)))

all_spent : Reach start (spent queues 5000)
all_spent = spend_all 4999 (omega arith)

Reach-start-IsCounted_example : IsCounted (spent queues 1)
Reach-start-IsCounted_example = Reach-start-IsCounted (spent queues 1) spend-first

dropped_exhausts_example : (try_get (codes "b:2") (spent queues 5000).pool).0 ≡ wait
dropped_exhausts_example =
    dropped_exhausts (spent queues 5000) (spent queues 5000) (codes "b:2") all_spent (omega arith)
      here
