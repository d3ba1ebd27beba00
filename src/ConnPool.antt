-- ===== src/ConnPool.antt =====
-- src/include/connpool.h and src/connpool.cc: the pool of the client's connections. Each function is
-- what one call does between taking the mutex and giving it up; the time of an item is the reading of
-- std::chrono::steady_clock in nanoseconds.
pub mod Accounting
pub mod Exhaustion
pub mod Sweep
pub mod Waiting
pub mod Usable
pub mod Heeded
pub mod Forgotten
use mprpc_advanced_z.Base.{
  ℕ, suc, ◌+◌, ◌-◌, ◌/◌, ◌^◌, List, [], ◌∷◌, ◌++◌, Option, none, some, Bool, true, false, ltb,
  if◌then◌else◌, length,
}
use mprpc_advanced_z.Base.Bytes.{Bytes, codes, bytes_eq}
use mprpc_advanced_z.Base.Decimal.{to_string}
use mprpc_advanced_z.Base.Maps.{Map, find, assign, insert_new}

pub record ConnectionItem : Type 0 where
  pub fd : ℕ
  pub last_active_time : ℕ

abbrev pub max_connections : ℕ
max_connections = 5000

abbrev pub max_idle_time : ℕ
max_idle_time = 60

pub record ConnectionPool : Type 0 where
  pub m_cur_conn_count : ℕ
  pub m_conn_map : Map Bytes (List ConnectionItem)
  pub m_stop : Bool

-- ConnectionPool()
unfoldable pub new : ConnectionPool
new = record { m_cur_conn_count = 0; m_conn_map = []; m_stop = false }

-- CreateRealSocket, from what socket and connect return: the descriptor, and what it closes.
unfoldable pub create_real_socket : Option ℕ → Bool → Option ℕ × List ℕ
create_real_socket none connected = (none, [])
create_real_socket (some clientfd) true = (some clientfd, [])
create_real_socket (some clientfd) false = (none, clientfd ∷ [])

-- `ip + ":" + std::to_string(port)`
unfoldable pub key_of : Bytes → ℕ → Bytes
key_of ip port = ip ++ codes ":" ++ to_string port

-- `m_connMap[key]` when it is read.
unfoldable pub queue_of : Bytes → Map Bytes (List ConnectionItem) → List ConnectionItem
unfolding find
queue_of key m = elim (find key m) [ none ↦ [] | some q ↦ q ]

-- What GetConnection comes to while it holds the mutex.
pub data Attempt : Type 0 where
  got : ℕ → Attempt
  create : Attempt
  wait : Attempt

-- GetConnection under the mutex, from its start or from a wake-up of its wait: an idle connection, a
-- place for a new one, or the wait.
unfoldable pub try_get : Bytes → ConnectionPool → Attempt × ConnectionPool
try_get key p = elim (queue_of key p.m_conn_map) [
  | item ∷ rest ↦ (got item.fd, record p { m_conn_map = assign key rest p.m_conn_map })
  | [] ↦
      let touched = insert_new key [] p.m_conn_map in
      if ltb p.m_cur_conn_count max_connections
      then (create, record p { m_cur_conn_count = p.m_cur_conn_count + 1; m_conn_map = touched })
      else (wait, record p { m_conn_map = touched })
]

-- GetConnection after a failed CreateRealSocket.
unfoldable pub create_failed : ConnectionPool → ConnectionPool
create_failed p = record p { m_cur_conn_count = p.m_cur_conn_count - 1 }

-- ReleaseConnection of a descriptor at a time; -1 is `none`.
unfoldable pub release_connection : Bytes → Option ℕ → ℕ → ConnectionPool → ConnectionPool
release_connection key none now p = p
release_connection key (some fd) now p =
    let item : ConnectionItem = record { fd = fd; last_active_time = now } in
    record p { m_conn_map = assign key (queue_of key p.m_conn_map ++ item ∷ []) p.m_conn_map }

-- `duration.count() > m_maxIdleTime`, in whole seconds.
unfoldable pub is_stale : ℕ → ConnectionItem → Bool
is_stale now item = ltb max_idle_time ((now - item.last_active_time) / 10 ^ 9)

-- The inner loop of CleanIdleConnections: the queue that is left, and the descriptors closed. The
-- clock is read for each item anew.
unfoldable pub clean_queue :
    (ConnectionItem → ℕ) → List ConnectionItem → List ConnectionItem × List ℕ
clean_queue now [] = ([], [])
clean_queue now (item ∷ rest) =
    let (left, gone) = clean_queue now rest in
    if is_stale (now item) item then (left, item.fd ∷ gone) else (item ∷ rest, [])

-- The outer loop.
unfoldable pub clean_map :
    (ConnectionItem → ℕ)
    → Map Bytes (List ConnectionItem)
    → Map Bytes (List ConnectionItem) × List ℕ
unfolding clean_queue
clean_map now [] = ([], [])
clean_map now ((key, queue) ∷ m) =
    let (left, gone) = clean_queue now queue in
    let (others, more) = clean_map now m in ((key, left) ∷ others, gone ++ more)

-- One round of CleanIdleConnections.
unfoldable pub clean_idle_connections :
    (ConnectionItem → ℕ) → ConnectionPool → ConnectionPool × List ℕ
clean_idle_connections now p =
    let (m, gone) = clean_map now p.m_conn_map in
    (record p { m_cur_conn_count = p.m_cur_conn_count - length gone; m_conn_map = m }, gone)

-- ~ConnectionPool: the descriptors that it closes.
unfoldable pub close_queue : List ConnectionItem → List ℕ
close_queue [] = []
close_queue (item ∷ rest) = item.fd ∷ close_queue rest

unfoldable pub close_all : Map Bytes (List ConnectionItem) → List ℕ
unfolding close_queue
close_all [] = []
close_all ((key, queue) ∷ m) = close_queue queue ++ close_all m
