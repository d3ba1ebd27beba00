-- ===== src/ConnPool/Waiting.antt =====
-- The condition variable of src/connpool.cc: the threads that wait in GetConnection, for one provider
-- or another, and the calls of notify_one.
use mprpc_advanced_z.Base.{ℕ, ◌+◌, ◌-◌, ◌<◌, ◌≡◌, List, [], ◌∷◌, ◌++◌, some}
use mprpc_advanced_z.Base.Bytes.{Bytes}
use mprpc_advanced_z.ConnPool.{
  ConnectionItem, ConnectionPool, Attempt, got, create, wait, try_get, create_failed,
  release_connection, clean_idle_connections,
}
use mprpc_advanced_z.ConnPool.Accounting.{System}
use mprpc_advanced_z.ConnPool.Accounting

-- The pool and its users, the keys of the threads asleep in the wait, those of the threads woken that
-- have not run yet, and how many calls of notify_one are still to come from ReleaseConnection, which
-- makes its call when it has given the mutex up.
pub record Crowd : Type 0 where
  pub sys : System
  pub asleep : List Bytes
  pub woken : List Bytes
  pub notices : ℕ

unfoldable pub start : Crowd
unfolding Accounting.start
start = record { sys = Accounting.start; asleep = []; woken = []; notices = 0 }

-- What a call for the key has come to, with the pool that it leaves.
unfoldable pub served : Bytes → Attempt → ConnectionPool → Crowd → Crowd
served key (got fd) pool c = record c { sys = record c.sys { pool = pool; lent = c.sys.lent + 1 } }
served key create pool c = record c {
  sys = record c.sys { pool = pool; creating = c.sys.creating + 1 };
}
served key wait pool c = record c { sys = record c.sys { pool = pool }; asleep = key ∷ c.asleep }

-- GetConnection under the mutex, at its start or behind a wake-up: a connection, a place for one, or
-- the wait.
unfoldable pub serve : Bytes → Crowd → Crowd
unfolding served
serve key c = let (result, pool) = try_get key c.sys.pool in served key result pool c

-- A thread that sleeps is woken.
pub data Wakes (c d : Crowd) : Type 0 where
  nobody : c.asleep ≡ [] → d ≡ c → Wakes c d
  one :
      (key : Bytes) (xs ys : List Bytes)
      → c.asleep ≡ xs ++ key ∷ ys
      → d ≡ record c { asleep = xs ++ ys; woken = key ∷ c.woken }
      → Wakes c d

-- GetConnection after a failed CreateRealSocket, up to its notify_one.
unfoldable pub fail : Crowd → Crowd
unfolding create_failed
fail c = record c {
  sys = record c.sys { pool = create_failed c.sys.pool; creating = c.sys.creating - 1 };
}

-- ReleaseConnection up to its notify_one.
unfoldable pub give : Bytes → ℕ → ℕ → Crowd → Crowd
unfolding release_connection
give key fd now c = record c {
  sys = record c.sys {
    pool = release_connection key (some fd) now c.sys.pool;
    lent = c.sys.lent - 1;
  };
  notices = c.notices + 1;
}

unfoldable pub sweep : (ConnectionItem → ℕ) → Crowd → Crowd
unfolding clean_idle_connections
sweep now c = record c { sys = record c.sys { pool = (clean_idle_connections now c.sys.pool).0 } }

-- One turn, where the calls are for keys of a kind: a call arrives, a woken thread goes on, a socket
-- connects or fails, a connection is given back or closed by its task, notify_one is called, a thread
-- wakes for no reason, and the idle connections are swept, which wakes nobody.
pub data Step (P : Bytes → Type 0) (c d : Crowd) : Type 0 where
  arrives : (key : Bytes) → P key → d ≡ serve key c → Step P c d
  resumes :
      (key : Bytes) (xs ys : List Bytes)
      → c.woken ≡ xs ++ key ∷ ys
      → d ≡ serve key (record c { woken = xs ++ ys })
      → Step P c d
  connects :
      0 < c.sys.creating
      → d ≡ record c { sys = record c.sys { creating = c.sys.creating - 1; lent = c.sys.lent + 1 } }
      → Step P c d
  fails : 0 < c.sys.creating → Wakes (fail c) d → Step P c d
  gives : (key : Bytes) (fd now : ℕ) → P key → 0 < c.sys.lent → d ≡ give key fd now c → Step P c d
  notifies : 0 < c.notices → Wakes (record c { notices = c.notices - 1 }) d → Step P c d
  stirs : Wakes c d → Step P c d
  drops :
      0 < c.sys.lent
      → d ≡ record c { sys = record c.sys { lent = c.sys.lent - 1; dropped = c.sys.dropped + 1 } }
      → Step P c d
  sweeps : (now : ConnectionItem → ℕ) → d ≡ sweep now c → Step P c d

pub data Reach (P : Bytes → Type 0) (c : Crowd) : Crowd → Type 0 where
  here : Reach P c c
  next : {d e : Crowd} → Reach P c d → Step P d e → Reach P c e
