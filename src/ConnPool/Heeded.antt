-- ===== src/ConnPool/Heeded.antt =====
-- src/connpool.cc: as long as all calls are for one provider, no thread that waits is forgotten.
use mprpc_advanced_z.Base.{
  ℕ, suc, ◌+◌, ◌-◌, ◌≤◌, ◌<◌, ◌≡◌, refl, sym, ap, subst, [], ◌∷◌, ◌++◌, arith, length,
  length-append,
}
use mprpc_advanced_z.Base.Bytes.{Bytes, bytes_eq}
use mprpc_advanced_z.Base.Maps.{find}
use mprpc_advanced_z.ConnPool
use mprpc_advanced_z.ConnPool.{
  ConnectionItem, ConnectionPool, max_connections, queue_of, Attempt, got, create, wait, try_get,
  create_failed, release_connection, clean_queue, clean_map, clean_idle_connections,
}
use mprpc_advanced_z.ConnPool.Accounting.{
  System, idle, idle-assign, idle-touch, IsCounted, start-IsCounted, Step-IsCounted, clean_map-idle,
  clean_queue-length,
}
use mprpc_advanced_z.ConnPool.Accounting
use mprpc_advanced_z.ConnPool.Exhaustion.{queue_of-le-idle}
use mprpc_advanced_z.ConnPool.Waiting.{
  Crowd, start, serve, served, Wakes, nobody, one, fail, give, sweep, Step, arrives, resumes,
  connects, fails, gives, notifies, stirs, drops, sweeps, Reach, here, next,
}
use mprpc_advanced_z.ConnPool.Usable.{
  usable, queue_of-assign, Left, Alone, AllAre, AllAre-without, length-without,
  try_get-Left-by_queue, try_get-Alone-by_queue, clean_map-queue,
}

-- Nobody is forgotten: what the sleeping threads could have, woken threads or calls of notify_one that
-- are still to come will see to.
record IsHeeded (key : Bytes) (c : Crowd) : Type 0 where
  counted : IsCounted c.sys
  alone : Alone key c.sys.pool.m_conn_map
  asleep : AllAre key c.asleep
  woken : AllAre key c.woken
  heard : 0 < length c.asleep → usable key c.sys.pool ≤ length c.woken + c.notices

-- To the accounts, a call is a turn of the pool.
serve-Step : (key : Bytes) (c : Crowd) → Accounting.Step c.sys (serve key c).sys
unfolding serve served
serve-Step key c = by_result (try_get key c.sys.pool).0 refl
  where
    by_result :
        (r : Attempt)
        → (try_get key c.sys.pool).0 ≡ r
        → Accounting.Step c.sys (served key r (try_get key c.sys.pool).1 c).sys
    by_result (got fd) e = Accounting.Step.takes key fd e refl
    by_result create e = Accounting.Step.begins key e refl
    by_result wait e = Accounting.Step.waits key e refl

served-IsHeeded :
    (key : Bytes) (r : Attempt) (p : ConnectionPool) (c : Crowd)
    → IsCounted (served key r p c).sys
    → Alone key p.m_conn_map
    → AllAre key c.asleep
    → AllAre key c.woken
    → (0 < length c.asleep → usable key c.sys.pool ≤ suc (length c.woken + c.notices))
    → Left r (usable key c.sys.pool) (usable key p)
    → IsHeeded key (served key r p c)
unfolding served
served-IsHeeded key (got fd) p c v a m w h l = record {
  counted = v;
  alone = a;
  asleep = m;
  woken = w;
  heard = λ n. omega (arith, h n, l);
}
served-IsHeeded key create p c v a m w h l = record {
  counted = v;
  alone = a;
  asleep = m;
  woken = w;
  heard = λ n. omega (arith, h n, l);
}
served-IsHeeded key wait p c v a m w h l = record {
  counted = v;
  alone = a;
  asleep = (refl, m);
  woken = w;
  heard = λ n. omega (arith, l.1);
}

serve-IsHeeded :
    (key : Bytes) (c : Crowd)
    → IsCounted c.sys
    → Alone key c.sys.pool.m_conn_map
    → AllAre key c.asleep
    → AllAre key c.woken
    → (0 < length c.asleep → usable key c.sys.pool ≤ suc (length c.woken + c.notices))
    → IsHeeded key (serve key c)
unfolding serve
serve-IsHeeded key c v a m w h =
    let p = c.sys.pool in
    served-IsHeeded key (try_get key p).0 (try_get key p).1 c (Step-IsCounted (serve-Step key c) v)
      (try_get-Alone-by_queue key p _ refl a) m w h (try_get-Left-by_queue key p _ refl v.limited)

Wakes-IsHeeded :
    (key : Bytes) (c d : Crowd)
    → Wakes c d
    → IsCounted c.sys
    → Alone key c.sys.pool.m_conn_map
    → AllAre key c.asleep
    → AllAre key c.woken
    → (0 < length c.asleep → usable key c.sys.pool ≤ suc (length c.woken + c.notices))
    → IsHeeded key d
Wakes-IsHeeded key c d (nobody e f) v a m w h = subst (IsHeeded key) (sym f) record {
  counted = v;
  alone = a;
  asleep = m;
  woken = w;
  heard = λ n. absurd (omega (arith, n, ap length e));
}
Wakes-IsHeeded key c d (one k xs ys e f) v a m w h =
    let (mine, rest) = AllAre-without key k xs ys (subst (AllAre key) e m) in
    let some_one : 0 < length c.asleep = omega (arith, ap length e, length-without k xs ys) in
    subst (IsHeeded key) (sym f) record {
      counted = v;
      alone = a;
      asleep = rest;
      woken = (mine, w);
      heard = λ n. omega (arith, h some_one);
    }

sweep-IsHeeded :
    (key : Bytes) (now : ConnectionItem → ℕ) (c : Crowd)
    → IsHeeded key c
    → IsHeeded key (sweep now c)
unfolding sweep clean_idle_connections
sweep-IsHeeded key now c v =
    let m = c.sys.pool.m_conn_map in
    let (kept, most) = clean_map-queue now key m in
    let all = clean_map-idle now m in
    let some' = queue_of-le-idle key (clean_map now m).0 in
    let alone : Alone key (clean_map now m).0 = omega (arith, v.alone, kept, most, all, some') in
    record {
      counted = Step-IsCounted (Accounting.Step.sweeps now refl) v.counted;
      alone = alone;
      asleep = v.asleep;
      woken = v.woken;
      heard = λ n.
          omega (arith, v.heard n, v.alone, alone, kept, all, v.counted.counted, v.counted.limited);
    }

give-IsHeeded :
    (key : Bytes) (fd now : ℕ) (c : Crowd)
    → 0 < c.sys.lent
    → IsHeeded key c
    → IsHeeded key (give key fd now c)
unfolding give release_connection
give-IsHeeded key fd now c n v =
    let m = c.sys.pool.m_conn_map in
    let item : ConnectionItem = record { fd = fd; last_active_time = now } in
    let longer = length-append (queue_of key m) (item ∷ []) in
    let queue = ap length (queue_of-assign key (queue_of key m ++ item ∷ []) m) in
    record {
      counted = Step-IsCounted (Accounting.Step.gives key fd now n refl) v.counted;
      alone =
          omega (arith, v.alone, longer, queue, idle-assign key (queue_of key m ++ item ∷ []) m);
      asleep = v.asleep;
      woken = v.woken;
      heard = λ w. omega (arith, v.heard w, longer, queue);
    }

Step-IsHeeded :
    (key : Bytes) (c d : Crowd) → Step (λ k. k ≡ key) c d → IsHeeded key c → IsHeeded key d
unfolding fail create_failed
Step-IsHeeded key c d (arrives k same e) v = subst (IsHeeded key) (sym e) (
    rw same
      (serve-IsHeeded key c v.counted v.alone v.asleep v.woken (λ n. omega (arith, v.heard n))))
Step-IsHeeded key c d (resumes k xs ys e f) v =
    let (same, rest) = AllAre-without key k xs ys (subst (AllAre key) e v.woken) in
    let count = length-without k xs ys in
    subst (IsHeeded key) (sym f) (
      rw same (
        serve-IsHeeded key (record c { woken = xs ++ ys }) v.counted v.alone v.asleep rest
          (λ n. omega (arith, v.heard n, count, ap length e))))
Step-IsHeeded key c d (connects n e) v = subst (IsHeeded key) (sym e) record {
  counted = Step-IsCounted (Accounting.Step.connects n refl) v.counted;
  alone = v.alone;
  asleep = v.asleep;
  woken = v.woken;
  heard = v.heard;
}
Step-IsHeeded key c d (fails n w) v =
    Wakes-IsHeeded key (fail c) d w (Step-IsCounted (Accounting.Step.fails n refl) v.counted)
      v.alone v.asleep v.woken (λ s. omega (arith, v.heard s))
Step-IsHeeded key c d (gives k fd now same n e) v =
    subst (IsHeeded key) (sym e) (rw same (give-IsHeeded key fd now c n v))
Step-IsHeeded key c d (notifies n w) v =
    Wakes-IsHeeded key (record c { notices = c.notices - 1 }) d w v.counted v.alone v.asleep v.woken
      (λ s. omega (arith, v.heard s, n))
Step-IsHeeded key c d (stirs w) v =
    Wakes-IsHeeded key c d w v.counted v.alone v.asleep v.woken (λ s. omega (arith, v.heard s))
Step-IsHeeded key c d (drops n e) v = subst (IsHeeded key) (sym e) record {
  counted = Step-IsCounted (Accounting.Step.drops n refl) v.counted;
  alone = v.alone;
  asleep = v.asleep;
  woken = v.woken;
  heard = v.heard;
}
Step-IsHeeded key c d (sweeps now e) v = subst (IsHeeded key) (sym e) (sweep-IsHeeded key now c v)

start-IsHeeded : (key : Bytes) → IsHeeded key start
unfolding start Accounting.start ConnPool.new idle queue_of find
start-IsHeeded key = record {
  counted = start-IsCounted;
  alone = refl;
  asleep = tt;
  woken = tt;
  heard = λ n. absurd (omega arith);
}

Reach-IsHeeded : (key : Bytes) (c : Crowd) → Reach (λ k. k ≡ key) start c → IsHeeded key c
Reach-IsHeeded key c here = start-IsHeeded key
Reach-IsHeeded key c (next {d = d} r s) = Step-IsHeeded key d c s (Reach-IsHeeded key d r)

-- In every order of the threads, if all calls are for one provider: while a thread sleeps in
-- GetConnection, there are at least as many threads woken, or calls of notify_one still to come, as
-- there are idle connections and free places for it. So no wake-up is lost.
pub Reach-start-heard :
    (key : Bytes) (c : Crowd)
    → Reach (λ k. k ≡ key) start c
    → 0 < length c.asleep
    → usable key c.sys.pool ≤ length c.woken + c.notices
Reach-start-heard key c r n = (Reach-IsHeeded key c r).heard n
