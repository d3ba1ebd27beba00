-- ===== src/ConnPool/Usable.antt =====
-- src/connpool.cc: what the connections are that a call for a key can have.
use mprpc_advanced_z.Base.{
  ℕ, suc, ◌+◌, ◌-◌, ◌≤◌, ◌≡◌, refl, ap, List, [], ◌∷◌, ◌++◌, arith, true, Bool-cases, inl, inr, ltb,
  if◌then◌else◌, length, length-append, ◌==◌, ltb→lt, ltb→le,
}
use mprpc_advanced_z.Base.Bytes.{Bytes, bytes_eq, bytes_beq_iff}
use mprpc_advanced_z.Base.Maps.{Map, find, assign, insert_new, find-assign, find-insert_new}
use mprpc_advanced_z.ConnPool.{
  ConnectionItem, ConnectionPool, max_connections, queue_of, Attempt, got, create, wait, try_get,
  clean_queue, clean_map,
}
use mprpc_advanced_z.ConnPool.Accounting.{idle, idle-assign, idle-touch, clean_queue-length}

pub queue_of-assign :
    (key : Bytes) (q : List ConnectionItem) (m : Map Bytes (List ConnectionItem))
    → queue_of key (assign key q m) ≡ q
unfolding queue_of
queue_of-assign key q m =
    let self : (key == key) ≡ true = (bytes_beq_iff key key).1 refl in
    ground (arith, find-assign key key q m)

pub queue_of-touch :
    (key : Bytes) (m : Map Bytes (List ConnectionItem))
    → queue_of key (insert_new key [] m) ≡ queue_of key m
unfolding queue_of
queue_of-touch key m =
    let self : (key == key) ≡ true = (bytes_beq_iff key key).1 refl in
    ground (arith, find-insert_new key key [] m)

-- The connections that a call for the key can have: the idle ones and the free places.
abbrev pub usable : Bytes → ConnectionPool → ℕ
usable key p = length (queue_of key p.m_conn_map) + (max_connections - p.m_cur_conn_count)

-- A call that gets something takes one, and a call that waits has found none.
abbrev pub Left : Attempt → ℕ → ℕ → Type 0
Left (got fd) before after = after + 1 ≡ before
Left create before after = after + 1 ≡ before
Left wait before after = (before ≡ 0) × (after ≡ 0)

pub try_get-Left-by_queue :
    (key : Bytes) (p : ConnectionPool) (q : List ConnectionItem)
    → queue_of key p.m_conn_map ≡ q
    → p.m_cur_conn_count ≤ max_connections
    → Left (try_get key p).0 (usable key p) (usable key (try_get key p).1)
unfolding try_get
try_get-Left-by_queue key p (x ∷ q) e v =
    let before = ap length e in
    simp (try_get, e) (omega (arith, before, ap length (queue_of-assign key q p.m_conn_map)))
try_get-Left-by_queue key p [] e v =
    let none_idle : length (queue_of key p.m_conn_map) ≡ 0 = omega (arith, ap length e) in
    let touched = ap length (queue_of-touch key p.m_conn_map) in
    elim (Bool-cases (ltb p.m_cur_conn_count max_connections)) [
      | inl b ↦ simp (try_get, e, b) (omega (arith, ltb→lt _ _ b, touched, none_idle))
      | inr b ↦
          simp (try_get, e, b)
            ((
              omega (arith, ltb→le _ _ b, touched, none_idle),
              omega (arith, ltb→le _ _ b, touched, none_idle),
            ))
    ]

-- The connections idle are all for the key.
abbrev pub Alone : Bytes → Map Bytes (List ConnectionItem) → Type 0
Alone key m = idle m ≡ length (queue_of key m)

-- All keys are the one.
abbrev pub AllAre : Bytes → List Bytes → Type 0
AllAre key [] = Unit {0}
AllAre key (k ∷ ks) = (k ≡ key) × AllAre key ks

pub AllAre-without :
    (key k : Bytes) (xs ys : List Bytes)
    → AllAre key (xs ++ k ∷ ys)
    → (k ≡ key) × AllAre key (xs ++ ys)
AllAre-without key k [] ys h = h
AllAre-without key k (x ∷ xs) ys (e, h) = let (f, g) = AllAre-without key k xs ys h in (f, (e, g))

pub length-without :
    (k : Bytes) (xs ys : List Bytes) → length (xs ++ k ∷ ys) ≡ suc (length (xs ++ ys))
length-without k [] ys = refl
length-without k (x ∷ xs) ys = ap suc (length-without k xs ys)

pub try_get-Alone-by_queue :
    (key : Bytes) (p : ConnectionPool) (q : List ConnectionItem)
    → queue_of key p.m_conn_map ≡ q
    → Alone key p.m_conn_map
    → Alone key (try_get key p).1.m_conn_map
unfolding try_get
try_get-Alone-by_queue key p (x ∷ q) e a =
    let before = ap length e in
    let after = ap length (queue_of-assign key q p.m_conn_map) in
    simp (try_get, e) (omega (arith, a, before, after, idle-assign key q p.m_conn_map))
try_get-Alone-by_queue key p [] e a =
    let touched = ap length (queue_of-touch key p.m_conn_map) in
    elim (Bool-cases (ltb p.m_cur_conn_count max_connections)) [
      | inl b ↦ simp (try_get, e, b) (omega (arith, a, touched, idle-touch key p.m_conn_map))
      | inr b ↦ simp (try_get, e, b) (omega (arith, a, touched, idle-touch key p.m_conn_map))
    ]

queue_of-cons :
    (key k : Bytes) (q : List ConnectionItem) (m : Map Bytes (List ConnectionItem))
    → queue_of key ((k, q) ∷ m) ≡ (if k == key then q else queue_of key m)
unfolding queue_of find
queue_of-cons key k q m = ground arith

-- What a sweep leaves for the key, and that it takes no more from the key's queue than in all.
pub clean_map-queue :
    (now : ConnectionItem → ℕ) (key : Bytes) (m : Map Bytes (List ConnectionItem))
    → (length (queue_of key (clean_map now m).0) + length (clean_queue now (queue_of key m)).1
        ≡ length (queue_of key m))
      × (length (clean_queue now (queue_of key m)).1 ≤ length (clean_map now m).1)
unfolding clean_map
clean_map-queue now key [] = unfold queue_of find clean_queue in (omega arith, omega arith)
clean_map-queue now key ((k, q) ∷ m) =
    let rest = clean_map-queue now key m in
    let here = clean_queue-length now q in
    let both = length-append (clean_queue now q).1 (clean_map now m).1 in
    elim (Bool-cases (k == key)) [
      | inl b ↦ simp (queue_of-cons, b) (omega (arith, here), omega (arith, both))
      | inr b ↦ simp (queue_of-cons, b) (omega (arith, rest.0), omega (arith, rest.1, both))
    ]
