-- ===== src/ConnPool/Sweep.antt =====
-- The inner loop of CleanIdleConnections in src/connpool.cc, which stops at the first fresh item.
use mprpc_advanced_z.Base.{
  ℕ, ◌≤◌, ◌≡◌, refl, List, [], ◌∷◌, false, if◌then◌else◌, arith, Bool-cases, inl, inr,
}
use mprpc_advanced_z.ConnPool.{ConnectionItem, is_stale, clean_queue}

-- Every item was put in no earlier than `t`, and the items stand in the order of their times.
abbrev pub SortedFrom : ℕ → List ConnectionItem → Type 0
SortedFrom t [] = Unit {0}
SortedFrom t (x ∷ q) = (t ≤ x.last_active_time) × SortedFrom x.last_active_time q

-- The items, stale or not, without an early stop.
unfoldable pub fresh_items : ℕ → List ConnectionItem → List ConnectionItem
fresh_items now [] = []
fresh_items now (x ∷ q) = if is_stale now x then fresh_items now q else x ∷ fresh_items now q

unfoldable pub stale_fds : ℕ → List ConnectionItem → List ℕ
stale_fds now [] = []
stale_fds now (x ∷ q) = if is_stale now x then x.fd ∷ stale_fds now q else stale_fds now q

is_stale-antitone :
    (now : ℕ) (x y : ConnectionItem)
    → x.last_active_time ≤ y.last_active_time
    → is_stale now x ≡ false
    → is_stale now y ≡ false
unfolding is_stale
is_stale-antitone now x y h e = ground arith

all_fresh :
    (now : ℕ) (x : ConnectionItem) (q : List ConnectionItem)
    → SortedFrom x.last_active_time q
    → is_stale now x ≡ false
    → (fresh_items now q ≡ q) × (stale_fds now q ≡ [])
unfolding fresh_items stale_fds
all_fresh now x [] s e = (refl, refl)
all_fresh now x (y ∷ q) s e =
    let f = is_stale-antitone now x y s.0 e in ground (arith, f, all_fresh now y q s.1 f)

-- On a queue in the order of the times, one reading of the clock for the pass, stopping at the first
-- fresh item is the same as looking at all: the stale items go, the fresh ones stay in order.
pub clean_queue-filter :
    (now t : ℕ) (q : List ConnectionItem)
    → SortedFrom t q
    → clean_queue (λ _. now) q ≡ (fresh_items now q, stale_fds now q)
unfolding clean_queue fresh_items stale_fds
clean_queue-filter now t [] s = refl
clean_queue-filter now t (x ∷ q) s = elim (Bool-cases (is_stale now x)) [
  | inl e ↦ let ih = clean_queue-filter now x.last_active_time q s.1 in rw (e, ih) refl
  | inr e ↦ let (kept, none_gone) = all_fresh now x q s.1 e in rw (e, kept, none_gone) refl
]
