-- ===== src/TimeHeap/Down.antt =====
-- The loop of pop_timer in src/include/lst_timer.h, which lets a timer sink to its place.

use mathlib.Core.List.Perm
use mprpc_advanced_z.Base.{
  ℕ, zero, suc, ◌+◌, ◌-◌, ◌*◌, ◌≤◌, ◌<◌, ◌≡◌, ◌≢◌, ◌⊎◌, refl, List, some, ltb, length, set, arith,
  length-set, Bool-cases, inl, inr, ltb→lt, ltb→le,
}
use mprpc_advanced_z.TimeHeap.{Memory, parent, smaller_child, down_loop}
use mprpc_advanced_z.TimeHeap.Slots.{
  at, key, IsLive, Sifted, load-at, store-at, at-set, move-perm_take,
}
use mprpc_advanced_z.TimeHeap.Up.{Sifted-move}

-- The slots but for the hole are in order, also across the hole, and the timer may stand below the
-- hole's parent.
pub record DownInv (mem : Memory) (n : ℕ) (a : List ℕ) (hole timer : ℕ) : Type 0 where
  pub inside : hole < n
  pub fits : n ≤ length a
  pub live : (c : ℕ) → c < n → c ≢ hole → IsLive mem (at a c)
  pub live_timer : IsLive mem timer
  pub edges :
      (c : ℕ)
      → 0 < c
      → c < n
      → c ≢ hole
      → parent c ≢ hole
      → key mem (at a (parent c)) ≤ key mem (at a c)
  pub above : 0 < hole → key mem (at a (parent hole)) ≤ key mem timer
  pub bridged :
      (c : ℕ)
      → 0 < c
      → c < n
      → parent c ≡ hole
      → 0 < hole
      → key mem (at a (parent hole)) ≤ key mem (at a c)

-- `m` is the child of the hole that expires first.
record IsSmaller (mem : Memory) (n : ℕ) (a : List ℕ) (hole m : ℕ) : Type 0 where
  inside : m < n
  child : (m ≡ 2 * hole + 1) ⊎ (m ≡ 2 * hole + 2)
  least : (c : ℕ) → 0 < c → c < n → parent c ≡ hole → key mem (at a m) ≤ key mem (at a c)

least_of_both :
    (mem : Memory) (n : ℕ) (a : List ℕ) (hole k : ℕ)
    → k ≤ key mem (at a (2 * hole + 1))
    → (2 * hole + 1 + 1 < n → k ≤ key mem (at a (2 * hole + 1 + 1)))
    → (c : ℕ) → 0 < c
    → c < n
    → parent c ≡ hole
    → k ≤ key mem (at a c)
least_of_both mem n a hole k l r c p q e = elim which [
  | inl f ↦ rw f l
  | inr f ↦ rw f (r (omega arith))
]
  where
    which : (c ≡ 2 * hole + 1) ⊎ (c ≡ 2 * hole + 1 + 1)
    which = omega arith

module _ (mem : Memory) (n : ℕ) (a : List ℕ) (hole timer : ℕ) (v : DownInv mem n a hole timer) where
  smaller_child-IsSmaller :
      2 * hole + 1 < n → (m : ℕ) × (smaller_child mem a n hole ≡ some m) × IsSmaller mem n a hole m
  unfolding smaller_child
  smaller_child-IsSmaller h =
      let l = 2 * hole + 1 in
      let read_l = load-at a l (omega (arith, v.fits)) in
      let live_l = v.live l h (omega arith) in
      elim (Bool-cases (ltb l (n - 1))) [
        | inr e ↦
            let last = ltb→le l (n - 1) e in
            (
              l,
              rw e refl,
              record {
                inside = h;
                child = inl refl;
                least = least_of_both mem n a hole _ (omega arith) (λ i. absurd (omega arith));
              },
            )
        | inl e ↦
            let more = ltb→lt l (n - 1) e in
            let read_r = load-at a (l + 1) (omega (arith, v.fits)) in
            let live_r = v.live (l + 1) (omega arith) (omega arith) in
            elim (Bool-cases (ltb (key mem (at a (l + 1))) (key mem (at a l)))) [
              | inl g ↦ (
                l + 1,
                rw (e, read_r, read_l, live_r, live_l, g) refl,
                record {
                  inside = omega arith;
                  child = inr (omega arith);
                  least =
                      least_of_both mem n a hole _ (omega (arith, ltb→lt _ _ g)) (λ i. omega arith);
                },
              )
              | inr g ↦ (
                l,
                rw (e, read_r, read_l, live_r, live_l, g) refl,
                record {
                  inside = h;
                  child = inl refl;
                  least =
                      least_of_both mem n a hole _ (omega arith) (λ i. omega (arith, ltb→le _ _ g));
                },
              )
            ]
      ]

  settle-Sifted :
      ((c : ℕ) → 0 < c → c < n → parent c ≡ hole → key mem timer ≤ key mem (at a c))
      → Sifted mem n (set a hole timer) (set a hole timer)
  settle-Sifted h =
      let at' = λ (c : ℕ). at-set a hole c timer (omega (arith, v.inside, v.fits)) in
      record {
        ordered = λ c p q. ground (arith, at' c, at' (parent c), v.edges c p q, v.above, h c p q);
        live = λ c q. ground (arith, at' c, v.live c q, v.live_timer);
        size = refl;
        same = Perm.rfl;
      }

  sink-DownInv :
      (m : ℕ)
      → IsSmaller mem n a hole m
      → key mem (at a m) < key mem timer
      → DownInv mem n (set a hole (at a m)) m timer
  sink-DownInv m s l =
      let at' = λ (c : ℕ). at-set a hole c (at a m) (omega (arith, v.inside, v.fits)) in
      record {
        inside = s.inside;
        fits = omega (arith, v.fits, length-set a hole (at a m));
        live = λ c q r. ground (arith, at' c, v.live c q, v.live m s.inside, s.child);
        live_timer = v.live_timer;
        edges = λ c q r i j. ground (
          arith,
          at' c,
          at' (parent c),
          v.edges c q r,
          v.bridged m (omega (arith, s.child)) s.inside (omega (arith, s.child)),
          s.least c q r,
        );
        above = λ q. ground (arith, at' (parent m), s.child);
        bridged = λ c q r i j. ground (arith, at' c, at' (parent m), v.edges c q r, s.child);
      }

-- With fuel for the slots below the hole the loop ends and leaves a heap of the same timers with the
-- given one in the hole.
pub down_loop_sifts :
    (fuel : ℕ) (mem : Memory) (n : ℕ) (a : List ℕ) (hole timer : ℕ)
    → n - hole < fuel
    → DownInv mem n a hole timer
    → (b : List ℕ) × (down_loop fuel mem a n hole timer ≡ some b)
      × Sifted mem n (set a hole timer) b
unfolding down_loop
down_loop_sifts zero mem n a hole timer f v = absurd (omega arith)
down_loop_sifts (suc fuel) mem n a hole timer f v =
    let room : hole < length a = omega (arith, v.inside, v.fits) in
    let put_here = store-at a hole timer room in
    elim (Bool-cases (ltb (2 * hole + 1) n)) [
      | inr e ↦
          let leaf = ltb→le (2 * hole + 1) n e in
          (
            set a hole timer,
            rw e put_here,
            settle-Sifted mem n a hole timer v (λ c p q r. absurd (omega arith)),
          )
      | inl e ↦
          let (m, chosen, s) =
            smaller_child-IsSmaller mem n a hole timer v (ltb→lt (2 * hole + 1) n e) in
          let p = at a m in
          let read = load-at a m (omega (arith, s.inside, v.fits)) in
          let live = v.live m s.inside (omega (arith, s.child)) in
          elim (Bool-cases (ltb (key mem p) (key mem timer))) [
            | inr g ↦ (
              set a hole timer,
              rw (e, chosen, read, live, v.live_timer, g) put_here,
              settle-Sifted mem n a hole timer v
                  (λ c q r i. omega (arith, ltb→le _ _ g, s.least c q r i)),
            )
            | inl g ↦
                let next = sink-DownInv mem n a hole timer v m s (ltb→lt _ _ g) in
                let (b, run, t) =
                  down_loop_sifts fuel mem n (set a hole p) m timer
                    (omega (arith, s.child, s.inside)) next in
                (
                  b,
                  rw (e, chosen, read, live, v.live_timer, g, store-at a hole p room) run,
                  Sifted-move
                      (omega (
                        arith,
                        length-set (set a hole p) m timer,
                        length-set a hole p,
                        length-set a hole timer,
                      ))
                      (move-perm_take n a hole m timer v.fits v.inside s.inside) t,
                )
          ]
    ]
