-- ===== src/TimeHeap/Up.antt =====
-- The loop of add_timer in src/include/lst_timer.h, which lets a timer rise to its place.
use mathlib.Core.List.{Perm}
use mathlib.Core.List.Perm
use mprpc_advanced_z.Base.{
  ℕ, zero, suc, ◌≤◌, ◌<◌, ◌≡◌, ◌≢◌, refl, ◌∙◌, List, some, ltb, leb, length, set, take, arith,
  length-set, Bool-cases, inl, inr, ltb→lt, ltb→le,
}
use mprpc_advanced_z.TimeHeap.{Memory, parent, up_loop}
use mprpc_advanced_z.TimeHeap.Slots.{
  at, key, IsLive, Sifted, load-at, store-at, at-set, move-perm_take,
}

-- The slots but for the hole are in order, and so would be the timer above the hole's children.
pub record UpInv (mem : Memory) (n : ℕ) (a : List ℕ) (hole timer : ℕ) : Type 0 where
  pub inside : hole < n
  pub fits : n ≤ length a
  pub live : (c : ℕ) → c < n → c ≢ hole → IsLive mem (at a c)
  pub live_timer : IsLive mem timer
  pub edges :
      (c : ℕ)
      → 0 < c
      → c < n
      → c ≢ hole
      → parent c ≢ hole
      → key mem (at a (parent c)) ≤ key mem (at a c)
  pub below : (c : ℕ) → 0 < c → c < n → parent c ≡ hole → key mem timer ≤ key mem (at a c)
  pub bridged :
      (c : ℕ)
      → 0 < c
      → c < n
      → parent c ≡ hole
      → 0 < hole
      → key mem (at a (parent hole)) ≤ key mem (at a c)

module _ (mem : Memory) (n : ℕ) (a : List ℕ) (hole timer : ℕ) (v : UpInv mem n a hole timer) where
  settle-Sifted :
      (0 < hole → key mem (at a (parent hole)) ≤ key mem timer)
      → Sifted mem n (set a hole timer) (set a hole timer)
  settle-Sifted h =
      let at' = λ (c : ℕ). at-set a hole c timer (omega (arith, v.inside, v.fits)) in
      record {
        ordered = λ c p q. ground (arith, at' c, at' (parent c), v.edges c p q, v.below c p q, h);
        live = λ c q. ground (arith, at' c, v.live c q, v.live_timer);
        size = refl;
        same = Perm.rfl;
      }

  rise-UpInv :
      0 < hole
      → key mem timer < key mem (at a (parent hole))
      → UpInv mem n (set a hole (at a (parent hole))) (parent hole) timer
  rise-UpInv h l =
      let p = parent hole in
      let at' = λ (c : ℕ). at-set a hole c (at a p) (omega (arith, v.inside, v.fits)) in
      record {
        inside = omega (arith, v.inside);
        fits = omega (arith, v.fits, length-set a hole (at a p));
        live = λ c q r. ground (arith, at' c, v.live c q, v.live p, v.inside);
        live_timer = v.live_timer;
        edges = λ c q r s t. ground (arith, at' c, at' (parent c), v.edges c q r, v.bridged c q r);
        below = λ c q r s. ground (arith, at' c, v.edges c q r);
        bridged =
            λ c q r s t. ground (arith, at' c, at' (parent p), v.edges c q r, v.edges p, v.inside);
      }

-- A chain of moves: what the rest of the loop makes of the next array is what it makes of this one.
pub Sifted-move :
    {mem : Memory} {n : ℕ} {a b c : List ℕ}
    → length b ≡ length a
    → Perm (take n b) (take n a)
    → Sifted mem n b c
    → Sifted mem n a c
Sifted-move l p s = record {
  ordered = s.ordered;
  live = s.live;
  size = s.size ∙ l;
  same = Perm.trans s.same p;
}

-- From a hole with room above it, and with fuel for its index, the loop ends and leaves a heap of
-- the same timers with the given one in it.
pub up_loop_sifts :
    (fuel : ℕ) (mem : Memory) (n : ℕ) (a : List ℕ) (hole timer : ℕ)
    → hole < fuel
    → UpInv mem n a hole timer
    → (b : List ℕ) × (up_loop fuel mem a hole timer ≡ some b) × Sifted mem n (set a hole timer) b
unfolding up_loop
up_loop_sifts zero mem n a hole timer f v = absurd (omega arith)
up_loop_sifts (suc fuel) mem n a hole timer f v =
    let room : hole < length a = omega (arith, v.inside, v.fits) in
    let put_here = store-at a hole timer room in
    elim (Bool-cases (ltb 0 hole)) [
      | inr e ↦ (
        set a hole timer,
        rw e put_here,
        settle-Sifted mem n a hole timer v (λ h. absurd (omega (arith, ltb→le 0 hole e, h))),
      )
      | inl e ↦
          let deep = ltb→lt 0 hole e in
          let p = at a (parent hole) in
          let read = load-at a (parent hole) (omega arith) in
          let live = v.live (parent hole) (omega (arith, v.inside)) (omega arith) in
          elim (Bool-cases (leb (key mem p) (key mem timer))) [
            | inl g ↦ (
              set a hole timer,
              rw (e, read, live, v.live_timer, g) put_here,
              settle-Sifted mem n a hole timer v (λ h. ground arith),
            )
            | inr g ↦
                let lower : key mem timer < key mem p = ground arith in
                let next = rise-UpInv mem n a hole timer v deep lower in
                let (b, run, s) =
                  up_loop_sifts fuel mem n (set a hole p) (parent hole) timer (omega arith) next in
                (
                  b,
                  rw (e, read, live, v.live_timer, g, store-at a hole p room) run,
                  Sifted-move
                      (omega (
                        arith,
                        length-set (set a hole p) (parent hole) timer,
                        length-set a hole p,
                        length-set a hole timer,
                      ))
                      (move-perm_take n a hole (parent hole) timer v.fits v.inside
                        (omega (arith, v.inside)))
                      s,
                )
          ]
    ]
