-- ===== src/Base/Decimal.antt =====
-- std::to_string of a number that is not negative, and atoi, over byte strings.
use mprpc_advanced_z.Base.Tests.{ltb, leb, nat_beq, if◌then◌else◌, Bool-cases, ltb→lt, ltb→le}
use mprpc_advanced_z.Base.Bytes.{Bytes}
use Prim.Native.Nat.{ℕ, zero, suc, ◌+◌, ◌-◌, ◌*◌, ◌/◌, ◌%◌, ◌≤◌, ◌<◌}
use mathlib.Core.Path.{◌≡◌, refl, ap, ◌∙◌}
use mathlib.Core.Logic.{inl, inr, ◌≢◌}
use mathlib.Core.Bool.{Bool, true, false, ◌&&◌, ◌||◌}
use mathlib.Core.List.{[], ◌∷◌}
use native.Mathlib.Omega.{arith}

-- The digits of `n` in front of `acc`; the fuel exceeds the number.
unfoldable pub digits_of : ℕ → ℕ → Bytes → Bytes
digits_of zero n acc = acc
digits_of (suc f) n acc =
    let rest = digits_of f (n / 10) ((48 + n % 10) ∷ acc) in
    if ltb n 10 then (48 + n) ∷ acc else rest

-- std::to_string(n)
unfoldable pub to_string : ℕ → Bytes
unfolding digits_of
to_string n = digits_of (n + 1) n []

unfoldable pub is_digit : ℕ → Bool
is_digit c = leb 48 c && leb c 57

-- The value of the digits in front, added to `acc`; atoi stops at the first other character.
unfoldable pub digits_value : ℕ → Bytes → ℕ
unfolding is_digit
digits_value acc [] = acc
digits_value acc (c ∷ cs) =
    let rest = digits_value (acc * 10 + (c - 48)) cs in if is_digit c then rest else acc

unfoldable pub is_space : ℕ → Bool
is_space c = nat_beq c 32 || (leb 9 c && leb c 13)

unfoldable pub skip_spaces : Bytes → Bytes
unfolding is_space
skip_spaces [] = []
skip_spaces (c ∷ cs) = if is_space c then skip_spaces cs else c ∷ cs

-- The sign that atoi accepts, and the size of the number behind it.
unfoldable pub signed_value : Bytes → Bool × ℕ
unfolding digits_value
signed_value [] = (false, 0)
signed_value (c ∷ cs) =
    if nat_beq c 45
    then (true, digits_value 0 cs)
    else if nat_beq c 43
    then (false, digits_value 0 cs)
    else (false, digits_value 0 (c ∷ cs))

-- `uint16_t port = atoi(s)`: the value modulo 2 ^ 16.
unfoldable pub atoi_u16 : Bytes → ℕ
unfolding signed_value skip_spaces
atoi_u16 s =
    let (negative, n) = signed_value (skip_spaces s) in
    if negative then (65536 - n % 65536) % 65536 else n % 65536

-- Every byte is a digit.
abbrev pub AllDigits : Bytes → Type 0
AllDigits [] = Unit {0}
AllDigits (c ∷ cs) = (48 ≤ c) × (c ≤ 57) × AllDigits cs

digits_of-AllDigits :
    (f n : ℕ) (acc : Bytes) → n < f → AllDigits acc → AllDigits (digits_of f n acc)
unfolding digits_of
digits_of-AllDigits zero n acc h a = a
digits_of-AllDigits (suc f) n acc h a = elim (Bool-cases (ltb n 10)) [
  | inl e ↦ let small = ltb→lt n 10 e in rw e (omega arith, omega arith, a)
  | inr e ↦
      let large = ltb→le n 10 e in
      rw e (digits_of-AllDigits f (n / 10) _ (omega arith) (omega arith, omega arith, a))
]

pub to_string-AllDigits : (n : ℕ) → AllDigits (to_string n)
unfolding to_string
to_string-AllDigits n = digits_of-AllDigits (n + 1) n [] (omega arith) tt

digits_value-digit :
    (acc d : ℕ) (cs : Bytes)
    → d < 10
    → digits_value acc ((48 + d) ∷ cs) ≡ digits_value (acc * 10 + d) cs
unfolding digits_value
digits_value-digit acc d cs h =
    let digit : is_digit (48 + d) ≡ true = unfold is_digit in ground arith in
    rw digit (ap (λ k. digits_value (acc * 10 + k) cs) (omega arith))

digits_value-digits_of :
    (f n : ℕ) (acc : Bytes) → n < f → digits_value 0 (digits_of f n acc) ≡ digits_value n acc
unfolding digits_of
digits_value-digits_of zero n acc h = absurd (omega arith)
digits_value-digits_of (suc f) n acc h = elim (Bool-cases (ltb n 10)) [
  | inl e ↦
      rw e (digits_value-digit 0 n acc (ltb→lt n 10 e) ∙ ap (λ k. digits_value k acc) (omega arith))
  | inr e ↦
      let large = ltb→le n 10 e in
      rw e (
        digits_value-digits_of f (n / 10) _ (omega arith)
        ∙ digits_value-digit (n / 10) (n % 10) acc (omega arith)
        ∙ ap (λ k. digits_value k acc) (omega arith))
]

digits_of-ne-nil : (f n : ℕ) (acc : Bytes) → n < f → digits_of f n acc ≢ []
unfolding digits_of
digits_of-ne-nil zero n acc h = absurd (omega arith)
digits_of-ne-nil (suc f) n acc h = ground (arith, digits_of-ne-nil f (n / 10) ((48 + n % 10) ∷ acc))

skip_spaces-digit : (c : ℕ) (cs : Bytes) → 48 ≤ c → c ≤ 57 → skip_spaces (c ∷ cs) ≡ c ∷ cs
unfolding skip_spaces
skip_spaces-digit c cs l u = ground arith

signed_value-digit :
    (c : ℕ) (cs : Bytes) → 48 ≤ c → signed_value (c ∷ cs) ≡ (false, digits_value 0 (c ∷ cs))
unfolding signed_value
signed_value-digit c cs l =
    let not_minus : nat_beq c 45 ≡ false = ground arith in
    let not_plus : nat_beq c 43 ≡ false = ground arith in rw (not_minus, not_plus)

-- A text that begins with a digit is read as its digits.
atoi_u16-digits : (s : Bytes) → AllDigits s → s ≢ [] → atoi_u16 s ≡ digits_value 0 s % 65536
unfolding atoi_u16
atoi_u16-digits [] a h = absurd (h refl)
atoi_u16-digits (c ∷ cs) a h =
    rw (skip_spaces-digit c cs (a.0) (a.1), signed_value-digit c cs (a.0)) refl

-- atoi reads back what std::to_string prints, modulo the range of a port.
pub atoi_u16-to_string : (n : ℕ) → atoi_u16 (to_string n) ≡ n % 65536
unfolding to_string
atoi_u16-to_string n =
    atoi_u16-digits (to_string n) (to_string-AllDigits n)
      (digits_of-ne-nil (n + 1) n [] (omega arith))
    ∙ ap (λ k. k % 65536) (unfold digits_value in digits_value-digits_of (n + 1) n [] (omega arith))
