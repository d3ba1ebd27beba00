-- ===== src/Base/Bytes.antt =====
-- Byte strings: std::string as the list of its bytes.
use mprpc_advanced_z.Base.Tests.{KeyEq, nat_beq, ltb, if◌then◌else◌}
use mprpc_advanced_z.Base.Lists.{length, take, drop}
use Prim.Native.Nat.{ℕ, suc}
use Prim.Native.Char.{code}
use Prim.Native.String.{String}
use mathlib.Core.Path.{◌≡◌, refl}
use mathlib.Core.Logic.{◌↔◌, ◌≢◌}
use mathlib.Core.Bool.{Bool, true, false, ◌&&◌}
use mathlib.Core.List.{List, [], ◌∷◌, ◌++◌}
use mathlib.Core.Option
use mathlib.Core.Option.{Option, none, some}
use native.Mathlib.Omega.{arith}

abbrev pub Bytes : Type 0
Bytes = List ℕ

-- The bytes of an ASCII literal.
abbrev pub codes : String → Bytes
codes String.[] = []
codes (String.◌∷◌ c s) = code c ∷ codes s

unfoldable pub bytes_beq : Bytes → Bytes → Bool
bytes_beq [] [] = true
bytes_beq [] (b ∷ bs) = false
bytes_beq (a ∷ as') [] = false
bytes_beq (a ∷ as') (b ∷ bs) = nat_beq a b && bytes_beq as' bs

pub bytes_beq_iff : (s t : Bytes) → (bytes_beq s t ≡ true) ↔ (s ≡ t)
unfolding bytes_beq
bytes_beq_iff [] [] = ((λ _. refl), (λ _. refl))
bytes_beq_iff [] (b ∷ bs) = ((λ h. cc), (λ h. cc))
bytes_beq_iff (a ∷ as') [] = ((λ h. cc), (λ h. cc))
bytes_beq_iff (a ∷ as') (b ∷ bs) = ground (arith, bytes_beq_iff as' bs)

instance abbrev pub bytes_eq : KeyEq Bytes
bytes_eq = record { same_key = bytes_beq; same_key_iff = bytes_beq_iff }

-- std::string::substr, which throws std::out_of_range if the position lies behind the end.
unfoldable pub substr : ℕ → ℕ → Bytes → Option Bytes
substr pos n s = if ltb (length s) pos then none else some (take n (drop pos s))

-- std::string::find of one character.
unfoldable pub find_char : ℕ → Bytes → Option ℕ
find_char c [] = none
find_char c (b ∷ bs) = if nat_beq b c then some 0 else Option.map suc (find_char c bs)

-- No byte is the character.
abbrev pub Avoids : ℕ → Bytes → Type 0
Avoids c [] = Unit {0}
Avoids c (b ∷ bs) = (b ≢ c) × Avoids c bs

pub find_char-append :
    (c : ℕ) (s t : Bytes) → Avoids c s → find_char c (s ++ c ∷ t) ≡ some (length s)
unfolding find_char
find_char-append c [] t a = ground arith
find_char-append c (b ∷ s) t a = ground (arith, find_char-append c s t a.1)

pub find_char-Avoids : (c : ℕ) (s : Bytes) → Avoids c s → find_char c s ≡ none
unfolding find_char
find_char-Avoids c [] a = refl
find_char-Avoids c (b ∷ s) a = ground (arith, find_char-Avoids c s a.1)
