-- ===== src/Config/Lines.antt =====
-- src/mprpcconfig.cc: a line of the file gives its key and its value, and the loop ends.
use mathlib.Core.List.{reverse, reverse-append, reverse-reverse}
use mprpc_advanced_z.Base.{
  ℕ, zero, suc, ◌+◌, ◌-◌, ◌≡◌, ◌≢◌, refl, subst, ap, ap₂, sym, ◌∙◌, [], ◌∷◌, ◌++◌, some, false,
  nat_beq, length, drop, replicate, arith, append-nil, append_assoc, take-append, drop-append,
  drop-drop,
}
use mprpc_advanced_z.Base.Bytes.{Bytes, Avoids, find_char, find_char-append}
use mprpc_advanced_z.Config.{
  drop_spaces, all_spaces, trim, c_string, find_from, value_of, parse_entry, parse_line,
}

-- The text does not begin with a space, nor does it end with one.
abbrev StartsTight : Bytes → Type 0
StartsTight [] = Unit {0}
StartsTight (c ∷ cs) = c ≢ 32

abbrev pub IsTight : Bytes → Type 0
IsTight s = StartsTight s × StartsTight (reverse s) × (s ≢ [])

abbrev pub spaces : ℕ → Bytes
spaces n = replicate n 32

drop_spaces-spaces : (n : ℕ) (s : Bytes) → drop_spaces (spaces n ++ s) ≡ drop_spaces s
unfolding drop_spaces
drop_spaces-spaces zero s = refl
drop_spaces-spaces (suc n) s = drop_spaces-spaces n s

drop_spaces-tight : (s : Bytes) → StartsTight s → drop_spaces s ≡ s
unfolding drop_spaces
drop_spaces-tight [] h = refl
drop_spaces-tight (c ∷ cs) h = let e : nat_beq c 32 ≡ false = ground arith in rw e refl

all_spaces-tight :
    (n : ℕ) (s t : Bytes) → StartsTight s → s ≢ [] → all_spaces (spaces n ++ (s ++ t)) ≡ false
unfolding all_spaces
all_spaces-tight zero [] t h ne = absurd (ne refl)
all_spaces-tight zero (c ∷ cs) t h ne = let e : nat_beq c 32 ≡ false = ground arith in rw e refl
all_spaces-tight (suc n) s t h ne = all_spaces-tight n s t h ne

StartsTight-append : (s t : Bytes) → StartsTight s → s ≢ [] → StartsTight (s ++ t)
StartsTight-append [] t h ne = absurd (ne refl)
StartsTight-append (c ∷ cs) t h ne = h

spaces-snoc : (n : ℕ) → spaces n ++ 32 ∷ [] ≡ 32 ∷ spaces n
spaces-snoc zero = refl
spaces-snoc (suc n) = ap (◌∷◌ 32) (spaces-snoc n)

reverse-spaces : (n : ℕ) → reverse (spaces n) ≡ spaces n
reverse-spaces zero = refl
reverse-spaces (suc n) =
    reverse-append (32 ∷ []) (spaces n) ∙ ap (λ s. s ++ 32 ∷ []) (reverse-spaces n) ∙ spaces-snoc n

-- Trim takes the spaces off both ends of a text that has something between them.
pub trim-padded : (a b : ℕ) (s : Bytes) → IsTight s → trim (spaces a ++ (s ++ spaces b)) ≡ s
unfolding trim
trim-padded a b s (front, back, ne) =
    let left =
      drop_spaces-spaces a (s ++ spaces b)
      ∙ drop_spaces-tight (s ++ spaces b) (StartsTight-append s (spaces b) front ne) in
    let turned : reverse (s ++ spaces b) ≡ spaces b ++ reverse s =
      reverse-append s (spaces b) ∙ ap (λ t. t ++ reverse s) (reverse-spaces b) in
    let right = drop_spaces-spaces b (reverse s) ∙ drop_spaces-tight (reverse s) back in
    rw (all_spaces-tight a s (spaces b) front ne)
      (ap reverse (ap drop_spaces (ap reverse left ∙ turned) ∙ right) ∙ reverse-reverse s)

pub Avoids-append : (c : ℕ) (s t : Bytes) → Avoids c s → Avoids c t → Avoids c (s ++ t)
Avoids-append c [] t a a' = a'
Avoids-append c (b ∷ s) t a a' = (a.0, Avoids-append c s t a.1 a')

pub Avoids-spaces : (c n : ℕ) → c ≢ 32 → Avoids c (spaces n)
Avoids-spaces c zero ne = tt
Avoids-spaces c (suc n) ne = ((λ e. ne (sym e)), Avoids-spaces c n ne)

c_string-Avoids : (s : Bytes) → Avoids 0 s → c_string s ≡ s
unfolding c_string
c_string-Avoids [] a = refl
c_string-Avoids (c ∷ cs) a =
    let e : nat_beq c 0 ≡ false = let ne = a.0 in ground arith in
    rw e (ap (◌∷◌ c) (c_string-Avoids cs a.1))

-- What a line says, `p` in front of the first '=' and `v` between it and the line end.
entry_line : Bytes → Bytes → Bytes
entry_line p v = p ++ 61 ∷ (v ++ 10 ∷ [])

value_of-entry_line : (p v : Bytes) → Avoids 10 v → value_of (length p) (entry_line p v) ≡ v
unfolding value_of find_from find_char entry_line
value_of-entry_line p v a =
    let behind : drop (length p + 1) (p ++ 61 ∷ (v ++ 10 ∷ [])) ≡ v ++ 10 ∷ [] =
      sym (drop-drop 1 (length p) (length p + 1) (p ++ 61 ∷ (v ++ 10 ∷ [])) refl)
      ∙ ap (drop 1) (drop-append p (61 ∷ (v ++ 10 ∷ [])) (length p) refl) in
    let value = take-append v (10 ∷ []) (length p + suc (length v) - length p - 1) (omega arith) in
    rw
      (
        value_of,
        find_from,
        drop-append p (61 ∷ (v ++ 10 ∷ [])) (length p) refl,
        find_char-append 10 v [] a,
        behind,
        value,
      )
      refl

-- The first byte is not '#', and there is one.
abbrev pub IsEntry : Bytes → Type 0
IsEntry [] = ⊥
IsEntry (c ∷ cs) = c ≢ b'#'

IsEntry-append : (s t : Bytes) → IsEntry s → IsEntry (s ++ t)
IsEntry-append [] t entry = absurd entry
IsEntry-append (c ∷ cs) t entry = entry

pub Avoids-padded :
    (x c d : ℕ) (s : Bytes) → Avoids x s → x ≢ 32 → Avoids x (spaces c ++ (s ++ spaces d))
Avoids-padded x c d s a ne =
    Avoids-append x (spaces c) (s ++ spaces d) (Avoids-spaces x c ne)
      (Avoids-append x s (spaces d) a (Avoids-spaces x d ne))

parse_entry-entry_line :
    (p v : Bytes)
    → IsEntry p
    → Avoids 61 p
    → Avoids 10 v
    → parse_entry (entry_line p v) ≡ some (trim p, trim v)
unfolding parse_entry entry_line
parse_entry-entry_line [] v entry no_eq no_lf = absurd entry
parse_entry-entry_line (k ∷ p) v entry no_eq no_lf =
    let no_hash : nat_beq k b'#' ≡ false = ground arith in
    rw (no_hash, find_char-append 61 (k ∷ p) (v ++ 10 ∷ []) no_eq)
      (ap₂ (λ x y. some (trim x, trim y))
        (take-append (k ∷ p) (61 ∷ (v ++ 10 ∷ [])) (length (k ∷ p)) refl)
        (value_of-entry_line (k ∷ p) v no_lf))

reverse-entry_line : (p v : Bytes) → reverse (entry_line p v) ≡ 10 ∷ reverse (p ++ 61 ∷ v)
unfolding entry_line
reverse-entry_line p v =
    ap reverse (sym (append_assoc p (61 ∷ v) (10 ∷ []))) ∙ reverse-append (p ++ 61 ∷ v) (10 ∷ [])

IsTight-entry_line : (p v : Bytes) → StartsTight p → IsEntry p → IsTight (entry_line p v)
unfolding entry_line
IsTight-entry_line [] v tight entry = absurd entry
IsTight-entry_line (k ∷ p) v tight entry =
    (tight, subst StartsTight (sym (reverse-entry_line (k ∷ p) v)) (ground arith), (λ e. cc))

-- The same in front of a line end, as one string.
pub parse_line-entry :
    (a b c d : ℕ) (key value : Bytes)
    → IsTight key
    → IsTight value
    → IsEntry key
    → Avoids 61 key
    → Avoids 10 value
    → Avoids 0 key
    → Avoids 0 value
    → parse_line
        (spaces a ++ ((key ++ spaces b) ++ 61 ∷ ((spaces c ++ (value ++ spaces d)) ++ 10 ∷ [])))
      ≡ some (key, value)
unfolding parse_line entry_line
parse_line-entry a b c d key value tight tight' entry no_eq no_lf no_nul no_nul' =
    let p = key ++ spaces b in
    let v = spaces c ++ (value ++ spaces d) in
    let entry' : IsEntry p = IsEntry-append key (spaces b) entry in
    let front = StartsTight-append key (spaces b) tight.0 tight.2 in
    let no_eq' = Avoids-append 61 key (spaces b) no_eq (Avoids-spaces 61 b (ground arith)) in
    let no_lf' = Avoids-padded 10 c d value no_lf (ground arith) in
    let nul_free : Avoids 0 (spaces a ++ entry_line p v) =
      Avoids-append 0 (spaces a) (entry_line p v) (Avoids-spaces 0 a (ground arith)) (
        Avoids-append 0 p (61 ∷ (v ++ 10 ∷ []))
          (Avoids-append 0 key (spaces b) no_nul (Avoids-spaces 0 b (ground arith)))
          (
            (ground arith),
            Avoids-append 0 v (10 ∷ []) (Avoids-padded 0 c d value no_nul' (ground arith))
                ((ground arith), tt),
          )) in
    let trimmed : trim (spaces a ++ entry_line p v) ≡ entry_line p v =
      ap (λ s. trim (spaces a ++ s)) (sym (append-nil (entry_line p v)))
      ∙ trim-padded a 0 (entry_line p v) (IsTight-entry_line p v front entry') in
    ap parse_entry (ap trim (c_string-Avoids (spaces a ++ entry_line p v) nul_free) ∙ trimmed)
    ∙ parse_entry-entry_line p v entry' no_eq' no_lf'
    ∙ ap₂ (λ x y. some (x, y)) (trim-padded 0 b key tight) (trim-padded c d value tight')
