-- ===== src/Config/Reads.antt =====
-- src/mprpcconfig.cc: one round of the loop of LoadConfigFile, from the bytes of the file to the entry.
use mprpc_advanced_z.Base.{
  ℕ, zero, suc, ◌<◌, ◌≡◌, refl, ap, ◌∙◌, [], ◌∷◌, ◌++◌, some, Bool, false, nat_beq, length, arith,
  append_assoc,
}
use mprpc_advanced_z.Base.Bytes.{Bytes, Avoids}
use mprpc_advanced_z.Config.{Line, fgets, parse_line}
use mprpc_advanced_z.Config.Lines.{
  IsTight, IsEntry, spaces, Avoids-append, Avoids-spaces, Avoids-padded, parse_line-entry,
}

-- `key = value` with so many spaces in front, around the '=', and behind.
abbrev pub entry_text : ℕ → ℕ → ℕ → ℕ → Bytes → Bytes → Bytes
entry_text a b c d key value =
    spaces a ++ ((key ++ spaces b) ++ 61 ∷ (spaces c ++ (value ++ spaces d)))

-- fgets reads a line that fits, with its end.
fgets-line :
    (error : Bool) (n : ℕ) (text rest : Bytes)
    → Avoids 10 text
    → length text < n
    → fgets error n (text ++ 10 ∷ rest)
      ≡ record { buf = text ++ 10 ∷ []; rest = rest; feof = false }
unfolding fgets
fgets-line error zero text rest no_lf fits = absurd (omega arith)
fgets-line error (suc n) [] rest no_lf fits = refl
fgets-line error (suc n) (c ∷ cs) rest (other, no_lf) fits =
    let goes_on : nat_beq c 10 ≡ false = ground (arith, other) in
    rw goes_on (
      ap (λ (l : Line). record l { buf = c ∷ l.buf })
        (fgets-line error n cs rest no_lf (omega arith)))

with_end :
    (a b c d : ℕ) (key value : Bytes)
    → entry_text a b c d key value ++ 10 ∷ []
      ≡ spaces a ++ ((key ++ spaces b) ++ 61 ∷ ((spaces c ++ (value ++ spaces d)) ++ 10 ∷ []))
with_end a b c d key value =
    let v = spaces c ++ (value ++ spaces d) in
    append_assoc (spaces a) ((key ++ spaces b) ++ 61 ∷ v) (10 ∷ [])
    ∙ ap (λ t. spaces a ++ t) (append_assoc (key ++ spaces b) (61 ∷ v) (10 ∷ []))

-- A line of a key and a value, `key = value` with spaces around each, that has at most 511 bytes with
-- its line end, the size of the buffer without its NUL, is read as one line and gives that key and
-- that value, and the next read begins behind it. Neither the key nor the value begins or ends with a
-- space, is empty, or holds a NUL or a line end; the key holds no '=' and does not begin with '#'.
pub parse_line-reads :
    (error : Bool) (a b c d : ℕ) (key value rest : Bytes)
    → length (entry_text a b c d key value) < 511
    → IsTight key
    → IsTight value
    → IsEntry key
    → Avoids 61 key
    → Avoids 10 key
    → Avoids 10 value
    → Avoids 0 key
    → Avoids 0 value
    → let line = fgets error 511 (entry_text a b c d key value ++ 10 ∷ rest) in
      (parse_line line.buf ≡ some (key, value)) × (line.rest ≡ rest) × (line.feof ≡ false)
parse_line-reads error a b c d key value rest fits tight tight' entry no_eq key_lf no_lf no_nul
      no_nul' =
    let text = entry_text a b c d key value in
    let ends : Avoids 10 text =
      Avoids-append 10 (spaces a) ((key ++ spaces b) ++ 61 ∷ (spaces c ++ (value ++ spaces d)))
        (Avoids-spaces 10 a (ground arith))
        (Avoids-append 10 (key ++ spaces b) (61 ∷ (spaces c ++ (value ++ spaces d)))
          (Avoids-append 10 key (spaces b) key_lf (Avoids-spaces 10 b (ground arith)))
          (ground arith, Avoids-padded 10 c d value no_lf (ground arith))) in
    let read = fgets-line error 511 text rest ends fits in
    (
      ap (λ (l : Line). parse_line l.buf) read
          ∙ (ap parse_line (with_end a b c d key value)
              ∙ parse_line-entry a b c d key value tight tight' entry no_eq no_lf no_nul no_nul'),
      ap (λ (l : Line). l.rest) read,
      ap (λ (l : Line). l.feof) read,
    )
