-- ===== src/Config/Loading.antt =====
-- src/mprpcconfig.cc: the loop of LoadConfigFile reads a file to its end, and does not end when a read
-- fails.
use mprpc_advanced_z.Base.{
  ℕ, zero, suc, ◌+◌, ◌≤◌, ◌<◌, ◌≡◌, refl, ap, ◌∙◌, [], ◌∷◌, Option, none, some, Bool, true, false,
  nat_beq, if◌then◌else◌, length, arith, Bool-cases, inl, inr,
}
use mprpc_advanced_z.Base.Bytes.{Bytes, bytes_eq}
use mprpc_advanced_z.Base.Maps.{Map, insert_new}
use mathlib.Core.Bool
use mprpc_advanced_z.Config.{
  File, fgets, parse_line, load_loop, Loaded, stuck, loaded, load_config_file,
}

-- A read that does not meet the end of the file takes a byte, and no read puts one back.
fgets-rest-le :
    (error : Bool) (n : ℕ) (file : Bytes) → length (fgets error n file).rest ≤ length file
unfolding fgets
fgets-rest-le error zero file = omega arith
fgets-rest-le error (suc n) [] = omega arith
fgets-rest-le error (suc n) (c ∷ cs) =
    let rest = fgets-rest-le error n cs in
    elim (Bool-cases (nat_beq c 10)) [ inl e ↦ rw e (omega arith) | inr e ↦ rw e (omega arith) ]

fgets-takes :
    (n : ℕ) (file : Bytes)
    → (fgets false (suc n) file).feof ≡ false
    → length (fgets false (suc n) file).rest < length file
unfolding fgets
fgets-takes n [] more = absurd (Bool.true≢false more)
fgets-takes n (c ∷ cs) more =
    let rest = fgets-rest-le false n cs in
    elim (Bool-cases (nat_beq c 10)) [ inl e ↦ rw e (omega arith) | inr e ↦ rw e (omega arith) ]

load_loop-ends :
    (fuel : ℕ) (file : Bytes) (m : Map Bytes Bytes)
    → length file < fuel
    → (m' : Map Bytes Bytes) × load_loop false fuel file m ≡ some m'
unfolding load_loop
load_loop-ends zero file m bound = absurd (omega arith)
load_loop-ends (suc fuel) file m bound =
    let line = fgets false 511 file in
    let m' : Map Bytes Bytes = elim (parse_line line.buf) [
      | none ↦ m
      | some (key, value) ↦ insert_new ⦃e = bytes_eq⦄ key value m
    ] in
    elim (Bool-cases line.feof) [
      | inl e ↦ (m', ap (λ b. if b then some m' else load_loop false fuel line.rest m') e)
      | inr e ↦
          let taken = fgets-takes 510 file e in
          let (m'', more) = load_loop-ends fuel line.rest m' (omega arith) in
          (m'', ap (λ b. if b then some m' else load_loop false fuel line.rest m') e ∙ more)
    ]

fgets-error : (n : ℕ) (file : Bytes) → (fgets true n file).feof ≡ false
unfolding fgets
fgets-error zero file = refl
fgets-error (suc n) [] = refl
fgets-error (suc n) (c ∷ cs) =
    let rest = fgets-error n cs in
    elim (Bool-cases (nat_beq c 10)) [ inl e ↦ rw e refl | inr e ↦ rw e rest ]

-- No number of rounds ends the loop.
pub load_loop-hangs :
    (fuel : ℕ) (file : Bytes) (m : Map Bytes Bytes) → load_loop true fuel file m ≡ none
unfolding load_loop
load_loop-hangs zero file m = refl
load_loop-hangs (suc fuel) file m =
    let line = fgets true 511 file in
    let m' : Map Bytes Bytes = elim (parse_line line.buf) [
      | none ↦ m
      | some (key, value) ↦ insert_new ⦃e = bytes_eq⦄ key value m
    ] in
    ap (λ b. if b then some m' else load_loop true fuel line.rest m') (fgets-error 511 file)
    ∙ load_loop-hangs fuel line.rest m'

loaded_of : Option (Map Bytes Bytes) → Loaded
loaded_of none = stuck
loaded_of (some m) = loaded m

-- LoadConfigFile of a file that opens and can be read ends with a map, whatever the file and the map
-- before hold: every round of its loop takes a byte of the file or meets the end.
pub load_config_file-loads :
    (file : File) (m : Map Bytes Bytes)
    → file.error ≡ false
    → (m' : Map Bytes Bytes) × load_config_file (some file) m ≡ loaded m'
unfolding load_config_file loaded_of
load_config_file-loads file m good =
    let ends = load_loop-ends (length file.bytes + 1) file.bytes m (omega arith) in
    (
      ends.0,
      ap (λ b. loaded_of (load_loop b (length file.bytes + 1) file.bytes m)) good
          ∙ ap loaded_of ends.1,
    )

pub load_config_file-hangs :
    (file : File) (m : Map Bytes Bytes) → file.error ≡ true → load_config_file (some file) m ≡ stuck
unfolding load_config_file loaded_of
load_config_file-hangs file m bad =
    ap (λ b. loaded_of (load_loop b (length file.bytes + 1) file.bytes m)) bad
    ∙ ap loaded_of (load_loop-hangs (length file.bytes + 1) file.bytes m)
