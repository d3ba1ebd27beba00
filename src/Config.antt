-- ===== src/Config.antt =====
-- src/mprpcconfig.cc: the configuration file. A file is the bytes that fgets reads from it and whether the
-- read behind them meets the end of the file or fails; a string made of a buffer ends at the first NUL.
pub mod Lines
pub mod Loading
pub mod Reads
use mprpc_advanced_z.Base.{
  ℕ, zero, suc, ◌+◌, ◌-◌, List, [], ◌∷◌, ◌++◌, Option, none, some, Bool, true, false, not, ◌==◌,
  nat_beq, nat_eq, if◌then◌else◌, length, take, drop,
}
use mathlib.Core.Option
use mathlib.Core.List.{reverse}
use mprpc_advanced_z.Base.Bytes.{Bytes, find_char, bytes_eq}
use mprpc_advanced_z.Base.Maps.{Map, find, insert_new}

-- `find_first_not_of(' ')` and what stands from there on.
unfoldable pub drop_spaces : Bytes → Bytes
drop_spaces [] = []
drop_spaces (c ∷ cs) = if nat_beq c 32 then drop_spaces cs else c ∷ cs

unfoldable pub all_spaces : Bytes → Bool
all_spaces [] = true
all_spaces (c ∷ cs) = if nat_beq c 32 then all_spaces cs else false

-- Trim: a string of nothing but spaces has no first and no last other character, and stays.
unfoldable pub trim : Bytes → Bytes
unfolding drop_spaces all_spaces
trim s = if all_spaces s then s else reverse (drop_spaces (reverse (drop_spaces s)))

-- The string of a char array.
unfoldable pub c_string : Bytes → Bytes
c_string [] = []
c_string (c ∷ cs) = if nat_beq c 0 then [] else c ∷ c_string cs

-- A file that is open for reading. With `error` the read behind its bytes fails, as every read of a
-- directory does, and does so again whenever it is tried.
pub record File : Type 0 where
  pub bytes : Bytes
  pub error : Bool

-- fgets(buf, n + 1, pf): at most `n` bytes, up to and with a line end; the rest of the file, and
-- whether the read has come to the end of the file, which is what feof tells afterwards. A read that
-- fails does not come to the end of the file, and leaves what it has read before.
pub record Line : Type 0 where
  pub buf : Bytes
  pub rest : Bytes
  pub feof : Bool

unfoldable pub fgets : Bool → ℕ → Bytes → Line
fgets error zero file = record { buf = []; rest = file; feof = false }
fgets error (suc n) [] = record { buf = []; rest = []; feof = not error }
fgets error (suc n) (c ∷ cs) =
    let line = fgets error n cs in
    if nat_beq c 10
    then record { buf = c ∷ []; rest = cs; feof = false }
    else record line { buf = c ∷ line.buf }

-- `src_buf.find('\n', idx)`, -1 as `none`.
unfoldable pub find_from : ℕ → ℕ → Bytes → Option ℕ
unfolding find_char
find_from c idx s = Option.map (λ (k : ℕ). idx + k) (find_char c (drop idx s))

-- What behind the '=' at `idx` is the value.
unfoldable pub value_of : ℕ → Bytes → Bytes
unfolding find_from
value_of idx src_buf =
    let behind = drop (idx + 1) src_buf in
    elim (find_from 10 idx src_buf) [ none ↦ behind | some endidx ↦ take (endidx - idx - 1) behind ]

-- The key and the value of a trimmed line, `none` where the loop continues.
unfoldable pub parse_entry : Bytes → Option (Bytes × Bytes)
unfolding trim find_char value_of
parse_entry [] = none
parse_entry (c ∷ cs) =
    let src_buf = c ∷ cs in
    if nat_beq c b'#'
    then none
    else Option.map (λ (idx : ℕ). (trim (take idx src_buf), trim (value_of idx src_buf)))
        (find_char b'=' src_buf)

-- What the loop makes of the bytes in `buf`, of which fgets has written 511 at most.
unfoldable pub parse_line : Bytes → Option (Bytes × Bytes)
unfolding c_string parse_entry
parse_line buf = parse_entry (trim (c_string buf))

-- The loop of LoadConfigFile, `while (!feof(pf))`; the fuel bounds the number of lines. Where
-- it runs out for any fuel the loop does not end.
unfoldable pub load_loop : Bool → ℕ → Bytes → Map Bytes Bytes → Option (Map Bytes Bytes)
load_loop error zero file m = none
load_loop error (suc fuel) file m =
    let line = fgets error 511 file in
    let m' : Map Bytes Bytes = elim (parse_line line.buf) [
      | none ↦ m
      | some (key, value) ↦ insert_new key value m
    ] in
    let more = load_loop error fuel line.rest m' in if line.feof then some m' else more

-- How LoadConfigFile ends: by exit, or with the map; `stuck` is a loop that does not end.
pub data Loaded : Type 0 where
  exited : Loaded
  stuck : Loaded
  loaded : Map Bytes Bytes → Loaded

-- LoadConfigFile, of a file that fopen finds or not.
unfoldable pub load_config_file : Option File → Map Bytes Bytes → Loaded
unfolding load_loop
load_config_file none m_config_map = exited
load_config_file (some file) m_config_map =
    elim (load_loop file.error (length file.bytes + 1) file.bytes m_config_map) [
      | none ↦ stuck
      | some m ↦ loaded m
    ]

-- Load(key)
unfoldable pub load : Bytes → Map Bytes Bytes → Bytes
unfolding find
load key m_config_map = elim (find key m_config_map) [ none ↦ [] | some value ↦ value ]
