-- ===== src/Log.antt =====
-- src/include/log.h and src/log.cpp: the log files. The broken-down time, the text that the format
-- gives, and whether fopen succeeds are parameters; a function returns `none` where the code would
-- write outside its buffer, go through a null FILE pointer or divide by zero.
pub mod Lines
pub mod Threads
pub mod Bags
pub mod Conservation
pub mod Losses
use mprpc_advanced_z.Base.{
  ℕ, ◌+◌, ◌/◌, ◌%◌, List, [], ◌∷◌, ◌++◌, Option, none, some, Bool, true, false, ◌&&◌, ◌||◌, not,
  ltb, nat_beq, if◌then◌else◌, length, take,
}
use mathlib.Core.List.{reverse}
use mprpc_advanced_z.Base.Bytes.{Bytes, codes}
use mprpc_advanced_z.Base.Decimal.{to_string}
use mprpc_advanced_z.BlockQueue.{BlockQueue, Popped, item, refused, sleeps, full, push, pop}
use mprpc_advanced_z.BlockQueue
use mprpc_advanced_z.TimeHeap.{◌>>=◌}

-- struct tm, with the microseconds of gettimeofday.
pub record Tm : Type 0 where
  pub tm_year : ℕ
  pub tm_mon : ℕ
  pub tm_mday : ℕ
  pub tm_hour : ℕ
  pub tm_min : ℕ
  pub tm_sec : ℕ
  pub tv_usec : ℕ

-- class Log; m_fp is the name of the open file, `written` the lines put into files, in order.
pub record Log : Type 0 where
  pub dir_name : Bytes
  pub log_name : Bytes
  pub m_split_lines : ℕ
  pub m_log_buf_size : ℕ
  pub m_count : ℕ
  pub m_today : ℕ
  pub m_fp : Option Bytes
  pub m_log_queue : BlockQueue Bytes
  pub m_is_async : Bool
  pub m_close_log : ℕ
  pub written : List (Bytes × Bytes)

-- `%02d`
unfoldable pub two_digits : ℕ → Bytes
two_digits n = if ltb n 10 then codes "0" ++ to_string n else to_string n

-- `%d_%02d_%02d_` of a date.
unfoldable pub date_tail : Tm → Bytes
unfolding two_digits
date_tail tm =
    to_string (tm.tm_year + 1900)
    ++ codes "_"
    ++ two_digits (tm.tm_mon + 1)
    ++ codes "_"
    ++ two_digits tm.tm_mday
    ++ codes "_"

-- What stands behind the last '/' of the reversed name, and from there to the front.
unfoldable pub split_reversed : Bytes → Bytes → Option (Bytes × Bytes)
split_reversed [] name = none
split_reversed (c ∷ cs) name =
    let rest = split_reversed cs (c ∷ name) in
    if nat_beq c b'/' then some (reverse (c ∷ cs), name) else rest

-- strrchr: the directory with its '/', and the name.
unfoldable pub split_path : Bytes → Option (Bytes × Bytes)
unfolding split_reversed
split_path file_name = split_reversed (reverse file_name) []

-- init, of a log whose members are 0: whether it succeeds, and the log.
unfoldable pub init : (Bytes → Bool) → Tm → Bytes → ℕ → ℕ → ℕ → ℕ → Bool × Log
unfolding date_tail split_path
init fopen tm file_name close_log log_buf_size split_lines max_queue_size =
    let (dir, name) : Bytes × Bytes = elim (split_path file_name) [
      | none ↦ ([], [])
      | some parts ↦ parts
    ] in
    let full_name : Bytes = elim (split_path file_name) [
      | none ↦ take 254 (date_tail tm ++ file_name)
      | some parts ↦ take 254 (parts.0 ++ date_tail tm ++ parts.1)
    ] in
    let opened = fopen full_name in
    (
      opened,
      record {
        dir_name = dir;
        log_name = name;
        m_split_lines = split_lines;
        m_log_buf_size = log_buf_size;
        m_count = 0;
        m_today = tm.tm_mday;
        m_fp = if opened then some full_name else none;
        m_log_queue = record { m_queue = []; m_max_size = max_queue_size; m_is_close = false };
        m_is_async = ltb 0 max_queue_size;
        m_close_log = close_log;
        written = [];
      },
    )

-- The name of the level.
unfoldable pub level_text : ℕ → Bytes
level_text level =
    if nat_beq level 0
    then codes "[debug]:"
    else if nat_beq level 2
    then codes "[warn]:"
    else if nat_beq level 3
    then codes "[error]:"
    else codes "[info]:"

-- The file of a new day, or the next file of the same day.
unfoldable pub new_log : Tm → ℕ → Log → Bytes
unfolding date_tail
new_log tm count l =
    let path = l.dir_name ++ take 15 (date_tail tm) ++ l.log_name in
    if nat_beq l.m_today tm.tm_mday
    then take 254 (path ++ codes "." ++ to_string (count / l.m_split_lines))
    else take 254 path

-- The first stretch under the mutex: the count, and another file if the day or the count says so, for
-- which the old one is closed; `none` is a division by 0, or fclose of NULL.
unfoldable pub rotate : (Bytes → Bool) → Tm → Log → Option Log
unfolding new_log
rotate fopen tm l =
    let count = l.m_count + 1 in
    let same_day = nat_beq l.m_today tm.tm_mday in
    let file = new_log tm count l in
    let turned : Option Log = elim l.m_fp [
      | none ↦ none
      | some _ ↦ some (record l {
        m_today = tm.tm_mday;
        m_count = if same_day then count else 0;
        m_fp = if fopen file then some file else none;
      })
    ] in
    if same_day && nat_beq l.m_split_lines 0
    then none
    else if not same_day || nat_beq (count % l.m_split_lines) 0
    then turned
    else some (record l { m_count = count })

-- The digits of `%06ld`.
unfoldable pub six_digits : ℕ → Bytes
six_digits n =
    if ltb n 10
    then codes "00000" ++ to_string n
    else if ltb n 100
    then codes "0000" ++ to_string n
    else if ltb n 1000
    then codes "000" ++ to_string n
    else if ltb n 10000
    then codes "00" ++ to_string n
    else if ltb n 100000
    then codes "0" ++ to_string n
    else to_string n

-- What snprintf writes in front of the text, before its limit of 48 bytes.
unfoldable pub prefix : Tm → ℕ → Bytes
unfolding two_digits six_digits level_text
prefix tm level =
    to_string (tm.tm_year + 1900)
    ++ codes "-"
    ++ two_digits (tm.tm_mon + 1)
    ++ codes "-"
    ++ two_digits tm.tm_mday
    ++ codes " "
    ++ two_digits tm.tm_hour
    ++ codes ":"
    ++ two_digits tm.tm_min
    ++ codes ":"
    ++ two_digits tm.tm_sec
    ++ codes "."
    ++ six_digits tm.tv_usec
    ++ codes " "
    ++ level_text level
    ++ codes " "

-- The second stretch: the line in m_buf, whose last two bytes are written at the length of the prefix
-- and the text, whatever the size of the buffer; a prefix that is cut ends the string.
unfoldable pub format_line : Tm → ℕ → Bytes → Log → Option Bytes
unfolding prefix
format_line tm level text l =
    let head = prefix tm level in
    let log_str = if ltb (length head) 48 then head ++ text ++ 10 ∷ [] else take 47 head in
    if ltb (length head + length text + 1) l.m_log_buf_size then some log_str else none

-- fputs to m_fp.
unfoldable pub put_line : Bytes → Log → Option Log
put_line line l = elim l.m_fp [
  | none ↦ none
  | some file ↦ some (record l { written = l.written ++ (file, line) ∷ [] })
]

-- The end of write_log: the queue, or the file if there is no queue or it is full.
unfoldable pub emit : Bytes → Log → Option Log
unfolding put_line full push
emit line l =
    if l.m_is_async && not (full l.m_log_queue)
    then some (record l { m_log_queue = (push line l.m_log_queue).1 })
    else put_line line l

-- write_log behind the first test, between whose looks at the queue no other thread is.
unfoldable pub log_line : (Bytes → Bool) → Tm → ℕ → Bytes → Log → Option Log
unfolding rotate format_line emit
log_line fopen tm level text l =
    rotate fopen tm l >>= λ l'. format_line tm level text l' >>= λ line. emit line l'

unfoldable pub write_log : (Bytes → Bool) → Tm → ℕ → Bytes → Log → Option Log
unfolding log_line
write_log fopen tm level text l = elim l.m_fp [
  | none ↦ some l
  | some _ ↦ log_line fopen tm level text l
]

-- One round of async_write_log.
unfoldable pub async_write : Log → Option Log
unfolding pop put_line
async_write l =
    let (popped, q) = pop l.m_log_queue in
    elim popped [
      | item line ↦ put_line line (record l { m_log_queue = q })
      | refused ↦ some (record l { m_log_queue = q })
      | sleeps ↦ some (record l { m_log_queue = q })
    ]
