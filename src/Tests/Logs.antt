-- ===== src/Tests/Logs.antt =====
-- Runs of src/log.cpp.

use mprpc_advanced_z.Base.{◌≡◌, refl, true, false, [], some, none, arith}
use mprpc_advanced_z.Base.Bytes.{Bytes, codes}
use mprpc_advanced_z.Base.Decimal.{to_string}
use mprpc_advanced_z.Log.{Tm, Log, prefix, write_log}
use mprpc_advanced_z.Log.Lines.{IsOpen, write_log-overflows}

abbrev noon : Tm
noon = record {
  tm_year = 126;
  tm_mon = 0;
  tm_mday = 2;
  tm_hour = 12;
  tm_min = 0;
  tm_sec = 5;
  tv_usec = 42;
}

abbrev small : Log
small = record {
  dir_name = codes "./";
  log_name = codes "L";
  m_split_lines = 2;
  m_log_buf_size = 60;
  m_count = 1;
  m_today = 2;
  m_fp = some (codes "f");
  m_log_queue = record { m_queue = []; m_max_size = 4; m_is_close = false };
  m_is_async = true;
  m_close_log = 0;
  written = [];
}

small-IsOpen : IsOpen small
small-IsOpen = record { file = codes "f"; opened = refl; splits = omega arith }

abbrev hello : Bytes
hello = codes "hello"

abbrev long : Bytes
long = codes "a text that is too long for such a buffer"

write_log-overflows_example : write_log (λ _. true) noon 1 long small ≡ none
unfolding prefix to_string
write_log-overflows_example =
    write_log-overflows (λ _. true) noon 1 long small (λ _. refl) small-IsOpen (omega arith)
