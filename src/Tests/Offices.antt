-- ===== src/Tests/Offices.antt =====
-- Runs of the threads of src/log.cpp.
use mprpc_advanced_z.Base.{◌≡◌, refl, true, false, [], ◌∷◌, some, arith}
use mprpc_advanced_z.Base.Bytes.{Bytes, codes}
use mprpc_advanced_z.Base.Decimal.{to_string}
use mprpc_advanced_z.Log.{Tm, Log, prefix, rotate, format_line}
use mprpc_advanced_z.Log.Threads.{
  Office, enters, turns, formats, starts, rotated, holds, Reach, here, next, opened,
}
use mprpc_advanced_z.Log.Bags.{bag, everywhere}
use mprpc_advanced_z.Log.Conservation.{Reach-opened-bag}
use mprpc_advanced_z.Log.Losses.{Reach-opened-keeps, Reach-opened-loses}

abbrev morning : Tm
morning = record {
  tm_year = 126;
  tm_mon = 0;
  tm_mday = 2;
  tm_hour = 9;
  tm_min = 30;
  tm_sec = 5;
  tv_usec = 7;
}

abbrev narrow : Log
narrow = record {
  dir_name = codes "./";
  log_name = codes "L";
  m_split_lines = 100;
  m_log_buf_size = 60;
  m_count = 1;
  m_today = 2;
  m_fp = some (codes "f");
  m_log_queue = record { m_queue = []; m_max_size = 1; m_is_close = false };
  m_is_async = true;
  m_close_log = 0;
  written = [];
}

abbrev hi : Bytes
hi = codes "hi"

abbrev hi_line : Bytes
hi_line = codes "2026-01-02 09:30:05.000007 [info]: hi\n"

abbrev counted_once : Log
counted_once = record narrow { m_count = 2 }

abbrev counted_twice : Log
counted_twice = record narrow { m_count = 3 }

rotate-narrow : rotate (λ _. true) morning narrow ≡ some counted_once
unfolding rotate
rotate-narrow = refl

rotate-counted_once : rotate (λ _. true) morning counted_once ≡ some counted_twice
unfolding rotate
rotate-counted_once = refl

format_line-counted_once : format_line morning 1 hi counted_once ≡ some hi_line
unfolding format_line prefix to_string
format_line-counted_once = refl

format_line-counted_twice : format_line morning 1 hi counted_twice ≡ some hi_line
unfolding format_line prefix to_string
format_line-counted_twice = refl

abbrev entered : Office
entered = record (opened narrow) { calls = starts morning 1 hi ∷ [] }

abbrev turned : Office
turned = record entered { log = counted_once; calls = rotated morning 1 hi ∷ [] }

abbrev formatted : Office
formatted = record turned { calls = holds hi_line ∷ []; logged = hi_line ∷ [] }

abbrev entered-Reach : Reach 1 (opened narrow) entered
entered-Reach = next here (enters morning 1 hi (codes "f") (omega arith) refl refl)

abbrev turned-Reach : Reach 1 (opened narrow) turned
turned-Reach =
    next entered-Reach (turns (λ _. true) morning 1 hi [] [] counted_once refl rotate-narrow refl)

abbrev formatted-Reach : Reach 1 (opened narrow) formatted
formatted-Reach =
    next turned-Reach (formats morning 1 hi hi_line [] [] refl format_line-counted_once refl)

Reach-opened-bag_example : bag (everywhere formatted) ≡ bag formatted.logged
Reach-opened-bag_example = Reach-opened-bag 1 narrow formatted refl refl formatted-Reach

Reach-opened-keeps_example : formatted.lost ≡ []
Reach-opened-keeps_example = Reach-opened-keeps narrow formatted formatted-Reach

Reach-opened-loses_example :
    (c : Office) × Reach 2 (opened narrow) c × (c.lost ≡ hi_line ∷ []) × (c.calls ≡ [])
Reach-opened-loses_example =
    Reach-opened-loses (λ _. true) morning 1 hi hi_line (codes "f") narrow counted_once
      counted_twice refl refl refl rotate-narrow rotate-counted_once format_line-counted_twice
