-- ===== src/Log/Threads.antt =====
-- src/log.cpp and src/include/log.h: the threads that log and the one that writes, between the
-- stretches of code that hold the mutex of the log or of its queue.
use mprpc_advanced_z.Base.{
  ℕ, ◌<◌, ◌≡◌, List, [], ◌∷◌, ◌++◌, Option, none, some, Bool, ◌&&◌, not, if◌then◌else◌, length,
}
use mprpc_advanced_z.Base.Bytes.{Bytes}
use mprpc_advanced_z.BlockQueue.{item, full, push, pop}
use mprpc_advanced_z.Log.{Tm, Log, rotate, format_line, put_line}

-- Where a call of write_log is: behind its first test, behind its first stretch, with its line behind
-- the second, and at the push or at the file, as its look at the queue has decided.
pub data Stage : Type 0 where
  starts : Tm → ℕ → Bytes → Stage
  rotated : Tm → ℕ → Bytes → Stage
  holds : Bytes → Stage
  pushes : Bytes → Stage
  puts : Bytes → Stage

-- The log, the calls of write_log, and the line that async_write_log has taken and not yet written.
-- `logged` are the lines that have been made, `lost` those that a push has refused.
pub record Office : Type 0 where
  pub log : Log
  pub calls : List Stage
  pub writer : Option Bytes
  pub logged : List Bytes
  pub lost : List Bytes

-- `m_is_async && !m_log_queue->full()`
unfoldable pub look : Log → Bytes → Stage
unfolding full
look l line = if l.m_is_async && not (full l.m_log_queue) then pushes line else puts line

-- `m_log_queue->push(log_str)`, whose result is not looked at.
unfoldable pub push_line : Bytes → Office → Office
unfolding push
push_line line c =
    let (accepted, q) = push line c.log.m_log_queue in
    record c {
      log = record c.log { m_log_queue = q };
      lost = if accepted.0 then c.lost else line ∷ c.lost;
    }

-- One turn of one thread, with at most so many calls of write_log at a time.
pub data Step (limit : ℕ) (c d : Office) : Type 0 where
  enters :
      (tm : Tm) (level : ℕ) (text file : Bytes)
      → length c.calls < limit
      → c.log.m_fp ≡ some file
      → d ≡ record c { calls = starts tm level text ∷ c.calls }
      → Step limit c d
  turns :
      (fopen : Bytes → Bool) (tm : Tm) (level : ℕ) (text : Bytes) (xs ys : List Stage) (l : Log)
      → c.calls ≡ xs ++ starts tm level text ∷ ys
      → rotate fopen tm c.log ≡ some l
      → d ≡ record c { log = l; calls = xs ++ rotated tm level text ∷ ys }
      → Step limit c d
  formats :
      (tm : Tm) (level : ℕ) (text line : Bytes) (xs ys : List Stage)
      → c.calls ≡ xs ++ rotated tm level text ∷ ys
      → format_line tm level text c.log ≡ some line
      → d ≡ record c { calls = xs ++ holds line ∷ ys; logged = line ∷ c.logged }
      → Step limit c d
  looks :
      (line : Bytes) (xs ys : List Stage)
      → c.calls ≡ xs ++ holds line ∷ ys
      → d ≡ record c { calls = xs ++ look c.log line ∷ ys }
      → Step limit c d
  queues :
      (line : Bytes) (xs ys : List Stage)
      → c.calls ≡ xs ++ pushes line ∷ ys
      → d ≡ push_line line (record c { calls = xs ++ ys })
      → Step limit c d
  files :
      (line : Bytes) (xs ys : List Stage) (l : Log)
      → c.calls ≡ xs ++ puts line ∷ ys
      → put_line line c.log ≡ some l
      → d ≡ record c { log = l; calls = xs ++ ys }
      → Step limit c d
  takes :
      (line : Bytes)
      → c.writer ≡ none
      → (pop c.log.m_log_queue).0 ≡ item line
      → d ≡ record c {
        log = record c.log { m_log_queue = (pop c.log.m_log_queue).1 };
        writer = some line;
      }
      → Step limit c d
  writes :
      (line : Bytes) (l : Log)
      → c.writer ≡ some line
      → put_line line c.log ≡ some l
      → d ≡ record c { log = l; writer = none }
      → Step limit c d

pub data Reach (limit : ℕ) (c : Office) : Office → Type 0 where
  here : Reach limit c c
  next : {d e : Office} → Reach limit c d → Step limit d e → Reach limit c e

-- A log that has been set up, before any thread uses it.
abbrev pub opened : Log → Office
opened l = record { log = l; calls = []; writer = none; logged = []; lost = [] }
