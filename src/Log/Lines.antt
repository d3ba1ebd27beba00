-- ===== src/Log/Lines.antt =====
-- src/log.cpp: what becomes of a line that is logged.
use mathlib.Core.List.{Perm, perm_middle, map-append}
use mprpc_advanced_z.Base.{
  ℕ, ◌+◌, ◌%◌, ◌≤◌, ◌<◌, ◌≡◌, refl, sym, ap, ◌∙◌, List, [], ◌∷◌, ◌++◌, Option, none, some, Bool,
  true, false, ◌&&◌, not, ltb, nat_beq, length, map, arith, lt→ltb, ltb-ge, Bool-cases, inl, inr,
  append_assoc, append-nil,
}
use mprpc_advanced_z.Base.Bytes.{Bytes}
use mprpc_advanced_z.BlockQueue.{full, push}
use mprpc_advanced_z.Log.{
  Tm, Log, new_log, rotate, prefix, format_line, put_line, emit, log_line, write_log,
}
use mprpc_advanced_z.TimeHeap.{◌>>=◌}

-- The lines in the files, and those that wait.
unfoldable pub lines : Log → List Bytes
lines l = map (λ (w : Bytes × Bytes). w.1) l.written ++ l.m_log_queue.m_queue

-- The line of a text.
abbrev pub line_of : Tm → ℕ → Bytes → Bytes
line_of tm level text = prefix tm level ++ text ++ 10 ∷ []

-- A file is open, the day is split into files of some lines.
pub record IsOpen (l : Log) : Type 0 where
  pub file : Bytes
  pub opened : l.m_fp ≡ some file
  pub splits : 0 < l.m_split_lines

-- What the rotation leaves alone.
record Rotated (l l' : Log) : Type 0 where
  still : IsOpen l'
  same_lines : lines l' ≡ lines l
  same_size : l'.m_log_buf_size ≡ l.m_log_buf_size

rotate-Rotated :
    (fopen : Bytes → Bool) (tm : Tm) (l : Log)
    → ((name : Bytes) → fopen name ≡ true)
    → IsOpen l
    → (l' : Log) × (rotate fopen tm l ≡ some l') × Rotated l l'
unfolding rotate lines
rotate-Rotated fopen tm l opens o =
    let file = new_log tm (l.m_count + 1) l in
    let splits : nat_beq l.m_split_lines 0 ≡ false = let p = o.splits in ground arith in
    elim (Bool-cases (nat_beq l.m_today tm.tm_mday)) [
      | inl day ↦ elim (Bool-cases (nat_beq ((l.m_count + 1) % l.m_split_lines) 0)) [
        | inl turn ↦ (
          record l { m_today = tm.tm_mday; m_count = l.m_count + 1; m_fp = some file },
          rw (o.opened, opens file, day, splits, turn) refl,
          record {
            still = record { file = file; opened = refl; splits = o.splits };
            same_lines = refl;
            same_size = refl;
          },
        )
        | inr stay ↦ (
          record l { m_count = l.m_count + 1 },
          rw (day, splits, stay) refl,
          record {
            still = record { file = o.file; opened = o.opened; splits = o.splits };
            same_lines = refl;
            same_size = refl;
          },
        )
      ]
      | inr day ↦ (
        record l { m_today = tm.tm_mday; m_count = 0; m_fp = some file },
        rw (o.opened, opens file, day) refl,
        record {
          still = record { file = file; opened = refl; splits = o.splits };
          same_lines = refl;
          same_size = refl;
        },
      )
    ]

put_line-lines :
    (line : Bytes) (l : Log)
    → IsOpen l
    → (l' : Log) × (put_line line l ≡ some l') × IsOpen l' × Perm (lines l') (line ∷ lines l)
unfolding put_line lines
put_line-lines line l o =
    let f = λ (w : Bytes × Bytes). w.1 in
    let behind : map f (l.written ++ (o.file, line) ∷ []) ++ l.m_log_queue.m_queue
        ≡ map f l.written ++ line ∷ l.m_log_queue.m_queue =
      ap (λ ws. ws ++ l.m_log_queue.m_queue) (map-append f l.written ((o.file, line) ∷ []))
      ∙ append_assoc (map f l.written) (line ∷ []) l.m_log_queue.m_queue in
    (
      record l { written = l.written ++ (o.file, line) ∷ [] },
      rw o.opened refl,
      record { file = o.file; opened = o.opened; splits = o.splits },
      rw behind (perm_middle {a = line} (map f l.written) l.m_log_queue.m_queue),
    )

queue-lines :
    (line : Bytes) (l : Log)
    → IsOpen l
    → full l.m_log_queue ≡ false
    → let l' = record l { m_log_queue = (push line l.m_log_queue).1 } in
      IsOpen l' × Perm (lines l') (line ∷ lines l)
unfolding lines push full
queue-lines line l o room =
    let f = λ (w : Bytes × Bytes). w.1 in
    let front = map f l.written ++ l.m_log_queue.m_queue in
    let added : map f l.written ++ (l.m_log_queue.m_queue ++ line ∷ []) ≡ front ++ line ∷ [] =
      sym (append_assoc (map f l.written) l.m_log_queue.m_queue (line ∷ [])) in
    (
      record { file = o.file; opened = o.opened; splits = o.splits },
      rw (room, added) (rw (append-nil front) at (perm_middle {a = line} front [])),
    )

format_line-fits :
    (tm : Tm) (level : ℕ) (text : Bytes) (l : Log)
    → length (prefix tm level) < 48
    → length (prefix tm level) + length text + 1 < l.m_log_buf_size
    → format_line tm level text l ≡ some (line_of tm level text)
unfolding format_line
format_line-fits tm level text l short fits =
    let whole : ltb (length (prefix tm level)) 48 ≡ true = lt→ltb _ _ short in
    let inside : ltb (length (prefix tm level) + length text + 1) l.m_log_buf_size ≡ true =
      lt→ltb _ _ fits in
    rw (inside, whole) refl

format_line-overflows :
    (tm : Tm) (level : ℕ) (text : Bytes) (l : Log)
    → l.m_log_buf_size ≤ length (prefix tm level) + length text + 1
    → format_line tm level text l ≡ none
unfolding format_line
format_line-overflows tm level text l long =
    let outside : ltb (length (prefix tm level) + length text + 1) l.m_log_buf_size ≡ false =
      ltb-ge _ _ long in
    rw outside refl

-- A line that is emitted is in the queue or in the file.
emit-lines :
    (line : Bytes) (l : Log)
    → IsOpen l
    → (l' : Log) × (emit line l ≡ some l') × IsOpen l' × Perm (lines l') (line ∷ lines l)
unfolding emit
emit-lines line l o = elim (Bool-cases (l.m_is_async && not (full l.m_log_queue))) [
  | inl queued ↦
      let room : full l.m_log_queue ≡ false = ground (arith, queued) in
      let (o', p) = queue-lines line l o room in
      (record l { m_log_queue = (push line l.m_log_queue).1 }, rw queued refl, o', p)
  | inr direct ↦ let (l', put, o', p) = put_line-lines line l o in (l', rw direct put, o', p)
]

write_log-open :
    (fopen : Bytes → Bool) (tm : Tm) (level : ℕ) (text : Bytes) (l : Log)
    → IsOpen l
    → write_log fopen tm level text l ≡ log_line fopen tm level text l
unfolding write_log
write_log-open fopen tm level text l o =
    ap
      (λ (r : Option Bytes). elim r as (λ _. Option Log) [
        | none ↦ some l
        | some _ ↦ log_line fopen tm level text l
      ])
      o.opened

-- write_log of an open log, when every file opens and the line with its end fits into the buffer:
-- one line more is in the files or in the queue, and none is lost or changed; the log stays open.
-- No other thread is at the queue between the look at it and the push.
write_log-lines :
    (fopen : Bytes → Bool) (tm : Tm) (level : ℕ) (text : Bytes) (l : Log)
    → ((name : Bytes) → fopen name ≡ true)
    → IsOpen l
    → length (prefix tm level) < 48
    → length (prefix tm level) + length text + 1 < l.m_log_buf_size
    → (l' : Log) × (write_log fopen tm level text l ≡ some l')
      × IsOpen l'
      × Perm (lines l') (line_of tm level text ∷ lines l)
unfolding log_line
write_log-lines fopen tm level text l opens o short fits =
    let (l1, turned, r) = rotate-Rotated fopen tm l opens o in
    let formatted =
      format_line-fits tm level text l1 short (let same = r.same_size in omega arith) in
    let (l2, emitted, o', p) = emit-lines (line_of tm level text) l1 r.still in
    (
      l2,
      write_log-open fopen tm level text l o
          ∙ ap
              (λ (q : Option Log).
                q >>= λ l'. format_line tm level text l' >>= λ line. emit line l')
              turned
          ∙ ap (λ (q : Option Bytes). q >>= λ line. emit line l1) formatted
          ∙ emitted,
      o',
      rw (sym r.same_lines) p,
    )

-- When the prefix, the text, the line end and the final NUL do not fit into the buffer together,
-- write_log of an open log writes outside of it, if every file opens.
pub write_log-overflows :
    (fopen : Bytes → Bool) (tm : Tm) (level : ℕ) (text : Bytes) (l : Log)
    → ((name : Bytes) → fopen name ≡ true)
    → IsOpen l
    → l.m_log_buf_size ≤ length (prefix tm level) + length text + 1
    → write_log fopen tm level text l ≡ none
unfolding log_line
write_log-overflows fopen tm level text l opens o long =
    let (l1, turned, r) = rotate-Rotated fopen tm l opens o in
    let formatted =
      format_line-overflows tm level text l1 (let same = r.same_size in omega arith) in
    write_log-open fopen tm level text l o
    ∙ ap (λ (q : Option Log). q >>= λ l'. format_line tm level text l' >>= λ line. emit line l')
        turned
    ∙ ap (λ (q : Option Bytes). q >>= λ line. emit line l1) formatted
