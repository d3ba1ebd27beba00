-- ===== src/Log/Bags.antt =====
-- src/log.cpp: the lines of a log as a bag, which forgets in which order and in which file they are.
use mathlib.Core.Quot.{Quot}
use mathlib.Core.List.{map-append}
use mprpc_advanced_z.Base.{
  ℕ, ◌+◌, ◌≡◌, refl, sym, ap, ◌∙◌, List, [], ◌∷◌, ◌++◌, Option, none, some, Bool, if◌then◌else◌,
  length, map, arith, Bool-cases, inl, inr, ◌==◌, leb,
}
use mprpc_advanced_z.Base.Bytes.{Bytes, bytes_eq}
use mprpc_advanced_z.BlockQueue.{BlockQueue, item, push, pop}
use mprpc_advanced_z.Log.{Tm, Log, rotate, put_line}
use mprpc_advanced_z.Log.Threads.{Stage, starts, rotated, holds, pushes, puts, Office, push_line}

-- How often the line is in the list.
abbrev pub count : Bytes → List Bytes → ℕ
count x [] = 0
count x (y ∷ ys) = (if y == x then 1 else 0) + count x ys

pub count-append : (x : Bytes) (xs ys : List Bytes) → count x (xs ++ ys) ≡ count x xs + count x ys
count-append x [] ys = omega arith
count-append x (y ∷ xs) ys = omega (arith, count-append x xs ys)

abbrev pub SameLines : List Bytes → List Bytes → Type 0
SameLines xs ys = (x : Bytes) → count x xs ≡ count x ys

abbrev pub Bag : Type 0
Bag = Quot SameLines

abbrev pub bag : List Bytes → Bag
bag xs = Quot.mk xs

-- The lines in the files.
abbrev pub filed : Log → List Bytes
filed l = map (λ (w : Bytes × Bytes). w.1) l.written

abbrev pub in_hand : List Stage → List Bytes
in_hand [] = []
in_hand (starts tm level text ∷ ss) = in_hand ss
in_hand (rotated tm level text ∷ ss) = in_hand ss
in_hand (holds line ∷ ss) = line ∷ in_hand ss
in_hand (pushes line ∷ ss) = line ∷ in_hand ss
in_hand (puts line ∷ ss) = line ∷ in_hand ss

abbrev pub taken : Option Bytes → List Bytes
taken none = []
taken (some line) = line ∷ []

-- Where the lines are: in the files, in the queue, with the writing thread, with the calls, or lost.
abbrev pub everywhere : Office → List Bytes
everywhere c =
    filed c.log ++ (c.log.m_log_queue.m_queue ++ (taken c.writer ++ (in_hand c.calls ++ c.lost)))

abbrev pub counted : Bytes → Office → ℕ
counted x c =
    count x (filed c.log)
    + count x c.log.m_log_queue.m_queue
    + count x (taken c.writer)
    + count x (in_hand c.calls)
    + count x c.lost

pub count-everywhere : (x : Bytes) (c : Office) → count x (everywhere c) ≡ counted x c
count-everywhere x c =
    let q = c.log.m_log_queue.m_queue in
    let rest = in_hand c.calls ++ c.lost in
    omega (
      arith,
      count-append x (filed c.log) (q ++ (taken c.writer ++ rest)),
      count-append x q (taken c.writer ++ rest),
      count-append x (taken c.writer) rest,
      count-append x (in_hand c.calls) c.lost,
    )

pub count-in_hand :
    (x : Bytes) (s : Stage) (xs ys : List Stage)
    → count x (in_hand (xs ++ s ∷ ys)) ≡ count x (in_hand (s ∷ [])) + count x (in_hand (xs ++ ys))
count-in_hand x (starts tm level text) [] ys = omega arith
count-in_hand x (rotated tm level text) [] ys = omega arith
count-in_hand x (holds line) [] ys = omega arith
count-in_hand x (pushes line) [] ys = omega arith
count-in_hand x (puts line) [] ys = omega arith
count-in_hand x s (starts tm level text ∷ xs) ys = count-in_hand x s xs ys
count-in_hand x s (rotated tm level text ∷ xs) ys = count-in_hand x s xs ys
count-in_hand x s (holds line ∷ xs) ys = omega (arith, count-in_hand x s xs ys)
count-in_hand x s (pushes line ∷ xs) ys = omega (arith, count-in_hand x s xs ys)
count-in_hand x s (puts line ∷ xs) ys = omega (arith, count-in_hand x s xs ys)

pub rotate-kept :
    (fopen : Bytes → Bool) (tm : Tm) (l l' : Log)
    → rotate fopen tm l ≡ some l'
    → (l'.written ≡ l.written) × (l'.m_log_queue ≡ l.m_log_queue) × (l'.m_is_async ≡ l.m_is_async)
unfolding rotate
rotate-kept fopen tm l l' e = ground (arith, e)

put_line-file :
    (line : Bytes) (l l' : Log)
    → put_line line l ≡ some l'
    → (file : Bytes) × (l' ≡ record l { written = l.written ++ (file, line) ∷ [] })
unfolding put_line
put_line-file line l l' e = by_file l.m_fp e
  where
    by_file :
        (fp : Option Bytes)
        → (elim fp as (λ _. Option Log) [
          | none ↦ none
          | some file ↦ some (record l { written = l.written ++ (file, line) ∷ [] })
        ])
          ≡ some l'
        → (file : Bytes) × (l' ≡ record l { written = l.written ++ (file, line) ∷ [] })
    by_file none f = cc
    by_file (some file) f =
        let same : record l { written = l.written ++ (file, line) ∷ [] } ≡ l' = cc f in
        (file, sym same)

pub put_line-count :
    (x line : Bytes) (l l' : Log)
    → put_line line l ≡ some l'
    → (count x (filed l') ≡ count x (filed l) + count x (line ∷ []))
      × (l'.m_log_queue ≡ l.m_log_queue)
put_line-count x line l l' e =
    let (file, same) = put_line-file line l l' e in
    let names = map-append (λ (w : Bytes × Bytes). w.1) l.written ((file, line) ∷ []) in
    (
      ap (λ (k : Log). count x (filed k)) same
          ∙ (ap (count x) names ∙ count-append x (filed l) (line ∷ [])),
      ap (λ (k : Log). k.m_log_queue) same,
    )

pub pop-count-by_queue :
    (x line : Bytes) (q : BlockQueue Bytes) (ys : List Bytes)
    → q.m_queue ≡ ys
    → (pop q).0 ≡ item line
    → count x q.m_queue ≡ count x (line ∷ []) + count x (pop q).1.m_queue
unfolding pop
pop-count-by_queue x line q [] f e = absurd (ground (arith, e, f))
pop-count-by_queue x line q (y ∷ ys) f e =
    let first : y ≡ line = ground (arith, e, f) in
    let rest : (pop q).1.m_queue ≡ ys = rw (pop, f) refl in
    let whole = ap (count x) f in
    omega (arith, whole, ap (count x) rest, ap (λ (z : Bytes). count x (z ∷ [])) first)

pub push-count :
    (x line : Bytes) (c : Office) → counted x (push_line line c) ≡ counted x c + count x (line ∷ [])
unfolding push_line push
push-count x line c =
    let q = c.log.m_log_queue in
    let longer = count-append x q.m_queue (line ∷ []) in
    elim (Bool-cases (leb q.m_max_size (length q.m_queue))) [
      | inl b ↦ simp (push_line, b) (omega arith)
      | inr b ↦ simp (push_line, b) (omega (arith, longer))
    ]
