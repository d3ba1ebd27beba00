-- ===== src/Log/Conservation.antt =====
-- src/log.cpp: under any order of the threads a line that is logged is in one place exactly.
use mathlib.Core.Quot
use mprpc_advanced_z.Base.{
  ℕ, ◌+◌, ◌≡◌, refl, sym, ap, subst, ◌∙◌, List, [], ◌∷◌, ◌++◌, Option, ◌&&◌, not, map, arith,
  Bool-cases, inl, inr,
}
use mprpc_advanced_z.Base.Bytes.{Bytes}
use mprpc_advanced_z.BlockQueue.{BlockQueue, full}
use mprpc_advanced_z.Log.{Log}
use mprpc_advanced_z.Log.Threads.{
  Stage, starts, rotated, holds, pushes, puts, Office, look, push_line, Step, enters, turns,
  formats, looks, queues, files, takes, writes, Reach, here, next, opened,
}
use mprpc_advanced_z.Log.Bags.{
  count, bag, in_hand, taken, everywhere, counted, count-everywhere, count-in_hand, rotate-kept,
  put_line-count, pop-count-by_queue, push-count,
}

-- A call that goes from one stage to another with the same line in its hands.
count-moves :
    (x : Bytes) (s t : Stage) (cs xs ys : List Stage)
    → cs ≡ xs ++ s ∷ ys
    → count x (in_hand (s ∷ [])) ≡ count x (in_hand (t ∷ []))
    → count x (in_hand cs) ≡ count x (in_hand (xs ++ t ∷ ys))
count-moves x s t cs xs ys e h = omega (
  arith,
  ap (λ (ss : List Stage). count x (in_hand ss)) e,
  count-in_hand x s xs ys,
  count-in_hand x t xs ys,
  h,
)

-- A call that ends, or that makes its line.
count-leaves :
    (x : Bytes) (s : Stage) (cs xs ys : List Stage)
    → cs ≡ xs ++ s ∷ ys
    → count x (in_hand cs) ≡ count x (in_hand (s ∷ [])) + count x (in_hand (xs ++ ys))
count-leaves x s cs xs ys e =
    omega (arith, ap (λ (ss : List Stage). count x (in_hand ss)) e, count-in_hand x s xs ys)

look-same :
    (x line : Bytes) (l : Log)
    → count x (in_hand (holds line ∷ [])) ≡ count x (in_hand (look l line ∷ []))
unfolding look
look-same x line l = elim (Bool-cases (l.m_is_async && not (full l.m_log_queue))) [
  | inl b ↦ rw b refl
  | inr b ↦ rw b refl
]

push_line-logged : (line : Bytes) (c : Office) → (push_line line c).logged ≡ c.logged
unfolding push_line
push_line-logged line c = refl

-- Each line that has been made is somewhere, as often as it has been made.
abbrev Counts : Office → Type 0
Counts c = (x : Bytes) → counted x c ≡ count x c.logged

Step-Counts : (limit : ℕ) (c d : Office) → Step limit c d → Counts c → Counts d
Step-Counts limit c d (enters tm level text file n f e) h = subst Counts (sym e) h
Step-Counts limit c d (turns fopen tm level text xs ys l f g e) h = subst Counts (sym e) λ x.
    let (w, q, a) = rotate-kept fopen tm c.log l g in
    let same = count-moves x (starts tm level text) (rotated tm level text) c.calls xs ys f refl in
    let in_files =
      ap (λ (v : List (Bytes × Bytes)). count x (map (λ (u : Bytes × Bytes). u.1) v)) w in
    let queue = ap (λ (k : BlockQueue Bytes). count x k.m_queue) q in
    omega (arith, h x, same, in_files, queue)
Step-Counts limit c d (formats tm level text line xs ys f g e) h = subst Counts (sym e) λ x.
    let old = count-leaves x (rotated tm level text) c.calls xs ys f in
    let new = count-in_hand x (holds line) xs ys in omega (arith, h x, old, new)
Step-Counts limit c d (looks line xs ys f e) h = subst Counts (sym e) λ x.
    let same =
      count-moves x (holds line) (look c.log line) c.calls xs ys f (look-same x line c.log) in
    omega (arith, h x, same)
Step-Counts limit c d (queues line xs ys f e) h = subst Counts (sym e) λ x.
    let gone = count-leaves x (pushes line) c.calls xs ys f in
    let there = push-count x line (record c { calls = xs ++ ys }) in
    let made = ap (count x) (push_line-logged line (record c { calls = xs ++ ys })) in
    omega (arith, h x, gone, there, made)
Step-Counts limit c d (files line xs ys l f g e) h = subst Counts (sym e) λ x.
    let gone = count-leaves x (puts line) c.calls xs ys f in
    let (there, q) = put_line-count x line c.log l g in
    let queue = ap (λ (k : BlockQueue Bytes). count x k.m_queue) q in
    omega (arith, h x, gone, there, queue)
Step-Counts limit c d (takes line f g e) h = subst Counts (sym e) λ x.
    let moved = pop-count-by_queue x line c.log.m_log_queue _ refl g in
    let idle = ap (λ (w : Option Bytes). count x (taken w)) f in omega (arith, h x, moved, idle)
Step-Counts limit c d (writes line l f g e) h = subst Counts (sym e) λ x.
    let (there, q) = put_line-count x line c.log l g in
    let queue = ap (λ (k : BlockQueue Bytes). count x k.m_queue) q in
    let held = ap (λ (w : Option Bytes). count x (taken w)) f in
    omega (arith, h x, there, queue, held)

Reach-Counts : (limit : ℕ) (a c : Office) → Counts a → Reach limit a c → Counts c
Reach-Counts limit a c h here = h
Reach-Counts limit a c h (next {d = d} r s) = Step-Counts limit d c s (Reach-Counts limit a d h r)

-- In every order of any number of threads that log and the one that writes, the lines that have been
-- made are, as a bag, those in the files, in the queue, in the hands of a thread, and those that a
-- push has refused, if the log starts with no line. So no line is written twice or made up, and none
-- is lost in another way.
pub Reach-opened-bag :
    (limit : ℕ) (l : Log) (c : Office)
    → l.written ≡ []
    → l.m_log_queue.m_queue ≡ []
    → Reach limit (opened l) c
    → bag (everywhere c) ≡ bag c.logged
Reach-opened-bag limit l c no_line no_item r =
    let begins : Counts (opened l) = λ x.
      let none_filed =
        ap (λ (v : List (Bytes × Bytes)). count x (map (λ (u : Bytes × Bytes). u.1) v)) no_line in
      omega (arith, none_filed, ap (count x) no_item) in
    Quot.sound (λ x. count-everywhere x c ∙ Reach-Counts limit (opened l) c begins r x)
