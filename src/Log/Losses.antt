-- ===== src/Log/Losses.antt =====
-- src/log.cpp: the line that is lost between the look at the queue and the push.
use mprpc_advanced_z.Base.{
  ℕ, suc, ◌<◌, ◌≡◌, refl, sym, ap, subst, ◌∙◌, List, [], ◌∷◌, ◌++◌, some, Bool, true, false, ◌&&◌,
  not, length, arith, Bool-cases, inl, inr, length-append, leb,
}
use mprpc_advanced_z.Base.Bytes.{Bytes}
use mprpc_advanced_z.BlockQueue.{BlockQueue, item, full, push, pop}
use mprpc_advanced_z.Log.{Tm, Log, rotate, format_line}
use mprpc_advanced_z.Log.Threads.{
  Stage, starts, rotated, holds, pushes, puts, Office, look, push_line, Step, enters, turns,
  formats, looks, queues, files, takes, writes, Reach, here, next, opened,
}
use mprpc_advanced_z.Log.Bags.{rotate-kept, put_line-count}

-- A call that is about to push has found room, and there is room still.
abbrev HasRoom : BlockQueue Bytes → Stage → Type 0
HasRoom q (starts tm level text) = Unit {0}
HasRoom q (rotated tm level text) = Unit {0}
HasRoom q (holds line) = Unit {0}
HasRoom q (pushes line) = full q ≡ false
HasRoom q (puts line) = Unit {0}

-- No call, or one.
abbrev AtMost : BlockQueue Bytes → List Stage → Type 0
AtMost q [] = Unit {0}
AtMost q (s ∷ []) = HasRoom q s
AtMost q (s ∷ t ∷ ss) = ⊥

record IsKeeping (c : Office) : Type 0 where
  kept : c.lost ≡ []
  alone : AtMost c.log.m_log_queue c.calls

-- The one call there is.
only :
    (q : BlockQueue Bytes) (s : Stage) (cs xs ys : List Stage)
    → AtMost q cs
    → cs ≡ xs ++ s ∷ ys
    → HasRoom q s × (xs ≡ []) × (ys ≡ [])
only q s cs [] [] a e = (subst (AtMost q) e a, refl, refl)
only q s cs [] (y ∷ ys) a e = absurd (subst (AtMost q) e a)
only q s cs (x ∷ []) ys a e = absurd (subst (AtMost q) e a)
only q s cs (x ∷ y ∷ xs) ys a e = absurd (subst (AtMost q) e a)

alone_again :
    (q : BlockQueue Bytes) (t : Stage) (xs ys : List Stage)
    → xs ≡ []
    → ys ≡ []
    → HasRoom q t
    → AtMost q (xs ++ t ∷ ys)
alone_again q t xs ys e f h = rw (e, f) h

gone_again : (q : BlockQueue Bytes) (xs ys : List Stage) → xs ≡ [] → ys ≡ [] → AtMost q (xs ++ ys)
gone_again q xs ys e f = rw (e, f) tt

look-HasRoom : (line : Bytes) (l : Log) → HasRoom l.m_log_queue (look l line)
unfolding look
look-HasRoom line l = elim (Bool-cases (l.m_is_async && not (full l.m_log_queue))) [
  | inl b ↦ rw b (ground (arith, b))
  | inr b ↦ rw b tt
]

push_line-kept :
    (line : Bytes) (c : Office)
    → full c.log.m_log_queue ≡ false
    → ((push_line line c).lost ≡ c.lost) × ((push_line line c).calls ≡ c.calls)
unfolding push_line push full
push_line-kept line c room = (simp (push_line, room) refl, refl)

push_line-refused :
    (line : Bytes) (c : Office)
    → full c.log.m_log_queue ≡ true
    → (push_line line c).lost ≡ line ∷ c.lost
unfolding push_line push full
push_line-refused line c none_left = simp (push_line, none_left) refl

-- The last place is taken.
push_line-full :
    (line : Bytes) (c : Office)
    → suc (length c.log.m_log_queue.m_queue) ≡ c.log.m_log_queue.m_max_size
    → full (push_line line c).log.m_log_queue ≡ true
unfolding push_line push full
push_line-full line c left =
    let q = c.log.m_log_queue in
    let longer = length-append q.m_queue (line ∷ []) in
    let room : leb q.m_max_size (length q.m_queue) ≡ false = ground (arith, left) in
    simp (push_line, room) (ground (arith, longer, left))

pop-full :
    (line : Bytes) (q : BlockQueue Bytes) (ys : List Bytes)
    → q.m_queue ≡ ys
    → (pop q).0 ≡ item line
    → full q ≡ false
    → full (pop q).1 ≡ false
unfolding pop full
pop-full line q [] e f room = absurd (ground (arith, e, f))
pop-full line q (y ∷ ys) e f room =
    let longer = ap length e in
    let before : length q.m_queue < q.m_max_size = ground (arith, room) in
    rw (pop, e) (ground (arith, longer, before))

no_call :
    (q : BlockQueue Bytes) (cs : List Stage) (s : Stage)
    → length cs < 1
    → HasRoom q s
    → AtMost q (s ∷ cs)
no_call q [] s n h = h
no_call q (t ∷ cs) s n h = absurd (omega arith)

room_stays :
    (q q' : BlockQueue Bytes) (cs : List Stage)
    → (full q ≡ false → full q' ≡ false)
    → AtMost q cs
    → AtMost q' cs
room_stays q q' [] h a = tt
room_stays q q' (starts tm level text ∷ []) h a = tt
room_stays q q' (rotated tm level text ∷ []) h a = tt
room_stays q q' (holds line ∷ []) h a = tt
room_stays q q' (pushes line ∷ []) h a = h a
room_stays q q' (puts line ∷ []) h a = tt
room_stays q q' (s ∷ t ∷ cs) h a = absurd a

Step-IsKeeping : (c d : Office) → Step 1 c d → IsKeeping c → IsKeeping d
Step-IsKeeping c d (enters tm level text file n f e) v =
    subst IsKeeping (sym e) record {
      kept = v.kept;
      alone = no_call c.log.m_log_queue c.calls (starts tm level text) n tt;
    }
Step-IsKeeping c d (turns fopen tm level text xs ys l f g e) v =
    let (h, p, q) = only _ (starts tm level text) c.calls xs ys v.alone f in
    subst IsKeeping (sym e) record { kept = v.kept; alone = alone_again _ _ xs ys p q tt }
Step-IsKeeping c d (formats tm level text line xs ys f g e) v =
    let (h, p, q) = only _ (rotated tm level text) c.calls xs ys v.alone f in
    subst IsKeeping (sym e) record { kept = v.kept; alone = alone_again _ _ xs ys p q tt }
Step-IsKeeping c d (looks line xs ys f e) v =
    let (h, p, q) = only _ (holds line) c.calls xs ys v.alone f in
    subst IsKeeping (sym e)
      record { kept = v.kept; alone = alone_again _ _ xs ys p q (look-HasRoom line c.log) }
Step-IsKeeping c d (queues line xs ys f e) v =
    let (room, p, q) = only _ (pushes line) c.calls xs ys v.alone f in
    let (kept, calls) = push_line-kept line (record c { calls = xs ++ ys }) room in
    subst IsKeeping (sym e)
      record { kept = kept ∙ v.kept; alone = rw calls (gone_again _ xs ys p q) }
Step-IsKeeping c d (files line xs ys l f g e) v =
    let (h, p, q) = only _ (puts line) c.calls xs ys v.alone f in
    subst IsKeeping (sym e) record { kept = v.kept; alone = gone_again _ xs ys p q }
Step-IsKeeping c d (takes line f g e) v = subst IsKeeping (sym e) record {
  kept = v.kept;
  alone =
      room_stays c.log.m_log_queue (pop c.log.m_log_queue).1 c.calls
        (pop-full line c.log.m_log_queue _ refl g) v.alone;
}
Step-IsKeeping c d (writes line l f g e) v =
    let (n, q) = put_line-count line line c.log l g in
    subst IsKeeping (sym e)
      record { kept = v.kept; alone = subst (λ k. AtMost k c.calls) (sym q) v.alone }

Reach-IsKeeping : (a c : Office) → IsKeeping a → Reach 1 a c → IsKeeping c
Reach-IsKeeping a c v here = v
Reach-IsKeeping a c v (next {d = d} r s) = Step-IsKeeping d c s (Reach-IsKeeping a d v r)

-- As long as at most one thread logs at a time, no line is lost: no push is refused.
pub Reach-opened-keeps : (l : Log) (c : Office) → Reach 1 (opened l) c → c.lost ≡ []
Reach-opened-keeps l c r =
    (Reach-IsKeeping (opened l) c (record { kept = refl; alone = tt }) r).kept

-- Two threads that log together can lose a line: when the queue of an open log has one place left,
-- both find room, and the push of the second is refused. The two calls find the file that they
-- need, and their line fits into the buffer.
pub Reach-opened-loses :
    (fopen : Bytes → Bool) (tm : Tm) (level : ℕ) (text line file : Bytes) (l l1 l2 : Log)
    → l.m_fp ≡ some file
    → l.m_is_async ≡ true
    → suc (length l.m_log_queue.m_queue) ≡ l.m_log_queue.m_max_size
    → rotate fopen tm l ≡ some l1
    → rotate fopen tm l1 ≡ some l2
    → format_line tm level text l2 ≡ some line
    → (c : Office) × Reach 2 (opened l) c × (c.lost ≡ line ∷ []) × (c.calls ≡ [])
unfolding look push_line push full
Reach-opened-loses fopen tm level text line file l l1 l2 o a n t t' f =
    let (w1, q1, a1) = rotate-kept fopen tm l l1 t in
    let (w2, q2, a2) = rotate-kept fopen tm l1 l2 t' in
    let same : l2.m_log_queue ≡ l.m_log_queue = q2 ∙ q1 in
    let async : l2.m_is_async ≡ true = a2 ∙ (a1 ∙ a) in
    let left : suc (length l2.m_log_queue.m_queue) ≡ l2.m_log_queue.m_max_size =
      subst (λ (q : BlockQueue Bytes). suc (length q.m_queue) ≡ q.m_max_size) (sym same) n in
    let room : full l2.m_log_queue ≡ false = ground (arith, left) in
    let both : look l2 line ≡ pushes line = simp (look, async, room) refl in
    let s = starts tm level text in
    let r = rotated tm level text in
    let c0 = opened l in
    let c1 = record c0 { calls = s ∷ [] } in
    let c2 = record c1 { calls = s ∷ s ∷ [] } in
    let c3 = record c2 { log = l1; calls = r ∷ s ∷ [] } in
    let c4 = record c3 { log = l2; calls = r ∷ r ∷ [] } in
    let c5 = record c4 { calls = holds line ∷ r ∷ []; logged = line ∷ [] } in
    let c6 = record c5 { calls = holds line ∷ holds line ∷ []; logged = line ∷ line ∷ [] } in
    let c7 = record c6 { calls = pushes line ∷ holds line ∷ [] } in
    let c8 = record c7 { calls = pushes line ∷ pushes line ∷ [] } in
    let c9 = push_line line (record c8 { calls = pushes line ∷ [] }) in
    let c10 = push_line line (record c9 { calls = [] }) in
    let r1 : Reach 2 c0 c1 = next here (enters tm level text file (omega arith) o refl) in
    let r2 : Reach 2 c0 c2 = next r1 (enters tm level text file (omega arith) o refl) in
    let r3 : Reach 2 c0 c3 = next r2 (turns fopen tm level text [] (s ∷ []) l1 refl t refl) in
    let r4 : Reach 2 c0 c4 = next r3 (turns fopen tm level text (r ∷ []) [] l2 refl t' refl) in
    let r5 : Reach 2 c0 c5 = next r4 (formats tm level text line [] (r ∷ []) refl f refl) in
    let r6 : Reach 2 c0 c6 =
      next r5 (formats tm level text line (holds line ∷ []) [] refl f refl) in
    let r7 : Reach 2 c0 c7 = next r6 (looks line [] (holds line ∷ []) refl (rw both refl)) in
    let r8 : Reach 2 c0 c8 = next r7 (looks line (pushes line ∷ []) [] refl (rw both refl)) in
    let r9 : Reach 2 c0 c9 = next r8 (queues line [] (pushes line ∷ []) refl refl) in
    let r10 : Reach 2 c0 c10 = next r9 (queues line [] [] refl refl) in
    (
      c10,
      r10,
      push_line-refused line (record c9 { calls = [] })
            (push_line-full line (record c8 { calls = pushes line ∷ [] }) left)
          ∙ ap (λ ls. line ∷ ls)
              (push_line-kept line (record c8 { calls = pushes line ∷ [] }) room).0,
      refl,
    )
