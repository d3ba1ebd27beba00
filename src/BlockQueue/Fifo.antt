-- ===== src/BlockQueue/Fifo.antt =====
-- src/include/block_queue.h: order and bound of the items, over any sequence of calls.
use mprpc_advanced_z.Base.{
  ℕ, ◌≤◌, ◌≡◌, refl, ap, sym, ◌∙◌, List, [], ◌∷◌, ◌++◌, map, Bool, if◌then◌else◌, arith, length,
  length-append, append-nil, append_assoc,
}
use mprpc_advanced_z.BlockQueue.{
  BlockQueue, Popped, item, refused, sleeps, clear, push, pop, pop_for_end, pop_for_begin, close,
}

pub data Call {ℓ} (A : Type ℓ) : Type ℓ where
  pushes : A → Call A
  pops : Call A
  pops_for : Bool → Call A
  tries : Call A
  clears : Call A
  closes : Call A

-- How an item leaves the queue.
pub data Leaving {ℓ} (A : Type ℓ) : Type ℓ where
  taken : A → Leaving A
  discarded : A → Leaving A

module _ {ℓ} {A : Type ℓ} where
  abbrev pub item_of : Leaving A → A
  item_of (taken x) = x
  item_of (discarded x) = x

  abbrev pub takings : Popped A → List (Leaving A)
  takings (item x) = taken x ∷ []
  takings refused = []
  takings sleeps = []

  unfoldable pub after : Call A → BlockQueue A → BlockQueue A
  unfolding push pop pop_for_begin clear close
  after (pushes x) q = (push x q).1
  after pops q = (pop q).1
  after (pops_for timed_out) q = (pop_for_end timed_out q).1
  after tries q = (pop_for_begin q).1
  after clears q = clear q
  after closes q = (close q).1

  -- The item that a call accepts.
  unfoldable pub accepts : Call A → BlockQueue A → List A
  unfolding push
  accepts (pushes x) q = if (push x q).0.0 then x ∷ [] else []
  accepts pops q = []
  accepts (pops_for timed_out) q = []
  accepts tries q = []
  accepts clears q = []
  accepts closes q = []

  -- The items that leave in a call.
  unfoldable pub lets_go : Call A → BlockQueue A → List (Leaving A)
  unfolding pop pop_for_begin
  lets_go (pushes x) q = []
  lets_go pops q = takings (pop q).0
  lets_go (pops_for timed_out) q = takings (pop_for_end timed_out q).0
  lets_go tries q = takings (pop_for_begin q).0
  lets_go clears q = map discarded q.m_queue
  lets_go closes q = map discarded q.m_queue

  unfoldable pub run : List (Call A) → BlockQueue A → BlockQueue A
  run [] q = q
  run (c ∷ cs) q = run cs (after c q)

  unfoldable pub accepted : List (Call A) → BlockQueue A → List A
  accepted [] q = []
  accepted (c ∷ cs) q = accepts c q ++ accepted cs (after c q)

  unfoldable pub left : List (Call A) → BlockQueue A → List (Leaving A)
  left [] q = []
  left (c ∷ cs) q = lets_go c q ++ left cs (after c q)

  map-discarded : (xs : List A) → map item_of (map discarded xs) ≡ xs
  map-discarded [] = refl
  map-discarded (x ∷ xs) = ap (◌∷◌ x) (map-discarded xs)

  map-item_of-append :
      (xs ys : List (Leaving A)) → map item_of (xs ++ ys) ≡ map item_of xs ++ map item_of ys
  map-item_of-append [] ys = refl
  map-item_of-append (x ∷ xs) ys = ap (◌∷◌ (item_of x)) (map-item_of-append xs ys)

  -- A queue over the fields, so that a proof can split on the items.
  abbrev made : List A → ℕ → Bool → BlockQueue A
  made xs n b = record { m_queue = xs; m_max_size = n; m_is_close = b }

  after-keeps_at :
      (c : Call A) (xs : List A) (n : ℕ) (b : Bool)
      → xs ++ accepts c (made xs n b)
        ≡ map item_of (lets_go c (made xs n b)) ++ (after c (made xs n b)).m_queue
  unfolding after accepts lets_go
  after-keeps_at (pushes x) xs n b = ground (arith, append-nil xs)
  after-keeps_at pops [] n b = ground arith
  after-keeps_at pops (y ∷ xs) n b = ground (arith, append-nil xs)
  after-keeps_at (pops_for t) [] n b = ground arith
  after-keeps_at (pops_for t) (y ∷ xs) n b = ground (arith, append-nil xs)
  after-keeps_at tries [] n b = ground arith
  after-keeps_at tries (y ∷ xs) n b = ground (arith, append-nil xs)
  after-keeps_at clears xs n b =
      ground (arith, append-nil xs, map-discarded xs, append-nil (map item_of (map discarded xs)))
  after-keeps_at closes xs n b =
      ground (arith, append-nil xs, map-discarded xs, append-nil (map item_of (map discarded xs)))

  after-keeps :
      (c : Call A) (q : BlockQueue A)
      → q.m_queue ++ accepts c q ≡ map item_of (lets_go c q) ++ (after c q).m_queue
  after-keeps c q = after-keeps_at c q.m_queue q.m_max_size q.m_is_close

  after-IsBounded_at :
      (c : Call A) (xs : List A) (n : ℕ) (b : Bool)
      → length xs ≤ n
      → (length (after c (made xs n b)).m_queue ≤ n) × ((after c (made xs n b)).m_max_size ≡ n)
  unfolding after
  after-IsBounded_at (pushes x) xs n b h = ground (arith, length-append xs (x ∷ []))
  after-IsBounded_at pops [] n b h = ground arith
  after-IsBounded_at pops (y ∷ xs) n b h = ground arith
  after-IsBounded_at (pops_for t) [] n b h = ground arith
  after-IsBounded_at (pops_for t) (y ∷ xs) n b h = ground arith
  after-IsBounded_at tries [] n b h = ground arith
  after-IsBounded_at tries (y ∷ xs) n b h = ground arith
  after-IsBounded_at clears xs n b h = ground arith
  after-IsBounded_at closes xs n b h = ground arith

  -- Over any calls the items leave in the order in which they came: those that waited, followed by
  -- those accepted, are those that left, taken or discarded, followed by those that wait.
  pub run-fifo :
      (cs : List (Call A)) (q : BlockQueue A)
      → q.m_queue ++ accepted cs q ≡ map item_of (left cs q) ++ (run cs q).m_queue
  unfolding run accepted left
  run-fifo [] q = append-nil q.m_queue
  run-fifo (c ∷ cs) q =
      sym (append_assoc q.m_queue (accepts c q) (accepted cs (after c q)))
      ∙ ap (λ xs. xs ++ accepted cs (after c q)) (after-keeps c q)
      ∙ append_assoc (map item_of (lets_go c q)) (after c q).m_queue (accepted cs (after c q))
      ∙ ap (◌++◌ (map item_of (lets_go c q))) (run-fifo cs (after c q))
      ∙ sym (
          append_assoc (map item_of (lets_go c q)) (map item_of (left cs (after c q)))
            (run cs (after c q)).m_queue)
      ∙ ap (λ xs. xs ++ (run cs (after c q)).m_queue)
          (sym (map-item_of-append (lets_go c q) (left cs (after c q))))

  -- A queue that holds no more than its maximum never does, whatever is called.
  pub run-bounded :
      (cs : List (Call A)) (q : BlockQueue A)
      → length q.m_queue ≤ q.m_max_size
      → (length (run cs q).m_queue ≤ q.m_max_size) × ((run cs q).m_max_size ≡ q.m_max_size)
  unfolding run
  run-bounded [] q h = (h, refl)
  run-bounded (c ∷ cs) q h =
      let (b, e) = after-IsBounded_at c q.m_queue q.m_max_size q.m_is_close h in
      ground (arith, b, e, run-bounded cs (after c q))
