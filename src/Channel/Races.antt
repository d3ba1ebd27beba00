-- ===== src/Channel/Races.antt =====
-- src/mprpcchannel.cc: the cache of rings between the stretches of CallMethod and of ZkChildWatcher that
-- hold its mutex, each of which asks ZooKeeper before the stretch that stores.
use mprpc_advanced_z.Base.{
  ℕ, ◌≡◌, ◌≢◌, ◌⊎◌, refl, sym, subst, ◌∙◌, List, [], ◌∷◌, ◌++◌, none, some, true, ◌==◌, Bool-cases,
  inl, inr,
}
use mprpc_advanced_z.Base.Bytes.{Bytes, bytes_eq, bytes_beq_iff}
use mprpc_advanced_z.Base.Maps.{find, find-assign}
use mprpc_advanced_z.ConsistentHash.{ConsistentHash}
use mprpc_advanced_z.Channel.{Globals, cached, store_ring, build_ring}

-- Who asks ZooKeeper for the children of a path: a call that has not found it in the cache, or the
-- watcher.
pub data Asker : Type 0 where
  call : Bytes → Asker
  watcher : Bytes → Asker

abbrev pub path_of : Asker → Bytes
path_of (call path) = path
path_of (watcher path) = path

-- What the asker goes on with: a call gives up without a provider.
abbrev pub IsUsed : Asker → List Bytes → Type 0
IsUsed (call path) hosts = hosts ≢ []
IsUsed (watcher path) hosts = Unit {0}

-- The globals, the threads that wait for ZooKeeper, those that have their answer and have not stored its
-- ring yet, and all answers that have been gone on with, the last one first.
pub record Client : Type 0 where
  pub globals : Globals
  pub asking : List Asker
  pub fetched : List (Bytes × List Bytes)
  pub learnt : List (Bytes × List Bytes)

abbrev pub start : Client
start = record {
  globals = record { g_route_cache = []; g_zk_started = true };
  asking = [];
  fetched = [];
  learnt = [];
}

module _ (hash_fn : Bytes → ℕ) where
  -- One turn of one thread.
  pub data Step (c d : Client) : Type 0 where
    misses :
        (path : Bytes)
        → cached path c.globals ≡ none
        → d ≡ record c { asking = call path ∷ c.asking }
        → Step c d
    reports : (path : Bytes) → d ≡ record c { asking = watcher path ∷ c.asking } → Step c d
    fails :
        (a : Asker) (xs ys : List Asker)
        → c.asking ≡ xs ++ a ∷ ys
        → d ≡ record c { asking = xs ++ ys }
        → Step c d
    answers :
        (a : Asker) (hosts : List Bytes) (xs ys : List Asker)
        → c.asking ≡ xs ++ a ∷ ys
        → IsUsed a hosts
        → d ≡ record c {
          asking = xs ++ ys;
          fetched = (path_of a, hosts) ∷ c.fetched;
          learnt = (path_of a, hosts) ∷ c.learnt;
        }
        → Step c d
    stores :
        (path : Bytes) (hosts : List Bytes) (xs ys : List (Bytes × List Bytes))
        → c.fetched ≡ xs ++ (path, hosts) ∷ ys
        → d ≡ record c {
          globals = store_ring path (build_ring hash_fn hosts) c.globals;
          fetched = xs ++ ys;
        }
        → Step c d

  pub data Reach (c : Client) : Client → Type 0 where
    here : Reach c c
    next : {d e : Client} → Reach c d → Step d e → Reach c e

  -- The answer is among those.
  abbrev pub IsAnswer : Bytes → List Bytes → List (Bytes × List Bytes) → Type 0
  IsAnswer path hosts [] = ⊥
  IsAnswer path hosts ((p, hs) ∷ xs) = ((p ≡ path) × (hs ≡ hosts)) ⊎ IsAnswer path hosts xs

  IsAnswer-left :
      (path p : Bytes) (hosts hs : List Bytes) (xs ys : List (Bytes × List Bytes))
      → IsAnswer path hosts (xs ++ ys)
      → IsAnswer path hosts (xs ++ (p, hs) ∷ ys)
  IsAnswer-left path p hosts hs [] ys m = inr m
  IsAnswer-left path p hosts hs (x ∷ xs) ys (inl e) = inl e
  IsAnswer-left path p hosts hs (x ∷ xs) ys (inr m) = inr (IsAnswer-left path p hosts hs xs ys m)

  IsAnswer-middle :
      (path : Bytes) (hosts : List Bytes) (xs ys : List (Bytes × List Bytes))
      → IsAnswer path hosts (xs ++ (path, hosts) ∷ ys)
  IsAnswer-middle path hosts [] ys = inl (refl, refl)
  IsAnswer-middle path hosts (x ∷ xs) ys = inr (IsAnswer-middle path hosts xs ys)

  -- Every ring in the cache is that of an answer for its path.
  pub record IsLearnt (c : Client) : Type 0 where
    pub kept :
        (path : Bytes) (ch : ConsistentHash)
        → cached path c.globals ≡ some ch
        → (hosts : List Bytes) × IsAnswer path hosts c.learnt × (ch ≡ build_ring hash_fn hosts)
    pub coming :
        (path : Bytes) (hosts : List Bytes)
        → IsAnswer path hosts c.fetched
        → IsAnswer path hosts c.learnt

  stored :
      (path : Bytes) (hosts : List Bytes) (c : Client)
      → IsLearnt c
      → IsAnswer path hosts c.learnt
      → (q : Bytes) (ch : ConsistentHash)
      → cached q (store_ring path (build_ring hash_fn hosts) c.globals) ≡ some ch
      → (hs : List Bytes) × IsAnswer q hs c.learnt × (ch ≡ build_ring hash_fn hs)
  stored path hosts c v m q ch e =
      let found = find-assign path q (build_ring hash_fn hosts) c.globals.g_route_cache in
      elim (Bool-cases (path == q)) [
        | inl b ↦
            let same : path ≡ q = (bytes_beq_iff path q).0 b in
            let this : some (build_ring hash_fn hosts) ≡ some ch = sym (found ∙ rw b refl) ∙ e in
            (hosts, subst (λ p. IsAnswer p hosts c.learnt) same m, cc this)
        | inr b ↦ v.kept q ch (sym (found ∙ rw b refl) ∙ e)
      ]

  Step-IsLearnt : (c d : Client) → Step c d → IsLearnt c → IsLearnt d
  Step-IsLearnt c d (misses path n e) v =
      subst IsLearnt (sym e) record { kept = v.kept; coming = v.coming }
  Step-IsLearnt c d (reports path e) v =
      subst IsLearnt (sym e) record { kept = v.kept; coming = v.coming }
  Step-IsLearnt c d (fails a xs ys f e) v =
      subst IsLearnt (sym e) record { kept = v.kept; coming = v.coming }
  Step-IsLearnt c d (answers a hosts xs ys f u e) v = subst IsLearnt (sym e) record {
    kept = λ path ch g. let (hs, m, same) = v.kept path ch g in (hs, inr m, same);
    coming = λ path hs m. elim m [ inl g ↦ inl g | inr m' ↦ inr (v.coming path hs m') ];
  }
  Step-IsLearnt c d (stores path hosts xs ys f e) v =
      let back = λ (p : Bytes) (hs : List Bytes) (m : IsAnswer p hs (xs ++ (path, hosts) ∷ ys)).
        v.coming p hs (subst (IsAnswer p hs) (sym f) m) in
      subst IsLearnt (sym e) record {
        kept = stored path hosts c v (back path hosts (IsAnswer-middle path hosts xs ys));
        coming = λ p hs m. back p hs (IsAnswer-left p path hs hosts xs ys m);
      }

  -- Under any order of the calls and the watcher, each ring in the cache is the ring of a list of
  -- providers that ZooKeeper has answered for that path, though not always of the last one.
  pub Reach-start-IsLearnt : (c : Client) → Reach start c → IsLearnt c
  unfolding find
  Reach-start-IsLearnt c here = record {
    kept = λ path ch e. absurd (cc e);
    coming = λ path hosts m. m;
  }
  Reach-start-IsLearnt c (next {d = d} r s) = Step-IsLearnt d c s (Reach-start-IsLearnt d r)

  -- A change can be lost: for any path and any two lists of providers, the first not empty, there is an
  -- order in which a call asks first and is answered with the first list, the watcher is answered with the
  -- second and stores its ring, and the call then stores the ring of the first. Nobody is under way
  -- any more, the last answer is the second list, and the cache holds the ring of the first.
  pub Reach-start-outdated :
      (path x : Bytes) (old new : List Bytes)
      → (c : Client) × Reach start c
        × (c.learnt ≡ (path, new) ∷ (path, x ∷ old) ∷ [])
        × (cached path c.globals ≡ some (build_ring hash_fn (x ∷ old)))
        × (c.asking ≡ [])
        × (c.fetched ≡ [])
  unfolding find
  Reach-start-outdated path x old new =
      let older = build_ring hash_fn (x ∷ old) in
      let newer = build_ring hash_fn new in
      let c0 = start in
      let c1 = record c0 { asking = call path ∷ [] } in
      let c2 = record c1 {
        asking = [];
        fetched = (path, x ∷ old) ∷ [];
        learnt = (path, x ∷ old) ∷ [];
      } in
      let c3 = record c2 { asking = watcher path ∷ [] } in
      let c4 = record c3 {
        asking = [];
        fetched = (path, new) ∷ (path, x ∷ old) ∷ [];
        learnt = (path, new) ∷ (path, x ∷ old) ∷ [];
      } in
      let c5 = record c4 {
        globals = store_ring path newer c4.globals;
        fetched = (path, x ∷ old) ∷ [];
      } in
      let c6 = record c5 { globals = store_ring path older c5.globals; fetched = [] } in
      let r1 : Reach c0 c1 = next here (misses path refl refl) in
      let r2 : Reach c0 c2 = next r1 (answers (call path) (x ∷ old) [] [] refl (λ e. cc e) refl) in
      let r3 : Reach c0 c3 = next r2 (reports path refl) in
      let r4 : Reach c0 c4 = next r3 (answers (watcher path) new [] [] refl tt refl) in
      let r5 : Reach c0 c5 = next r4 (stores path new [] ((path, x ∷ old) ∷ []) refl refl) in
      let r6 : Reach c0 c6 = next r5 (stores path (x ∷ old) [] [] refl refl) in
      let self : (path == path) ≡ true = (bytes_beq_iff path path).1 refl in
      (
        c6,
        r6,
        refl,
        find-assign path path older c5.globals.g_route_cache ∙ rw self refl,
        refl,
        refl,
      )
