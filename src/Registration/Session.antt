-- ===== src/Registration/Session.antt =====
-- src/zookeeperutil.cc: Start and the watcher that tells it of the session, on two threads of the
-- program. The client of ZooKeeper calls the watcher at any time after zookeeper_init.
use mprpc_advanced_z.Base.{
  ℕ, ◌+◌, ◌<◌, ◌≡◌, refl, sym, ap, subst, ◌∙◌, Bool, true, false, ◌&&◌, not, ◌||◌, ◌-◌,
  if◌then◌else◌, arith, Bool-cases, inl, inr,
}

-- Where Start is: before zookeeper_init, behind it, in sem_wait, behind its last line, in exit, or behind
-- ~ZkClient.
pub data Stage : Type 0 where
  starts : Stage
  initialised : Stage
  waits : Stage
  started : Stage
  exited : Stage
  closed : Stage

-- Start has returned, and its semaphore is gone with its frame.
abbrev pub has_returned : Stage → Bool
has_returned starts = false
has_returned initialised = false
has_returned waits = false
has_returned started = true
has_returned exited = false
has_returned closed = true

-- m_zhandle is a session of the client, which can call the watcher.
abbrev pub is_open : Stage → Bool
is_open starts = false
is_open initialised = true
is_open waits = true
is_open started = true
is_open exited = false
is_open closed = false

-- The handle's context (whether zoo_set_context has been called), the value of the semaphore, how often
-- the watcher has been told that the session is connected, and whether it has posted through NULL or to a
-- semaphore that is gone.
pub record Session : Type 0 where
  pub stage : Stage
  pub context : Bool
  pub sem : ℕ
  pub told : ℕ
  pub corrupt : Bool

abbrev pub fresh : Session
fresh = record { stage = starts; context = false; sem = 0; told = 0; corrupt = false }

-- `sem_post` of what zoo_get_context returns.
unfoldable pub sem_post : Session → Session
sem_post s =
    if s.context && not (has_returned s.stage)
    then record s { sem = s.sem + 1 }
    else record s { corrupt = true }

-- global_watcher, by whether its `type` is ZOO_SESSION_EVENT and its `state` is ZOO_CONNECTED_STATE.
unfoldable pub global_watcher : Bool → Bool → Session → Session
unfolding sem_post
global_watcher is_session is_connected s =
    let posted = sem_post (record s { told = s.told + 1 }) in
    if is_session then (if is_connected then posted else s) else s

-- One turn: Start up to its next call, or the watcher.
pub data Step (s t : Session) : Type 0 where
  fails : s.stage ≡ starts → t ≡ record s { stage = exited } → Step s t
  opens : s.stage ≡ starts → t ≡ record s { stage = initialised } → Step s t
  sets : s.stage ≡ initialised → t ≡ record s { stage = waits; context = true; sem = 0 } → Step s t
  wakes : s.stage ≡ waits → 0 < s.sem → t ≡ record s { stage = started; sem = s.sem - 1 } → Step s t
  closes : s.stage ≡ started → t ≡ record s { stage = closed } → Step s t
  watches :
      (is_session is_connected : Bool)
      → is_open s.stage ≡ true
      → t ≡ global_watcher is_session is_connected s
      → Step s t

pub data Reach (s : Session) : Session → Type 0 where
  here : Reach s s
  next : {t u : Session} → Reach s t → Step t u → Reach s u

-- How many posts Start has waited for.
abbrev pub taken : Stage → ℕ
taken starts = 0
taken initialised = 0
taken waits = 0
taken started = 1
taken exited = 0
taken closed = 1

-- Whether the context has been set before the stage is reached.
abbrev has_context : Stage → Bool
has_context starts = false
has_context initialised = false
has_context waits = true
has_context started = true
has_context exited = false
has_context closed = true

abbrev pub is_waiting : Stage → Bool
is_waiting starts = false
is_waiting initialised = false
is_waiting waits = true
is_waiting started = false
is_waiting exited = false
is_waiting closed = false

-- Each call for a connected session is a post that Start has taken or that waits for it, unless one has
-- gone astray.
record IsCounted (s : Session) : Type 0 where
  context : s.context ≡ has_context s.stage
  posts : s.corrupt ≡ false → s.told ≡ s.sem + taken s.stage
  empty : s.context ≡ false → s.sem ≡ 0

can_post : (c : Stage) → (has_context c && not (has_returned c)) ≡ is_waiting c
can_post starts = refl
can_post initialised = refl
can_post waits = refl
can_post started = refl
can_post exited = refl
can_post closed = refl

-- A call for a connected session goes astray unless Start is in sem_wait.
astray :
    (s : Session)
    → s.context ≡ has_context s.stage
    → (global_watcher true true s).corrupt ≡ (s.corrupt || not (is_waiting s.stage))
unfolding global_watcher sem_post
astray s e = elim (Bool-cases (s.context && not (has_returned s.stage))) [
  | inl b ↦
      let w : is_waiting s.stage ≡ true =
        sym (can_post s.stage) ∙ (ap (λ (x : Bool). x && not (has_returned s.stage)) (sym e) ∙ b) in
      rw b (ground arith)
  | inr b ↦
      let w : is_waiting s.stage ≡ false =
        sym (can_post s.stage) ∙ (ap (λ (x : Bool). x && not (has_returned s.stage)) (sym e) ∙ b) in
      rw b (ground arith)
]

watched-IsCounted :
    (is_session is_connected : Bool) (s : Session)
    → IsCounted s
    → IsCounted (global_watcher is_session is_connected s)
unfolding global_watcher sem_post
watched-IsCounted false c s v = v
watched-IsCounted true false s v = v
watched-IsCounted true true s v = elim (Bool-cases (s.context && not (has_returned s.stage))) [
  | inl b ↦ rw b record {
    context = v.context;
    posts = λ h. omega (arith, v.posts h);
    empty = λ h. absurd (ground (arith, b, h));
  }
  | inr b ↦ rw b record { context = v.context; posts = λ h. absurd (cc h); empty = v.empty }
]

-- A stage that has as many posts taken, and the context or not, as the one before.
moved-IsCounted :
    (s : Session) (c : Stage)
    → IsCounted s
    → has_context s.stage ≡ has_context c
    → taken s.stage ≡ taken c
    → IsCounted (record s { stage = c })
moved-IsCounted s c v same taken_same = record {
  context = v.context ∙ same;
  posts = λ h. omega (arith, v.posts h, taken_same);
  empty = v.empty;
}

Step-IsCounted : (s t : Session) → Step s t → IsCounted s → IsCounted t
Step-IsCounted s t (fails a e) v =
    subst IsCounted (sym e) (moved-IsCounted s exited v (ap has_context a) (ap taken a))
Step-IsCounted s t (opens a e) v =
    subst IsCounted (sym e) (moved-IsCounted s initialised v (ap has_context a) (ap taken a))
Step-IsCounted s t (sets a e) v =
    let unset : s.context ≡ false = v.context ∙ ap has_context a in
    subst IsCounted (sym e) record {
      context = refl;
      posts = λ h. omega (arith, v.posts h, v.empty unset, ap taken a);
      empty = λ h. absurd (cc h);
    }
Step-IsCounted s t (wakes a n e) v = subst IsCounted (sym e) record {
  context = v.context ∙ ap has_context a;
  posts = λ h. omega (arith, v.posts h, n, ap taken a);
  empty = λ h. absurd (let set : s.context ≡ true = v.context ∙ ap has_context a in cc (h, set));
}
Step-IsCounted s t (closes a e) v =
    subst IsCounted (sym e) (moved-IsCounted s closed v (ap has_context a) (ap taken a))
Step-IsCounted s t (watches is_session is_connected o e) v =
    subst IsCounted (sym e) (watched-IsCounted is_session is_connected s v)

Reach-IsCounted : (s t : Session) → Reach s t → IsCounted s → IsCounted t
Reach-IsCounted s t here v = v
Reach-IsCounted s t (next r p) v = Step-IsCounted _ t p (Reach-IsCounted s _ r v)

fresh-IsCounted : IsCounted fresh
fresh-IsCounted = record { context = refl; posts = λ e. refl; empty = λ e. refl }

-- As long as no post has gone astray, and whatever the order of Start and the watcher, the watcher has
-- been told of a connected session as often as the semaphore says, and once more when Start has
-- returned: Start does not return before it, and can return as soon as it has happened. The watcher's
-- next call for a connected session posts through NULL or to a semaphore that is gone exactly when it
-- finds Start outside of its wait: between zookeeper_init and zoo_set_context, or behind its return, when
-- a lost connection has been made again.
pub Reach-fresh-connects :
    (s : Session)
    → Reach fresh s
    → s.corrupt ≡ false
    → (s.told ≡ s.sem + taken s.stage)
      × ((global_watcher true true s).corrupt ≡ not (is_waiting s.stage))
Reach-fresh-connects s r h =
    let v = Reach-IsCounted fresh s r fresh-IsCounted in
    (v.posts h, astray s v.context ∙ ap (λ b. b || not (is_waiting s.stage)) h)
