-- ===== src/Channel/Task.antt =====
-- The task of src/mprpcchannel.cc: what becomes of the connection, the closure and the error.
use mprpc_advanced_z.Base.{
  ℕ, suc, ◌≡◌, refl, List, [], ◌∷◌, Option, none, some, Bool, true, arith, if◌then◌else◌,
  Option-cases, inl, inr, ◌⊎◌,
}
use mprpc_advanced_z.Base.Bytes.{Bytes}
use mprpc_advanced_z.Controller.{Controller, set_failed}
use mprpc_advanced_z.Wire.{HeaderCodec}
use mprpc_advanced_z.Channel.{
  Request, Globals, Prepared, gave_up, ready, prepare, Action, closed, released, ran_done, World,
  rpc_task, call_method,
}

-- How often the closure has run.
unfoldable pub done_runs : List Action → ℕ
done_runs [] = 0
done_runs (closed fd ∷ as') = done_runs as'
done_runs (released ip port fd ∷ as') = done_runs as'
done_runs (ran_done ∷ as') = suc (done_runs as')

-- The connections given up, to the system or to the pool, before the closure first runs.
unfoldable pub settled_before_done : List Action → List ℕ
settled_before_done [] = []
settled_before_done (closed fd ∷ as') = fd ∷ settled_before_done as'
settled_before_done (released ip port fd ∷ as') = fd ∷ settled_before_done as'
settled_before_done (ran_done ∷ as') = []

-- The connections handed back to the pool.
unfoldable pub pooled : List Action → List ℕ
pooled [] = []
pooled (closed fd ∷ as') = pooled as'
pooled (released ip port fd ∷ as') = fd ∷ pooled as'
pooled (ran_done ∷ as') = pooled as'

abbrev pub one_if : Bool → ℕ
one_if b = if b then 1 else 0

abbrev pub as_list {ℓ} : {A : Type ℓ} → Option A → List A
as_list none = []
as_list (some a) = a ∷ []

pub Prepared-cases :
    (p : Prepared)
    → ((reason : Bytes) × (p ≡ gave_up reason))
      ⊎ ((ip : Bytes) × (port : ℕ) × (message : Bytes) × (p ≡ ready ip port message))
Prepared-cases (gave_up reason) = inl (reason, refl)
Prepared-cases (ready ip port message) = inr (ip, port, message, refl)

module _ {ℓ} {Response : Type ℓ} where
  -- The response is the parse of what came over the connection.
  abbrev pub Answers : World Response → Response → Type ℓ
  Answers w r =
      (fd : ℕ) × (n : ℕ) × (bytes : Bytes) × (w.connection ≡ some fd)
      × (w.sent ≡ some n)
      × (w.received ≡ some bytes)
      × (w.parse_response bytes ≡ some r)

  pub rpc_task_settles :
      (w : World Response) (ip : Bytes) (port : ℕ) (done : Bool) (c : Controller)
      → (settled_before_done (rpc_task w ip port done c).actions ≡ as_list w.connection)
        × (done_runs (rpc_task w ip port done c).actions ≡ one_if done)
  unfolding rpc_task done_runs settled_before_done
  rpc_task_settles w ip port done c = ground arith

  -- Either the task reports a failure and no response, or it leaves the controller alone and the
  -- response is the parse of the received bytes, with the connection back in the pool.
  rpc_task_reports :
      (w : World Response) (ip : Bytes) (port : ℕ) (done : Bool) (c : Controller)
      → let f = rpc_task w ip port done c in
        ((f.controller.m_failed ≡ true) × (f.response ≡ none))
        ⊎ ((f.controller ≡ c)
            × (pooled f.actions ≡ as_list w.connection)
            × ((r : Response) × (f.response ≡ some r) × Answers w r))
  unfolding rpc_task pooled
  rpc_task_reports w ip port done c = elim (Option-cases w.connection) [
    | inl e ↦ inl (ground arith)
    | inr (fd, e) ↦ elim (Option-cases w.sent) [
      | inl f ↦ inl (ground arith)
      | inr (n, f) ↦ elim (Option-cases w.received) [
        | inl g ↦ inl (ground arith)
        | inr (bytes, g) ↦ elim (Option-cases (w.parse_response bytes)) [
          | inl h ↦ inl (ground arith)
          | inr (r, h) ↦
              inr (ground arith, ground arith, (r, ground arith, (fd, n, bytes, e, f, g, h)))
        ]
      ]
    ]
  ]

  module _ (hash_fn : Bytes → ℕ) (codec : HeaderCodec)
      (get_children : Bytes → Option (List Bytes)) where
    -- CallMethod runs the closure exactly when it gets as far as the task: a call that gives up
    -- before is reported in the controller alone, and its closure never runs.
    pub call_method_done :
        (s m : Bytes) (request : Request) (w : World Response) (done : Bool) (c : Controller)
        (g : Globals)
        → let p = prepare hash_fn codec get_children s m request g in
          let f = (call_method hash_fn codec get_children s m request w done c g).0 in
          ((reason : Bytes) × (p.0 ≡ gave_up reason)
            × (f.controller ≡ record { m_failed = true; m_err_text = reason })
            × (f.response ≡ none)
            × (f.actions ≡ []))
          ⊎ (((ip : Bytes) × (port : ℕ) × (message : Bytes) × (p.0 ≡ ready ip port message))
              × (done_runs f.actions ≡ one_if done))
    unfolding call_method set_failed
    call_method_done s m request w done c g =
        elim (Prepared-cases (prepare hash_fn codec get_children s m request g).0) [
          | inl (reason, e) ↦ inl (reason, e, ground arith, ground arith, ground arith)
          | inr (ip, port, message, e) ↦
              inr ((ip, port, message, e), ground (arith, rpc_task_settles w ip port done c))
        ]
