-- ===== src/Tests/Registrations.antt =====
-- Runs of the registration in src/rpcprovider.cc, against a set of paths.
use mprpc_advanced_z.Base.{
  ◌≡◌, ◌+◌, not, refl, sym, ap, List, [], ◌∷◌, none, some, Bool, true, false, ◌||◌, ◌==◌,
  if◌then◌else◌, Bool-cases, inl, inr, arith,
}
use mprpc_advanced_z.Base.Bytes.{Bytes, codes, bytes_beq, bytes_eq}
use mprpc_advanced_z.Base.Decimal.{to_string}
use mprpc_advanced_z.Base.Maps.{find}
use mprpc_advanced_z.Provider.{ServiceMap}
use mprpc_advanced_z.Registration.{zok, znonode, ZooKeeper, register}
use mprpc_advanced_z.Registration.Session.{
  Session, waits, started, initialised, fresh, global_watcher, Reach, here, next, opens, sets,
  wakes, watches, taken, is_waiting, Reach-fresh-connects,
}
use mprpc_advanced_z.Registration.Published.{HasMethod, Answering, register-HasMethod}
use mprpc_advanced_z.Tests.Messages.{echo}

abbrev pub has_path : Bytes → List Bytes → Bool
has_path path [] = false
has_path path (p ∷ ps) = path == p || has_path path ps

pub exists-has :
    (path : Bytes) (z : List Bytes)
    → (if has_path path z then zok else znonode) ≡ zok
    → has_path path z ≡ true
exists-has path z e = elim (Bool-cases (has_path path z)) [
  | inl b ↦ b
  | inr b ↦ absurd (ground (arith, b, e))
]

pub create-has :
    (path : Bytes) (ephemeral : Bool) (z z' : List Bytes)
    → some (path ∷ z) ≡ some z'
    → (q : Bytes) → has_path q z' ≡ (q == path || has_path q z)
create-has path ephemeral z z' e q =
    let same : path ∷ z ≡ z' = ground (arith, e) in ap (has_path q) (sym same)

abbrev paths : ZooKeeper
paths = record {
  Z = List Bytes;
  has = has_path;
  zoo_exists = λ path z. if has_path path z then zok else znonode;
  zoo_create = λ path ephemeral z. some (path ∷ z);
  zoo_get = λ path z. none;
  zoo_get_children = λ path z. none;
  zoo_exists-has = exists-has;
  zoo_create-has = create-has;
}

paths-Answering : Answering paths
paths-Answering path z e = elim (Bool-cases (has_path path z)) [
  | inl b ↦ ground (arith, b, e)
  | inr b ↦ ground (arith, b, e)
]

abbrev services : ServiceMap echo
services =
    (codes "Echo", record { m_service = tt; m_method_map = (codes "Say", codes "Say") ∷ [] }) ∷ []

abbrev nodes : List Bytes
nodes = codes "/Echo/Say/a:80" ∷ codes "/Echo/Say" ∷ codes "/Echo" ∷ []

register-HasMethod_example : HasMethod paths echo (codes "a") 80 (codes "/Echo") (codes "Say") nodes
unfolding find bytes_beq register to_string
register-HasMethod_example =
    register-HasMethod paths echo (codes "a") 80 paths-Answering services [] nodes refl
      (codes "Echo") (record { m_service = tt; m_method_map = (codes "Say", codes "Say") ∷ [] })
      (codes "Say") (codes "Say") refl refl

-- Start has returned after the session was connected once.
abbrev opened_session : Session
opened_session = record fresh { stage = initialised }

abbrev waiting_session : Session
waiting_session = record opened_session { stage = waits; context = true; sem = 0 }

abbrev posted_session : Session
posted_session = record waiting_session { sem = 1; told = 1 }

abbrev returned_session : Session
returned_session = record posted_session { stage = started; sem = 0 }

returned_session-Reach : Reach fresh returned_session
unfolding global_watcher
returned_session-Reach =
    let r1 : Reach fresh opened_session = next here (opens refl refl) in
    let r2 : Reach fresh waiting_session = next r1 (sets refl refl) in
    let r3 : Reach fresh posted_session = next r2 (watches true true refl refl) in
    next r3 (wakes refl (omega arith) refl)

Reach-fresh-connects_example :
    (returned_session.told ≡ returned_session.sem + taken returned_session.stage)
    × ((global_watcher true true returned_session).corrupt
        ≡ not (is_waiting returned_session.stage))
Reach-fresh-connects_example = Reach-fresh-connects returned_session returned_session-Reach refl
