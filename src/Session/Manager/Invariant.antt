-- ===== src/Session/Manager/Invariant.antt =====
-- What holds of every session that a manager of src/session/manager.rs keeps.
use neosh.Prelude.{
  is_some, Text, Uuid, ◌^◌, ◌<◌, ◌≡◌, true, Option, none, some, List, [], ◌∷◌, arith,
}
use neosh.Session.Manager.{
  created, attached, Session, SessionManager, default, create_session_with_id,
}
use neosh.Session.Manager.Ops.{
  Op, creates, creates_with_id, attaches, detaches, cleans, terminates, expires, step, run,
}

-- A session is attached exactly when it has an owner connection, and a session that was never
-- attached has epoch 0.
pub record IsConsistent (s : Session) : Type 0 where
  pub attached_owner : s.state ≡ attached → is_some s.attached_conn_id ≡ true
  pub owner_attached : is_some s.attached_conn_id ≡ true → s.state ≡ attached
  pub created_epoch : s.state ≡ created → s.attach_epoch ≡ 0
  pub bounded : s.attach_epoch < 2 ^ 64

abbrev pub AtConsistent : Uuid → Option Session → Type 0
AtConsistent sid none = Unit {0}
AtConsistent sid (some s) = (s.session_id ≡ sid) × IsConsistent s

-- Every session is stored under its own id and is consistent.
pub record IsValid (m : SessionManager) : Type 0 where
  pub each : (sid : Uuid) → AtConsistent sid (m.sessions sid)

pub default-IsValid : IsValid default
unfolding default
default-IsValid = record { each = λ sid. tt }

pub create-IsValid :
    (m : SessionManager) (sid : Uuid) (owner addr fp : Text)
    → IsValid m
    → IsValid (create_session_with_id m sid owner addr fp)
unfolding create_session_with_id
create-IsValid m sid owner addr fp v = record { each = λ j. ground (arith, v.each j) }

-- Every operation keeps the manager valid.
pub step-IsValid : (m : SessionManager) (op : Op) → IsValid m → IsValid (step m op)
unfolding step
step-IsValid m (creates i owner addr fp) v = create-IsValid m i owner addr fp v
step-IsValid m (creates_with_id i owner addr fp) v = create-IsValid m i owner addr fp v
step-IsValid m (attaches i c) v = record { each = λ j. ground (arith, v.each j, v.each i) }
step-IsValid m (detaches i c) v = record { each = λ j. ground (arith, v.each j, v.each i) }
step-IsValid m (cleans i c n) v = record { each = λ j. ground (arith, v.each j, v.each i) }
step-IsValid m (terminates i) v = record { each = λ j. ground (arith, v.each j, v.each i) }
step-IsValid m (expires i) v = record { each = λ j. ground (arith, v.each j, v.each i) }

-- A valid manager is valid after every run of operations.
pub run-IsValid : (m : SessionManager) (ops : List Op) → IsValid m → IsValid (run m ops)
unfolding run
run-IsValid m [] v = v
run-IsValid m (op ∷ ops) v = run-IsValid (step m op) ops (step-IsValid m op v)
