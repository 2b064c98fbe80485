-- ===== src/Session/Manager/Refinement.antt =====
-- What src/session/manager.rs promises of one id: a lock that one connection holds, with the count of
-- its grants as the epoch, and that a creation puts a new lock in place of whatever was there; and that
-- the manager implements it.
use neosh.Prelude.{
  ◌==◌, if◌then◌else◌, Bool-cases, ok, err, Uuid, saturating_add, ℕ, ◌≡◌, refl, ap, ◌≢◌, inl, inr,
  Bool, true, false, ◌&&◌, Option, none, some, List, [], ◌∷◌, arith,
}
use neosh.Session.Manager.{
  Session, SessionError, not_found, attach_denied, invalid_state, SessionManager, is_over,
  create_session, attach_exclusive, detach, conditional_stale_cleanup, terminate, expire,
}
use neosh.Session.Manager.Ops.{
  Op, creates, creates_with_id, attaches, detaches, cleans, terminates, expires, step,
}
use neosh.Session.Manager.Invariant.{AtConsistent, IsValid, step-IsValid}

-- No lock; the lock, free or held, with the number of the last grant; or closed, until it is made anew.
pub data Lock : Type 0 where
  absent : Lock
  free : ℕ → Lock
  held : Uuid → ℕ → Lock
  over : Lock

pub data Answer : Type 0 where
  granted : ℕ → Answer
  failed : SessionError → Answer
  finished : Answer
  cleaned : Bool → Answer
  made : Uuid → Answer

-- What the lock does at each call.
abbrev pub lock_step : Lock → Op → Lock × Answer
lock_step l (creates sid _ _ _) = (free 0, made sid)
lock_step l (creates_with_id _ _ _ _) = (free 0, finished)
lock_step absent (attaches _ c) = (absent, failed not_found)
lock_step absent (detaches _ c) = (absent, failed not_found)
lock_step absent (cleans _ c e) = (absent, cleaned false)
lock_step absent (terminates _) = (absent, failed not_found)
lock_step absent (expires _) = (absent, failed not_found)
lock_step (free n) (attaches _ c) = (held c (saturating_add n 1), granted (saturating_add n 1))
lock_step (held d n) (attaches _ c) = (held d n, failed attach_denied)
lock_step over (attaches _ c) = (over, failed invalid_state)
lock_step (held d n) (detaches _ c) =
    if d == c then (free n, finished) else (held d n, failed attach_denied)
lock_step l (detaches _ c) = (l, failed attach_denied)
lock_step (held d n) (cleans _ c e) =
    if (d == c) && (n == e) then (free n, cleaned true) else (held d n, cleaned false)
lock_step l (cleans _ c e) = (l, cleaned false)
lock_step l (terminates _) = (over, finished)
lock_step l (expires _) = (over, finished)

-- What is stored under an id, as the lock that it stands for.
abbrev pub lock_of : Option Session → Lock
lock_of none = absent
lock_of (some s) =
    if is_over s.state
    then over
    else elim s.attached_conn_id [ none ↦ free s.attach_epoch | some c ↦ held c s.attach_epoch ]

abbrev pub target : Op → Uuid
target (creates sid _ _ _) = sid
target (creates_with_id sid _ _ _) = sid
target (attaches sid _) = sid
target (detaches sid _) = sid
target (cleans sid _ _) = sid
target (terminates sid) = sid
target (expires sid) = sid

-- The manager's own answer to a call.
unfoldable pub answer_to : SessionManager → Op → Answer
unfolding create_session attach_exclusive detach conditional_stale_cleanup terminate expire
answer_to m (creates sid owner addr fp) = made (create_session m sid owner addr fp).1
answer_to m (creates_with_id sid owner addr fp) = finished
answer_to m (attaches sid c) = elim (attach_exclusive m sid c).1 [
  | ok e ↦ granted e
  | err x ↦ failed x
]
answer_to m (detaches sid c) = elim (detach m sid c).1 [ ok _ ↦ finished | err x ↦ failed x ]
answer_to m (cleans sid c e) = cleaned (conditional_stale_cleanup m sid c e).1
answer_to m (terminates sid) = elim (terminate m sid).1 [ ok _ ↦ finished | err x ↦ failed x ]
answer_to m (expires sid) = elim (expire m sid).1 [ ok _ ↦ finished | err x ↦ failed x ]

-- The answers to the calls on one id, of the manager and of the lock.
unfoldable pub answers : SessionManager → Uuid → List Op → List Answer
unfolding answer_to
answers m sid [] = []
answers m sid (op ∷ ops) =
    let rest = answers (step m op) sid ops in
    if target op == sid then answer_to m op ∷ rest else rest

unfoldable pub lock_answers : Lock → Uuid → List Op → List Answer
lock_answers l sid [] = []
lock_answers l sid (op ∷ ops) =
    let same = lock_answers l sid ops in
    let rest = lock_answers (lock_step l op).0 sid ops in
    if target op == sid then (lock_step l op).1 ∷ rest else same

module _ (m : SessionManager) (sid : Uuid) (v : AtConsistent sid (m.sessions sid)) where
  step-lock_of :
      (op : Op)
      → target op ≡ sid
      → (lock_of ((step m op).sessions sid) ≡ (lock_step (lock_of (m.sessions sid)) op).0)
        × (answer_to m op ≡ (lock_step (lock_of (m.sessions sid)) op).1)
  unfolding step answer_to
  step-lock_of (creates j owner addr fp) t = ground arith
  step-lock_of (creates_with_id j owner addr fp) t = ground arith
  step-lock_of (attaches j c) t = ground arith
  step-lock_of (detaches j c) t = ground arith
  step-lock_of (cleans j c e) t = ground arith
  step-lock_of (terminates j) t = ground arith
  step-lock_of (expires j) t = ground arith

  step-other : (op : Op) → target op ≢ sid → (step m op).sessions sid ≡ m.sessions sid
  unfolding step
  step-other (creates j owner addr fp) t = ground arith
  step-other (creates_with_id j owner addr fp) t = ground arith
  step-other (attaches j c) t = ground arith
  step-other (detaches j c) t = ground arith
  step-other (cleans j c e) t = ground arith
  step-other (terminates j) t = ground arith
  step-other (expires j) t = ground arith

-- The manager implements the lock: over every run of the calls that take `&mut self`, creations
-- included, from sessions that are stored under their ids and consistent, the answers to the calls
-- on an id are those of the lock that stood for it at the start; a creation under the id puts a
-- new and free lock in its place, whoever holds the old one.
pub answers_refine :
    (m : SessionManager) (sid : Uuid) (ops : List Op)
    → IsValid m
    → answers m sid ops ≡ lock_answers (lock_of (m.sessions sid)) sid ops
unfolding answers lock_answers
answers_refine m sid [] v = refl
answers_refine m sid (op ∷ ops) v =
    let rest = answers_refine (step m op) sid ops (step-IsValid m op v) in
    elim (Bool-cases (target op == sid)) [
      | inr e ↦ rw e (rw (step-other m sid (v.each sid) op (λ q. ground (arith, e, q))) at rest)
      | inl e ↦
          let one = step-lock_of m sid (v.each sid) op (ground (arith, e)) in
          rw e (rw (one.1, ← one.0) (ap (◌∷◌ (lock_step (lock_of (m.sessions sid)) op).1) rest))
    ]
