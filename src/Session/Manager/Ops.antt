-- ===== src/Session/Manager/Ops.antt =====
-- The operations of `SessionManager` (src/session/manager.rs) as data, and runs of them.
use neosh.Prelude.{
  Option-cases, Text, Uuid, ◌≢◌, ℕ, ◌^◌, ◌≤◌, ◌<◌, ◌≡◌, inl, inr, true, Option, none, some, List,
  [], ◌∷◌, arith,
}
use neosh.Session.Manager.{
  created, Session, SessionManager, is_over, create_session, create_session_with_id,
  attach_exclusive, detach, conditional_stale_cleanup, terminate, expire,
}

-- The calls of the manager's methods that take `&mut self`, on a session that exists or not. For
-- `create_session` the first argument is the id that it draws.
pub data Op : Type 0 where
  creates creates_with_id : Uuid → Text → Text → Text → Op
  attaches : Uuid → Uuid → Op
  detaches : Uuid → Uuid → Op
  cleans : Uuid → Uuid → ℕ → Op
  terminates : Uuid → Op
  expires : Uuid → Op

unfoldable pub step : SessionManager → Op → SessionManager
unfolding create_session create_session_with_id attach_exclusive detach conditional_stale_cleanup
    terminate expire
step m (creates sid owner addr fp) = (create_session m sid owner addr fp).0
step m (creates_with_id sid owner addr fp) = create_session_with_id m sid owner addr fp
step m (attaches sid c) = (attach_exclusive m sid c).0
step m (detaches sid c) = (detach m sid c).0
step m (cleans sid c e) = (conditional_stale_cleanup m sid c e).0
step m (terminates sid) = (terminate m sid).0
step m (expires sid) = (expire m sid).0

unfoldable pub run : SessionManager → List Op → SessionManager
run m [] = m
run m (op ∷ ops) = run (step m op) ops

-- No session is created under the id: a creation overwrites the session that is there.
abbrev pub Spares : Uuid → Op → Type 0
Spares sid (creates j _ _ _) = j ≢ sid
Spares sid (creates_with_id j _ _ _) = j ≢ sid
Spares sid _ = Unit {0}

abbrev pub AllSpare : Uuid → List Op → Type 0
AllSpare sid [] = Unit {0}
AllSpare sid (op ∷ ops) = Spares sid op × AllSpare sid ops

-- What no operation changes of a session but a creation under its id, and what it changes one way only.
pub record Evolves (s t : Session) : Type 0 where
  pub same_id : t.session_id ≡ s.session_id
  pub same_owner : t.owner_user_id ≡ s.owner_user_id
  pub same_addr : t.quic_addr ≡ s.quic_addr
  pub same_fingerprint : t.cert_fingerprint ≡ s.cert_fingerprint
  pub later_epoch : s.attach_epoch ≤ t.attach_epoch
  pub bounded_epoch : t.attach_epoch < 2 ^ 64
  pub stays_over : is_over s.state ≡ true → is_over t.state ≡ true
  pub not_recreated : t.state ≡ created → s.state ≡ created

abbrev pub After : Session → Option Session → Type 0
After s none = ⊥
After s (some t) = Evolves s t

step-After :
    (m : SessionManager) (op : Op) (sid : Uuid) (s : Session)
    → m.sessions sid ≡ some s
    → s.attach_epoch < 2 ^ 64
    → Spares sid op
    → After s ((step m op).sessions sid)
unfolding step
step-After m (creates j owner addr fp) sid s e b p = ground arith
step-After m (creates_with_id j owner addr fp) sid s e b p = ground arith
step-After m (attaches j c) sid s e b p = ground arith
step-After m (detaches j c) sid s e b p = ground arith
step-After m (cleans j c n) sid s e b p = ground arith
step-After m (terminates j) sid s e b p = ground arith
step-After m (expires j) sid s e b p = ground arith

-- The session is there and its epoch is at least `n`.
abbrev pub EpochFrom : ℕ → Option Session → Type 0
EpochFrom n none = ⊥
EpochFrom n (some s) = (n ≤ s.attach_epoch) × (s.attach_epoch < 2 ^ 64)

pub run-EpochFrom :
    (m : SessionManager) (ops : List Op) (sid : Uuid) (n : ℕ)
    → AllSpare sid ops
    → EpochFrom n (m.sessions sid)
    → EpochFrom n ((run m ops).sessions sid)
unfolding run
run-EpochFrom m [] sid n p h = h
run-EpochFrom m (op ∷ ops) sid n (p, ps) h = elim (Option-cases (m.sessions sid)) [
  | inl x ↦ absurd (rw x at h)
  | inr (s, x) ↦ run-EpochFrom (step m op) ops sid n ps (ground (arith, h, step-After m op sid s x))
]
