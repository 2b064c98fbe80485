-- ===== src/Session/Manager.antt =====
-- src/session/manager.rs: the sessions of a server and who is attached to each. A method that
-- takes `&mut self` returns the new manager beside its result. `Uuid::new_v4()` is an argument.
pub mod Ops
pub mod Invariant
pub mod Exclusion
pub mod Refinement
use neosh.Prelude.{
  ◌==◌, if◌then◌else◌, is_some, is_value, Result, ok, err, ◌>>=◌, ◌>>◌, ok_or, Text, text_eq, Uuid,
  empty, insert, saturating_add, ℕ, Bool, true, false, not, ◌&&◌, Option, none, some,
}

pub data SessionState : Type 0 where
  created attached detached expired terminated : SessionState

pub record Session : Type 0 where
  pub session_id : Uuid
  pub owner_user_id : Text
  pub quic_addr : Text
  pub cert_fingerprint : Text
  pub state : SessionState
  pub attached_conn_id : Option Uuid
  pub attach_epoch : ℕ

pub data SessionError : Type 0 where
  not_found attach_denied invalid_state permission_denied : SessionError

pub record SessionManager : Type 0 where
  pub sessions : Uuid → Option Session

-- `SessionManager::default()`.
unfoldable pub default : SessionManager
default = record { sessions = empty }

-- `Expired | Terminated`.
abbrev pub is_over : SessionState → Bool
is_over expired = true
is_over terminated = true
is_over _ = false

abbrev pub new_session : Uuid → Text → Text → Text → Session
new_session session_id owner_user_id quic_addr cert_fingerprint = record {
  session_id = session_id;
  owner_user_id = owner_user_id;
  quic_addr = quic_addr;
  cert_fingerprint = cert_fingerprint;
  state = created;
  attached_conn_id = none;
  attach_epoch = 0;
}

abbrev pub put : SessionManager → Uuid → Session → SessionManager
put m session_id s = record { sessions = insert session_id s m.sessions }

unfoldable pub create_session_with_id : SessionManager → Uuid → Text → Text → Text → SessionManager
create_session_with_id m session_id owner_user_id quic_addr cert_fingerprint =
    put m session_id (new_session session_id owner_user_id quic_addr cert_fingerprint)

-- `new_id` is what `Uuid::new_v4()` gives.
unfoldable pub create_session : SessionManager → Uuid → Text → Text → Text → SessionManager × Uuid
unfolding create_session_with_id
create_session m new_id owner_user_id quic_addr cert_fingerprint =
    (create_session_with_id m new_id owner_user_id quic_addr cert_fingerprint, new_id)

unfoldable pub session : SessionManager → Uuid → Option Session
session m session_id = m.sessions session_id

unfoldable pub assert_owner : SessionManager → Uuid → Text → Result SessionError (Unit {0})
assert_owner m session_id user_id = do
  s ← ok_or (m.sessions session_id) not_found
  if text_eq s.owner_user_id user_id then ok tt else err permission_denied

unfoldable pub attach_exclusive :
    SessionManager → Uuid → Uuid → SessionManager × Result SessionError ℕ
attach_exclusive m session_id conn_id = elim (m.sessions session_id) [
  | none ↦ (m, err not_found)
  | some s ↦
      if is_over s.state
      then (m, err invalid_state)
      else (if is_some s.attached_conn_id then (m, err attach_denied) else (
        put m session_id (record s {
          state = attached;
          attached_conn_id = some conn_id;
          attach_epoch = saturating_add s.attach_epoch 1;
        }),
        ok (saturating_add s.attach_epoch 1),
      ))
]

-- What `detach` and `conditional_stale_cleanup` do to a session.
abbrev pub release : Session → Session
release s = record s {
  state = if is_over s.state then s.state else detached;
  attached_conn_id = none;
}

unfoldable pub detach :
    SessionManager → Uuid → Uuid → SessionManager × Result SessionError (Unit {0})
detach m session_id conn_id = elim (m.sessions session_id) [
  | none ↦ (m, err not_found)
  | some s ↦
      if not (is_value s.attached_conn_id conn_id)
      then (m, err attach_denied)
      else (put m session_id (release s), ok tt)
]

unfoldable pub conditional_stale_cleanup : SessionManager → Uuid → Uuid → ℕ → SessionManager × Bool
conditional_stale_cleanup m session_id conn_id epoch = elim (m.sessions session_id) [
  | none ↦ (m, false)
  | some s ↦
      if is_value s.attached_conn_id conn_id && s.attach_epoch == epoch
      then (put m session_id (release s), true)
      else (m, false)
]

unfoldable pub terminate : SessionManager → Uuid → SessionManager × Result SessionError (Unit {0})
terminate m session_id = elim (m.sessions session_id) [
  | none ↦ (m, err not_found)
  | some s ↦ (put m session_id (record s { state = terminated; attached_conn_id = none }), ok tt)
]

unfoldable pub expire : SessionManager → Uuid → SessionManager × Result SessionError (Unit {0})
expire m session_id = elim (m.sessions session_id) [
  | none ↦ (m, err not_found)
  | some s ↦ (put m session_id (record s { state = expired; attached_conn_id = none }), ok tt)
]
