-- ===== src/Server/State/Timeouts.antt =====
-- When a server of src/bin/neoshd.rs gives up on its session.
use neosh.Prelude.{
  is_some, SystemTime, Duration, ◌+◌, ◌≤◌, ◌≡◌, ◌≢◌, ◌↔◌, true, false, Option, none, some, arith,
}
use neosh.Session.Manager.{SessionState, created, expired, Session, expire}
use neosh.Server.State.{
  ServerState, current, expire_if_detached_timeout, expire_if_initial_attach_timeout,
}
use neosh.Server.State.Soundness.{IsSound}

abbrev pub Attached : Option Session → Type 0
Attached none = ⊥
Attached (some s) = is_some s.attached_conn_id ≡ true

abbrev pub InState : SessionState → Option Session → Type 0
InState x none = ⊥
InState x (some s) = s.state ≡ x

-- The clock of a detached session: its timeout is on, it is detached since `t`, and the timeout has
-- passed since.
abbrev pub Overdue : Duration → Option SystemTime → SystemTime → Type 0
Overdue timeout none now = ⊥
Overdue timeout (some t) now = (timeout ≢ 0) × (t + timeout ≤ now)

-- In a sound server, the check for a detached session fires exactly when its timeout is on and has
-- passed since the detach clock started; it then leaves the session expired, and it never fires
-- while a connection is attached. Where it does not fire it changes nothing.
pub expire_if_detached_timeout_iff :
    (st : ServerState) (now : SystemTime)
    → IsSound st
    → (((expire_if_detached_timeout st now).1 ≡ true)
        ↔ Overdue st.session_timeout st.detached_at now)
      × ((expire_if_detached_timeout st now).1 ≡ true
          → InState expired (current (expire_if_detached_timeout st now).0))
      × (Attached (current st) → (expire_if_detached_timeout st now).1 ≡ false)
      × ((expire_if_detached_timeout st now).1 ≡ false → (expire_if_detached_timeout st now).0 ≡ st)
unfolding expire_if_detached_timeout expire
expire_if_detached_timeout_iff st now v = (ground arith, ground arith, ground arith, ground arith)

-- In a sound server, the check for a session that nobody has attached to yet fires exactly when
-- its timeout is on, the session is still `created`, and the timeout has passed since the server
-- started; it then leaves the session expired, and where it does not fire it changes nothing.
pub expire_if_initial_attach_timeout_iff :
    (st : ServerState) (now : SystemTime)
    → IsSound st
    → (((expire_if_initial_attach_timeout st now).1 ≡ true) ↔ (
        InState created (current st)
        × (st.initial_attach_timeout ≢ 0)
        × (st.created_at + st.initial_attach_timeout ≤ now)))
      × ((expire_if_initial_attach_timeout st now).1 ≡ true
          → InState expired (current (expire_if_initial_attach_timeout st now).0))
      × ((expire_if_initial_attach_timeout st now).1 ≡ false
          → (expire_if_initial_attach_timeout st now).0 ≡ st)
unfolding expire_if_initial_attach_timeout expire
expire_if_initial_attach_timeout_iff st now v = (ground arith, ground arith, ground arith)
