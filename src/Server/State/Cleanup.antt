-- ===== src/Server/State/Cleanup.antt =====
-- What the end of a connection does to the session in src/bin/neoshd.rs.
use neosh.Prelude.{Uuid, SystemTime, ℕ, ◌≡◌, ◌⊎◌, true, false, Option, none, some, arith}
use neosh.Session.Manager.{
  SessionState, detached, terminated, Session, conditional_stale_cleanup, terminate,
}
use neosh.Server.State.{
  ServerState, CleanupReason, connection_end, explicit_detach, current, finalize_connection_cleanup,
}
use neosh.Server.State.Soundness.{IsSound}

abbrev pub InStateAlone : SessionState → Option Session → Type 0
InStateAlone x none = ⊥
InStateAlone x (some s) = (s.state ≡ x) × (s.attached_conn_id ≡ none)

-- The connection `c` owns the session in the epoch `e`.
abbrev pub Owns : Uuid → ℕ → Option Session → Type 0
Owns c e none = ⊥
Owns c e (some s) = (s.attached_conn_id ≡ some c) × (s.attach_epoch ≡ e)

-- In a sound server, when the connection ends that owns the session in its epoch, the session is
-- detached from `now` on, with no connection attached, unless its terminal has exited and the
-- owner did not ask to detach: then it is terminated, with no detach clock.
pub finalize_owner :
    (st : ServerState) (now : SystemTime) (c : Uuid) (e : ℕ)
    → IsSound st
    → Owns c e (current st)
    → let detaching = finalize_connection_cleanup st now c e explicit_detach in
      let ending = finalize_connection_cleanup st now c e connection_end in
      (InStateAlone detached (current detaching) × (detaching.detached_at ≡ some now))
      × (st.pty_exited ≡ false
          → InStateAlone detached (current ending) × (ending.detached_at ≡ some now))
      × (st.pty_exited ≡ true
          → InStateAlone terminated (current ending) × (ending.detached_at ≡ none))
unfolding finalize_connection_cleanup conditional_stale_cleanup terminate
finalize_owner st now c e v o = (ground arith, λ x. ground arith, λ x. ground arith)

-- When a connection ends that does not own the session in its epoch, nothing changes, unless the
-- terminal has exited and the connection was not detaching.
pub finalize_stranger :
    (st : ServerState) (now : SystemTime) (c : Uuid) (e : ℕ) (reason : CleanupReason)
    → ¬ Owns c e (current st)
    → (st.pty_exited ≡ false) ⊎ (reason ≡ explicit_detach)
    → finalize_connection_cleanup st now c e reason ≡ st
unfolding finalize_connection_cleanup conditional_stale_cleanup
finalize_stranger st now c e explicit_detach o live = ground arith
finalize_stranger st now c e connection_end o live = ground arith
