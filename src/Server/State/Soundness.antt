-- ===== src/Server/State/Soundness.antt =====
-- What holds of a server of src/bin/neoshd.rs between two steps.
use neosh.Prelude.{is_some, Text, Uuid, SystemTime, ℕ, ◌≡◌, true, Option, none, some, arith}
use neosh.Session.Manager.{
  detached, Session, create_session_with_id, conditional_stale_cleanup, terminate, expire,
}
use neosh.Session.Manager.Invariant.{IsConsistent}
use neosh.Server.State.{
  NewArgs, ServerState, CleanupReason, connection_end, explicit_detach, new, current,
  expire_if_detached_timeout, expire_if_initial_attach_timeout, finalize_connection_cleanup,
}

-- The server's session is there, under its id and consistent; a detached session has its clock
-- running, and a running clock means that no connection is attached.
abbrev pub SoundAt : Uuid → Option SystemTime → Option Session → Type 0
SoundAt sid detached_at none = ⊥
SoundAt sid detached_at (some s) =
    (s.session_id ≡ sid)
    × IsConsistent s
    × (s.state ≡ detached → is_some detached_at ≡ true)
    × (is_some detached_at ≡ true → s.attached_conn_id ≡ none)

abbrev pub IsSound : ServerState → Type 0
IsSound st = SoundAt st.session_id st.detached_at (current st)

pub new-IsSound :
    (now : SystemTime) (sid : Uuid) (owner : Text) (uid : ℕ) (addr fp : Text) (cfg : NewArgs)
    → IsSound (new now sid owner uid addr fp cfg)
unfolding new create_session_with_id
new-IsSound now sid owner uid addr fp cfg = ground arith

pub expire_if_detached_timeout-IsSound :
    (st : ServerState) (now : SystemTime)
    → IsSound st
    → IsSound (expire_if_detached_timeout st now).0
unfolding expire_if_detached_timeout expire
expire_if_detached_timeout-IsSound st now v = ground arith

pub expire_if_initial_attach_timeout-IsSound :
    (st : ServerState) (now : SystemTime)
    → IsSound st
    → IsSound (expire_if_initial_attach_timeout st now).0
unfolding expire_if_initial_attach_timeout expire
expire_if_initial_attach_timeout-IsSound st now v = ground arith

pub finalize_connection_cleanup-IsSound :
    (st : ServerState) (now : SystemTime) (c : Uuid) (epoch : ℕ) (reason : CleanupReason)
    → IsSound st
    → IsSound (finalize_connection_cleanup st now c epoch reason)
unfolding finalize_connection_cleanup conditional_stale_cleanup terminate
finalize_connection_cleanup-IsSound st now c epoch explicit_detach v = ground arith
finalize_connection_cleanup-IsSound st now c epoch connection_end v = ground arith
