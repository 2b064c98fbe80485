-- ===== src/Server/Loops.antt =====
-- The other loops of src/bin/neoshd.rs that touch the server's state: one round of the accept loop,
-- one request to the renewal socket, and one tick of the token sweeper.
use neosh.Prelude.{
  ◌==◌, if◌then◌else◌, Result, ok, err, Text, codes, text_eq, Uuid, SystemTime, from_secs, ℕ, ◌≡◌,
  ◌↔◌, not, Option, none, some, ◌++◌, arith,
}
use neosh.Token.Service.{Draw}
use neosh.Session.Manager.{SessionState}
use neosh.Server.State.{
  detached_session_timeout, initial_attach_timeout, BootstrapOutput, ServerState,
  AcceptLoopStopReason, current, bootstrap_output, expire_if_detached_timeout,
  expire_if_initial_attach_timeout, server_stop_reason, sweep_tokens,
}
use neosh.Server.State.Soundness.{
  expire_if_initial_attach_timeout-IsSound, expire_if_detached_timeout-IsSound, IsSound,
}
use neosh.Server.State.Timeouts.{
  expire_if_initial_attach_timeout_iff, expire_if_detached_timeout_iff, InState,
}

-- The checks at the head of `run_quic_accept_loop`: the state after them, and why the loop stops.
unfoldable pub accept_checks :
    ServerState → SystemTime → SystemTime → ServerState × Option AcceptLoopStopReason
accept_checks st now later =
    let first = expire_if_initial_attach_timeout st now in
    let second = expire_if_detached_timeout first.0 later in
    if first.1
    then (first.0, some initial_attach_timeout)
    else (if second.1
        then (second.0, some detached_session_timeout)
        else (second.0, server_stop_reason second.0))

-- What `serde_json` reads from a request to the renewal socket.
pub record RenewIpcReq : Type 0 where
  pub session_id : Uuid
  pub user : Text

pub data IpcResponse : Type 0 where
  refused : Text → IpcResponse
  renewed : BootstrapOutput → IpcResponse

-- The response of `run_ipc_server` to a request from a process of the user `peer_uid`.
unfoldable pub ipc_response :
    (Text → ℕ) → ServerState → ℕ → Result Text RenewIpcReq → Draw → ServerState × IpcResponse
ipc_response hash st peer_uid (err e) d = (st, refused (codes "bad request: " ++ e))
ipc_response hash st peer_uid (ok req) d =
    if not (peer_uid == st.owner_uid)
    then (st, refused (codes "permission denied"))
    else (if not (req.session_id == st.session_id)
        then (st, refused (codes "session_id mismatch"))
        else (if not (text_eq req.user st.owner_user)
            then (st, refused (codes "permission denied"))
            else (let out = bootstrap_output hash st d in (out.0, renewed out.1))))

-- One tick of the task that sweeps tokens, which keeps them for five minutes.
unfoldable pub sweep_tick : ServerState → SystemTime → ServerState
unfolding sweep_tokens
sweep_tick st now = sweep_tokens st now (from_secs 300)

-- In a sound server, the accept loop goes on exactly while, after its checks, the session is
-- neither expired nor terminated.
pub accept_checks_continue :
    (st : ServerState) (now later : SystemTime)
    → IsSound st
    → ((accept_checks st now later).1 ≡ none) ↔ (
        (¬ InState SessionState.expired (current (accept_checks st now later).0))
        × (¬ InState SessionState.terminated (current (accept_checks st now later).0)))
unfolding accept_checks server_stop_reason
accept_checks_continue st now later v =
    let first = expire_if_initial_attach_timeout-IsSound st now v in
    let second =
      expire_if_detached_timeout-IsSound (expire_if_initial_attach_timeout st now).0 later first in
    ground (
      arith,
      first,
      second,
      (expire_if_initial_attach_timeout_iff st now v).1,
      (expire_if_detached_timeout_iff (expire_if_initial_attach_timeout st now).0 later first).1,
    )
