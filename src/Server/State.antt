-- ===== src/Server/State.antt =====
-- `ServerState` of src/bin/neoshd.rs: one session, its tokens, its terminal and its replay buffer.
-- The mutex around it makes each method one step. The clock, the random draws and the answers of
-- the terminal library are arguments; what `log_event` prints is left out.
pub mod Replay
pub mod Soundness
pub mod Timeouts
pub mod Cleanup
use neosh.Prelude.{
  ltb, leb, ◌==◌, if◌then◌else◌, length, drop, is_empty, Text, Bytes, trim, Uuid, SystemTime,
  Duration, from_secs, as_secs, duration_since, ℕ, ◌+◌, ◌-◌, Bool, true, false, not, Option, none,
  some, [], ◌++◌,
}
use neosh.Session.Manager.{SessionManager, SessionState, Session}
use neosh.Session.Manager
use neosh.Token.Service.{TokenService, Draw}
use neosh.Token.Service
use neosh.Terminal.Pty.{LivePty}

-- The arguments of `neoshd new`.
pub record NewArgs : Type 0 where
  pub user : Text
  pub port_range : Text
  pub bind_server : Text
  pub tls_cert : Text
  pub tls_key : Text
  pub working_directory : Text
  pub command : Text
  pub session_timeout : ℕ
  pub initial_attach_timeout : ℕ
  pub auth_token_ttl : ℕ
  pub resume_token_ttl : ℕ
  pub quic_idle_timeout_seconds : ℕ
  pub replay_buffer_bytes : ℕ

pub record BootstrapOutput : Type 0 where
  pub session_id : Uuid
  pub auth_token : Text
  pub auth_token_expires_in_seconds : ℕ
  pub quic_addr : Text
  pub cert_fingerprint : Text

-- A terminal's writer and its output channel are the handles of the terminal; `pty_exited` is the
-- flag that its reader thread sets.
pub record ServerState : Type 0 where
  pub session_id : Uuid
  pub owner_user : Text
  pub owner_uid : ℕ
  pub quic_addr : Text
  pub cert_fingerprint : Text
  pub working_directory : Option Text
  pub startup_command : Option Text
  pub created_at : SystemTime
  pub initial_attach_timeout : Duration
  pub session_timeout : Duration
  pub auth_token_ttl : Duration
  pub resume_token_ttl : Duration
  pub replay_cap : ℕ
  pub sessions : SessionManager
  pub tokens : TokenService
  pub pty : Option LivePty
  pub pty_writer : Option ℕ
  pub output_tx : Option ℕ
  pub replay : Bytes
  pub detached_at : Option SystemTime
  pub pty_exited : Bool

pub data CleanupReason : Type 0 where
  connection_end explicit_detach : CleanupReason

pub data AcceptLoopStopReason : Type 0 where
  initial_attach_timeout detached_session_timeout session_expired session_terminated
        endpoint_closed :
      AcceptLoopStopReason

unfoldable pub is_auto_shutdown : AcceptLoopStopReason → Bool
is_auto_shutdown initial_attach_timeout = true
is_auto_shutdown detached_session_timeout = true
is_auto_shutdown session_expired = true
is_auto_shutdown session_terminated = false
is_auto_shutdown endpoint_closed = false

unfoldable pub non_empty_arg : Text → Option Text
non_empty_arg value = let trimmed = trim value in if is_empty trimmed then none else some trimmed

-- `ServerState::new`; `now` is the clock.
unfoldable pub new : SystemTime → Uuid → Text → ℕ → Text → Text → NewArgs → ServerState
unfolding non_empty_arg
new now session_id owner_user owner_uid quic_addr cert_fingerprint cfg = record {
  session_id = session_id;
  owner_user = owner_user;
  owner_uid = owner_uid;
  quic_addr = quic_addr;
  cert_fingerprint = cert_fingerprint;
  working_directory = non_empty_arg cfg.working_directory;
  startup_command = non_empty_arg cfg.command;
  created_at = now;
  initial_attach_timeout = from_secs cfg.initial_attach_timeout;
  session_timeout = from_secs cfg.session_timeout;
  auth_token_ttl = from_secs cfg.auth_token_ttl;
  resume_token_ttl = from_secs cfg.resume_token_ttl;
  replay_cap = cfg.replay_buffer_bytes;
  sessions =
      Manager.create_session_with_id Manager.default session_id owner_user quic_addr
        cert_fingerprint;
  tokens = Service.default;
  pty = none;
  pty_writer = none;
  output_tx = none;
  replay = [];
  detached_at = none;
  pty_exited = false;
}

-- The session of the server, as its manager has it.
abbrev pub current : ServerState → Option Session
current st = st.sessions.sessions st.session_id

module _ (hash : Text → ℕ) where
  unfoldable pub issue_auth_token : ServerState → Draw → ServerState × Text
  issue_auth_token st d =
      let (tokens, raw) =
        Service.issue_auth_token hash st.tokens d st.session_id st.owner_user st.auth_token_ttl in
      (record st { tokens = tokens }, raw)

  unfoldable pub issue_resume_token : ServerState → Draw → ServerState × Text
  issue_resume_token st d =
      let (tokens, raw) =
        Service.issue_resume_token hash st.tokens d st.session_id st.owner_user
          st.resume_token_ttl in
      (record st { tokens = tokens }, raw)

  unfoldable pub bootstrap_output : ServerState → Draw → ServerState × BootstrapOutput
  unfolding issue_auth_token
  bootstrap_output st d =
      let (st', raw) = issue_auth_token st d in
      (
        st',
        record {
          session_id = st.session_id;
          auth_token = raw;
          auth_token_expires_in_seconds = as_secs st.auth_token_ttl;
          quic_addr = st.quic_addr;
          cert_fingerprint = st.cert_fingerprint;
        },
      )

unfoldable pub append_replay : ServerState → Bytes → ServerState
append_replay st chunk =
    let replay = st.replay ++ chunk in
    record st {
      replay =
          if ltb st.replay_cap (length replay)
          then drop (length replay - st.replay_cap) replay
          else replay;
    }

-- `let _ = self.sessions.expire(self.session_id)`.
abbrev pub expire_session : ServerState → ServerState
expire_session st = record st { sessions = (Manager.expire st.sessions st.session_id).0 }

abbrev pub is_expired : Option Session → Bool
is_expired none = false
is_expired (some s) = elim s.state [ SessionState.expired ↦ true | _ ↦ false ]

abbrev pub is_created : Option Session → Bool
is_created none = false
is_created (some s) = elim s.state [ SessionState.created ↦ true | _ ↦ false ]

-- `elapsed >= timeout`, where the clock has not gone back behind `since`.
abbrev pub has_elapsed : SystemTime → SystemTime → Duration → Bool
has_elapsed now since timeout = elim (duration_since now since) [
  | none ↦ false
  | some elapsed ↦ leb timeout elapsed
]

unfoldable pub expire_if_detached_timeout : ServerState → SystemTime → ServerState × Bool
expire_if_detached_timeout st now =
    if st.session_timeout == 0 then (st, false) else elim st.detached_at [
      | none ↦ (st, false)
      | some detached_at ↦
          if has_elapsed now detached_at st.session_timeout
          then (expire_session st, is_expired (current (expire_session st)))
          else (st, false)
    ]

unfoldable pub expire_if_initial_attach_timeout : ServerState → SystemTime → ServerState × Bool
expire_if_initial_attach_timeout st now =
    if st.initial_attach_timeout == 0
    then (st, false)
    else (if not (is_created (current st))
        then (st, false)
        else (if has_elapsed now st.created_at st.initial_attach_timeout
            then (expire_session st, true)
            else (st, false)))

unfoldable pub server_stop_reason : ServerState → Option AcceptLoopStopReason
server_stop_reason st = elim (current st) [
  | none ↦ none
  | some s ↦ elim s.state [
    | SessionState.terminated ↦ some session_terminated
    | SessionState.expired ↦ some session_expired
    | _ ↦ none
  ]
]

unfoldable pub sweep_tokens : ServerState → SystemTime → Duration → ServerState
sweep_tokens st now retention = record st {
  tokens = Service.cleanup_expired st.tokens now retention;
}

-- The stale cleanup, and `detached_at` if it took place.
abbrev pub clean_stale : ServerState → SystemTime → Uuid → ℕ → ServerState
clean_stale st now conn_id epoch =
    let (sessions, cleaned) =
      Manager.conditional_stale_cleanup st.sessions st.session_id conn_id epoch in
    if cleaned
    then record st { sessions = sessions; detached_at = some now }
    else record st { sessions = sessions }

unfoldable pub finalize_connection_cleanup :
    ServerState → SystemTime → Uuid → ℕ → CleanupReason → ServerState
finalize_connection_cleanup st now conn_id epoch explicit_detach = clean_stale st now conn_id epoch
finalize_connection_cleanup st now conn_id epoch connection_end =
    if st.pty_exited
    then record st {
      sessions = (Manager.terminate st.sessions st.session_id).0;
      detached_at = none;
    }
    else clean_stale st now conn_id epoch
