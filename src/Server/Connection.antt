-- ===== src/Server/Connection.antt =====
-- `handle_connection` of src/bin/neoshd.rs: one handler for each kind of control message, the loop
-- body that picks it, and the cleanup after the loop.
pub mod Steps
pub mod Aborts
use neosh.Prelude.{
  ◌==◌, if◌then◌else◌, length, ok, err, Text, Bytes, codes, SystemTime, as_secs, ℕ, ◌+◌, ◌-◌, true,
  false, not, none, some, ◌++◌,
}
use neosh.Protocol.Messages.{MessageKind, parse_message_kind}
use neosh.Protocol.Dispatcher.{on_message}
use neosh.Server.Errors.{
  protocol, internal, session_not_found, map_token_auth_error, map_token_resume_error,
  map_session_error,
}
use neosh.Server.State.{
  ServerState, explicit_detach, issue_resume_token, finalize_connection_cleanup,
}
use neosh.Server.Wire.{Json, hello_ack, auth_ok, attach_ok, resume_ok, pong}
use neosh.Session.Manager
use neosh.Token.Service
use neosh.Terminal.Pty
use neosh.Server.Exchange.{
  Conn, Env, continues, breaks, fails, Outcome, done, replying, refusing, attaching,
}

module _ (json : Json) (env : Env) where
  unfoldable pub on_hello : ServerState → Conn → Outcome
  unfolding replying
  on_hello st c = replying json env st c (hello_ack (as_secs st.session_timeout)) continues

  unfoldable pub on_attach : ServerState → Conn → Bytes → Outcome
  on_attach st c payload =
      if not c.authed
      then refusing json env st c (protocol (codes "ATTACH before AUTH"))
      else elim (json.attach_req payload) [
        | err e ↦ refusing json env st c (protocol (codes "bad ATTACH payload: " ++ e))
        | ok req ↦
            if not (req.session_id == st.session_id)
            then refusing json env st c session_not_found
            else attaching json env st c (λ _. attach_ok req.session_id) false
      ]

  unfoldable pub on_resize : ServerState → Conn → Bytes → Outcome
  unfolding refusing
  on_resize st c payload = elim (json.resize_req payload) [
    | err e ↦ refusing json env st c (protocol (codes "bad RESIZE payload: " ++ e))
    | ok req ↦ elim st.pty [
      | none ↦ done st c continues
      | some pty ↦ elim (Pty.resize env.pty_system pty req.rows req.cols) [
        | ok _ ↦ done st c continues
        | err e ↦ done st c (fails (internal (Pty.to_string e)))
      ]
    ]
  ]

  unfoldable pub on_detach : ServerState → Conn → Outcome
  on_detach st c =
      let attempt = Manager.detach st.sessions st.session_id c.conn_id in
      elim attempt.1 [
        | err e ↦ done st c (fails (map_session_error e))
        | ok _ ↦
            done (record st { sessions = attempt.0; detached_at = some env.now })
              (record c { cleanup_reason = explicit_detach }) breaks
      ]

  unfoldable pub on_close : ServerState → Conn → Outcome
  on_close st c =
      let attempt = Manager.terminate st.sessions st.session_id in
      elim attempt.1 [
        | err e ↦ done st c (fails (map_session_error e))
        | ok _ ↦ done (record st { sessions = attempt.0 }) c breaks
      ]

  unfoldable pub on_ping : ServerState → Conn → Bytes → Outcome
  unfolding replying
  on_ping st c payload =
      replying json env st c (pong (Pty.unwrap_or (json.nonce payload) (codes "\"\""))) continues

  module _ (hash : Text → ℕ) where
    unfoldable pub on_auth : ServerState → Conn → Bytes → Outcome
    unfolding refusing replying
    on_auth st c payload = elim (json.auth_req payload) [
      | err e ↦ refusing json env st c (protocol (codes "bad AUTH payload: " ++ e))
      | ok req ↦
          let attempt =
            Service.validate_and_consume_auth hash st.tokens req.token st.session_id st.owner_user
              env.now in
          elim attempt.1 [
            | err e ↦ refusing json env st c (map_token_auth_error e)
            | ok _ ↦
                let issued = issue_resume_token hash (record st { tokens = attempt.0 }) env.draw in
                replying json env issued.0 (record c { authed = true })
                  (auth_ok st.session_id issued.1 (as_secs st.resume_token_ttl)) continues
          ]
    ]

    unfoldable pub on_resume : ServerState → Conn → Bytes → Outcome
    on_resume st c payload =
        if not c.authed
        then refusing json env st c (protocol (codes "RESUME before AUTH"))
        else elim (json.resume_req payload) [
          | err e ↦ refusing json env st c (protocol (codes "bad RESUME payload: " ++ e))
          | ok req ↦
              if not (req.session_id == st.session_id)
              then refusing json env st c session_not_found
              else elim (Service.validate_resume hash st.tokens req.resume_token st.session_id
                  st.owner_user env.now) [
                    | err e ↦ refusing json env st c (map_token_resume_error e)
                    | ok _ ↦
                        attaching json env st c
                          (λ st'. resume_ok req.session_id (length st'.replay)) true
                  ]
        ]

    -- The `match kind`.
    unfoldable pub dispatch : MessageKind → ServerState → Conn → Bytes → Outcome
    dispatch MessageKind.hello st c payload = on_hello st c
    dispatch MessageKind.auth st c payload = on_auth st c payload
    dispatch MessageKind.attach st c payload = on_attach st c payload
    dispatch MessageKind.resume st c payload = on_resume st c payload
    dispatch MessageKind.resize st c payload = on_resize st c payload
    dispatch MessageKind.detach st c payload = on_detach st c
    dispatch MessageKind.close st c payload = on_close st c
    dispatch MessageKind.ping st c payload = on_ping st c payload
    dispatch MessageKind.pong st c payload = done st c continues
    dispatch MessageKind.error st c payload = done st c continues

    -- The body of the loop, once a frame was read.
    unfoldable pub handle_message : ServerState → Conn → Bytes → Outcome
    handle_message st c payload = elim (parse_message_kind json.envelope payload) [
      | none ↦ refusing json env st c (protocol (codes "unknown control message"))
      | some kind ↦
          let (d, r) = on_message c.dispatcher kind in
          elim r [
            | err _ ↦
                refusing json env st (record c { dispatcher = d })
                  (protocol (codes "out-of-order control message"))
            | ok _ ↦ dispatch kind st (record c { dispatcher = d }) payload
          ]
    ]

-- After the loop: the cleanup, if the connection was attached.
unfoldable pub finish : ServerState → SystemTime → Conn → ServerState
finish st now c = elim c.attached_epoch [
  | none ↦ st
  | some epoch ↦ finalize_connection_cleanup st now c.conn_id epoch c.cleanup_reason
]
