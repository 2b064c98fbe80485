-- ===== src/Link/Daemon.antt =====
-- The daemon's side of a handshake, src/bin/neoshd.rs: what each of the client's messages gets when nothing
-- fails.
use neosh.Prelude.{
  ==_refl, length, ok, Text, Bytes, Uuid, as_secs, ℕ, ◌≡◌, refl, Bool, true, false, none, some, [],
  ◌∷◌,
}
use neosh.Protocol.Messages.{parse_message_kind, parse_message_kind_iff}
use neosh.Protocol.Dispatcher.{
  ConnectionState, await_hello, await_auth, await_attach_or_resume, attached, on_message,
}
use neosh.Token.Service
use neosh.Session.Manager
use neosh.Server.State.{connection_end, ServerState, issue_resume_token}
use neosh.Server.Wire.{Json, Reply, hello_ack, auth_ok, attach_ok, resume_ok, write_control_json}
use neosh.Server.Terminal.{ensure_pty_runtime, start_data_plane}
use neosh.Server.Exchange.{Conn, Env, continues, Outcome, replying, attaching, attached_reply}
use neosh.Server.Connection.{on_hello, on_attach, on_auth, on_resume, dispatch, handle_message}
use neosh.Client.Control.{Message, Serde}
use neosh.Link.{kind_of, Agrees}

-- The control stream takes every reply.
abbrev pub Writes : Json → Env → Type 0
Writes json env = (r : Reply) → write_control_json json env.write_all r ≡ ok tt

abbrev pub replied : ServerState → Conn → Reply → Outcome
replied st c reply = record {
  server = st;
  conn = c;
  sent = reply ∷ [];
  plane = none;
  flow = continues;
}

-- A connection that is not attached yet.
abbrev pub conn_at : Uuid → ConnectionState → Bool → Conn
conn_at id state authed = record {
  conn_id = id;
  dispatcher = record { state = state };
  attached_epoch = none;
  authed = authed;
  cleanup_reason = connection_end;
}

-- The session is attached, the terminal runs, and the data plane starts.
abbrev pub Attaches : Env → ServerState → Uuid → Bool → ℕ → ServerState → Bytes → Type 0
Attaches env st id resume epoch st' first =
    ((Manager.attach_exclusive st.sessions st.session_id id).1 ≡ ok epoch)
    × (ensure_pty_runtime env.pty_system env.shell (record st {
      sessions = (Manager.attach_exclusive st.sessions st.session_id id).0;
      detached_at = none;
    })
        ≡ ok st')
    × (start_data_plane env.streams st' resume ≡ ok first)

abbrev pub plane_opened : ServerState → Uuid → ℕ → Reply → Bytes → Outcome
plane_opened st id epoch reply first = record {
  server = st;
  conn = record (conn_at id attached true) { attached_epoch = some epoch };
  sent = reply ∷ [];
  plane = some first;
  flow = continues;
}

module _ {Value : Type 0} {cl : Serde Value} {json : Json} (a : Agrees cl json) (env : Env)
    (hash : Text → ℕ) (writes : Writes json env) where
  pub parse_message_kind-up :
      (m : Message) → parse_message_kind json.envelope (a.up m) ≡ some (kind_of m)
  parse_message_kind-up m =
      (parse_message_kind_iff json.envelope (a.up m) (kind_of m)).1 (a.reads_type m)

  pub replying-Writes :
      (st : ServerState) (c : Conn) (reply : Reply)
      → replying json env st c reply continues ≡ replied st c reply
  unfolding replying
  replying-Writes st c reply = rw (writes reply, replying) refl

  pub handle_message-hello :
      (st : ServerState) (id : Uuid)
      → handle_message json env hash st (conn_at id await_hello false) (a.up Message.hello)
        ≡ replied st (conn_at id await_auth false) (hello_ack (as_secs st.session_timeout))
  unfolding handle_message on_message dispatch on_hello
  handle_message-hello st id =
      rw (parse_message_kind-up Message.hello, handle_message) (replying-Writes st _ _)

  -- AUTH with a token that the service accepts.
  pub handle_message-auth :
      (st : ServerState) (id : Uuid) (token : Text)
      → (Service.validate_and_consume_auth hash st.tokens token st.session_id st.owner_user
          env.now).1
        ≡ ok tt
      → let after =
          issue_resume_token hash
            (record st {
              tokens =
                  (Service.validate_and_consume_auth hash st.tokens token st.session_id
                    st.owner_user env.now).0;
            })
            env.draw in
        handle_message json env hash st (conn_at id await_auth false) (a.up (Message.auth token))
        ≡ replied after.0
            (conn_at id await_attach_or_resume true)
            (auth_ok st.session_id after.1 (as_secs st.resume_token_ttl))
  unfolding handle_message on_message dispatch on_auth
  handle_message-auth st id token h =
      rw (parse_message_kind-up (Message.auth token), handle_message)
        (rw (a.reads_fields (Message.auth token), on_auth) (rw h (replying-Writes _ _ _)))

  attaching-Attaches :
      (st st' : ServerState) (id : Uuid) (resume : Bool) (epoch : ℕ) (first : Bytes)
      (reply : ServerState → Reply)
      → Attaches env st id resume epoch st' first
      → attaching json env st (conn_at id attached true) reply resume
        ≡ plane_opened st' id epoch (reply st') first
  unfolding attaching attached_reply
  attaching-Attaches st st' id resume epoch first reply (e, p, d) =
      rw (e, attaching) (rw p (rw (writes (reply st'), attached_reply) (rw d refl)))

  pub handle_message-attach :
      (st st' : ServerState) (id : Uuid) (epoch : ℕ) (first : Bytes)
      → Attaches env st id false epoch st' first
      → handle_message json env hash st
          (conn_at id await_attach_or_resume true)
          (a.up (Message.attach_msg st.session_id))
        ≡ plane_opened st' id epoch (attach_ok st.session_id) first
  unfolding handle_message on_message dispatch on_attach
  handle_message-attach st st' id epoch first h =
      rw (parse_message_kind-up (Message.attach_msg st.session_id), handle_message)
        (rw (a.reads_fields (Message.attach_msg st.session_id), on_attach)
          (rw (==_refl st.session_id) (attaching-Attaches st st' id false epoch first _ h)))

  pub handle_message-resume :
      (st st' : ServerState) (id : Uuid) (token : Text) (epoch : ℕ) (first : Bytes)
      → Service.validate_resume hash st.tokens token st.session_id st.owner_user env.now ≡ ok tt
      → Attaches env st id true epoch st' first
      → handle_message json env hash st
          (conn_at id await_attach_or_resume true)
          (a.up (Message.resume_msg st.session_id token))
        ≡ plane_opened st' id epoch (resume_ok st.session_id (length st'.replay)) first
  unfolding handle_message on_message dispatch on_resume
  handle_message-resume st st' id token epoch first v h =
      rw (parse_message_kind-up (Message.resume_msg st.session_id token), handle_message)
        (rw (a.reads_fields (Message.resume_msg st.session_id token), on_resume)
          (rw (==_refl st.session_id) (rw v (attaching-Attaches st st' id true epoch first _ h))))
