-- ===== src/Link/Fresh.antt =====
-- A daemon of src/bin/neoshd.rs that has just started, and the client of src/bin/neosh.rs that it printed its
-- payload for.
use neosh.Prelude.{
  ok, Text, Uuid, SystemTime, from_secs, as_secs, ℕ, ◌+◌, ◌<◌, ◌≡◌, refl, false, none, some, [],
  ◌∷◌, arith,
}
use neosh.Token.Service.{Draw}
use neosh.Token.Service
use neosh.Token.Service.Issue.{validate-issue}
use neosh.Server.State.Cleanup.{Owns}
use neosh.Link.Handshake.{authed_by}
use neosh.Link.Connect.{answer, Meets, ClientWrites, connect-Meets}
use neosh.Link.{Agrees, up_frames, FitsUp, FitsDown}
use neosh.Client.Reconnect.{attach}
use neosh.Client.Control.{Message, Serde}
use neosh.Client.Session
use neosh.Client.Session.{handshake}
use neosh.Server.Wire.{Json, hello_ack, auth_ok, attach_ok}
use neosh.Server.Serve.{serve}
use neosh.Server.Exchange.{opened, Env}
use neosh.Link.Daemon.{Writes, Attaches}
use neosh.Session.Manager
use neosh.Terminal.Pty.{LivePty, spawn, take_reader}
use neosh.Server.State.{
  non_empty_arg, current, issue_resume_token, issue_auth_token, new, bootstrap_output, NewArgs,
  ServerState, BootstrapOutput,
}
use neosh.Server.Terminal.{resolve_login_shell, ensure_pty_runtime, start_data_plane}
use neosh.Client.Bootstrap.{BootstrapPayload}

-- The payload that a client reads from what the daemon prints.
abbrev pub payload_of : BootstrapOutput → BootstrapPayload
payload_of b = record {
  session_id = b.session_id;
  auth_token = b.auth_token;
  auth_token_expires_in_seconds = b.auth_token_expires_in_seconds;
  quic_addr = b.quic_addr;
  cert_fingerprint = b.cert_fingerprint;
}

-- The first attachment of a server that has no terminal yet.
abbrev pub first_attached : ServerState → Uuid → LivePty → ℕ → ServerState
first_attached st id pty reader = record st {
  sessions = (Manager.attach_exclusive st.sessions st.session_id id).0;
  detached_at = none;
  pty_writer = some pty.writer;
  output_tx = some reader;
  pty = some (record pty { reader = none });
  pty_exited = false;
}

-- Where no terminal runs, the session can be attached, and the terminal and the STDOUT stream start.
Attaches-first :
    (env : Env) (st : ServerState) (id : Uuid) (epoch : ℕ) (pty : LivePty) (reader : ℕ)
    → st.pty ≡ none
    → (Manager.attach_exclusive st.sessions st.session_id id).1 ≡ ok epoch
    → spawn env.pty_system 24 80
        (resolve_login_shell env.shell)
        st.working_directory
        st.startup_command
      ≡ ok pty
    → pty.reader ≡ some reader
    → env.streams.open_uni ≡ ok tt
    → Attaches env st id false epoch (first_attached st id pty reader) []
unfolding ensure_pty_runtime start_data_plane take_reader
Attaches-first env st id epoch pty reader none_yet h sp rd u =
    (h, rw (none_yet, ensure_pty_runtime) (rw sp (rw rd refl)), rw (u, start_data_plane) refl)

-- A daemon that has just started under the arguments `cfg`, and what it prints.
abbrev pub begin :
    (Text → ℕ)
    → SystemTime
    → Uuid
    → Text
    → ℕ
    → Text
    → Text
    → NewArgs
    → Draw
    → ServerState × BootstrapOutput
begin hash now sid owner uid addr fp cfg d =
    bootstrap_output hash (new now sid owner uid addr fp cfg) d

module _ (hash : Text → ℕ) (now : SystemTime) (sid : Uuid) (owner : Text) (uid : ℕ) (addr fp : Text)
    (cfg : NewArgs) (d : Draw) where
  abbrev pub begun : ServerState
  begun = (begin hash now sid owner uid addr fp cfg d).0

  abbrev pub printed : BootstrapPayload
  printed = payload_of (begin hash now sid owner uid addr fp cfg d).1

  begun_validates :
      (later : SystemTime)
      → later < d.now + from_secs cfg.auth_token_ttl
      → (Service.validate_and_consume_auth hash begun.tokens d.raw sid owner later).1 ≡ ok tt
  unfolding bootstrap_output issue_auth_token new Service.default
  begun_validates later h =
      (validate-issue hash Service.default d sid sid owner owner (from_secs cfg.auth_token_ttl)
          later tt).0.1
        (refl, refl, h)

  begun_attaches :
      (env : Env) (id : Uuid) (token : Text)
      → (Manager.attach_exclusive (authed_by hash env begun token).0.sessions sid id).1 ≡ ok 1
  unfolding bootstrap_output issue_auth_token issue_resume_token new Manager.create_session_with_id
      Manager.attach_exclusive
  begun_attaches env id token = ground arith

  first_attached-Owns :
      (env : Env) (id : Uuid) (token : Text) (pty : LivePty) (reader : ℕ)
      → Owns id 1 (current (first_attached (authed_by hash env begun token).0 id pty reader))
  unfolding bootstrap_output issue_auth_token issue_resume_token new Manager.create_session_with_id
      Manager.attach_exclusive
  first_attached-Owns env id token pty reader = ground arith

  -- A client meets a daemon that has just started: it has the payload that the daemon printed, each
  -- side takes what the other sends, every frame is within the limit, the token is still alive, and
  -- the terminal and the STDOUT stream can be started. Then the client sends HELLO, AUTH with the
  -- printed token and ATTACH, reads the three replies and returns with the resume token that the
  -- daemon drew for it, and the daemon has its connection attached in the first epoch, as the owner of
  -- the session, and waits for more.
  pub connect_new :
      {Value : Type 0} {cl : Serde Value} {json : Json} (a : Agrees cl json)
      (cenv : Session.Env Value) (target : Text) (e1 e2 e3 : Env) (id : Uuid) (pty : LivePty)
      (reader : ℕ)
      → ClientWrites cl cenv
      → Writes json e1
      → Writes json e2
      → Writes json e3
      → FitsUp a Message.hello
      → FitsUp a (Message.auth d.raw)
      → FitsUp a (Message.attach_msg sid)
      → FitsDown a (hello_ack (as_secs (from_secs cfg.session_timeout)))
      → FitsDown a (auth_ok sid e2.draw.raw (as_secs (from_secs cfg.resume_token_ttl)))
      → FitsDown a (attach_ok sid)
      → e2.now < d.now + from_secs cfg.auth_token_ttl
      → spawn e3.pty_system 24 80
          (resolve_login_shell e3.shell)
          (non_empty_arg cfg.working_directory)
          (non_empty_arg cfg.command)
        ≡ ok pty
      → pty.reader ≡ some reader
      → e3.streams.open_uni ≡ ok tt
      → let ms = Message.hello ∷ Message.auth d.raw ∷ Message.attach_msg sid ∷ [] in
        let served = serve json hash (e1 ∷ e2 ∷ e3 ∷ []) begun (opened id) (up_frames a ms) in
        Meets a ms
          (handshake cl cenv target printed attach)
          (answer begun e2.draw.raw)
          served
          (first_attached (authed_by hash e2 begun d.raw).0 id pty reader)
          1
          []
        × Owns id 1 (current served.server)
  unfolding bootstrap_output issue_auth_token issue_resume_token new Service.issue_auth_token
      Service.issue_resume_token
  connect_new a cenv target e1 e2 e3 id pty reader cw w1 w2 w3 u1 u2 u3 d1 d2 d3 alive sp rd u =
      let m =
        connect-Meets a hash cenv target printed e1 e2 e3 begun _ id 1 [] cw w1 w2 w3 u1 u2 u3 d1 d2
          d3 (begun_validates e2.now alive)
          (Attaches-first e3 (authed_by hash e2 begun d.raw).0 id 1 pty reader refl
            (begun_attaches e2 id d.raw) sp rd u) in
      (m, rw (m.3) (first_attached-Owns e2 id d.raw pty reader))
