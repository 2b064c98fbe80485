-- ===== src/Link/Connect.antt =====
-- A client of src/bin/neosh.rs that connects to a daemon of src/bin/neoshd.rs: the messages that the client
-- sends are served, and what the daemon replies is what the client reads.
use neosh.Prelude.{
  length, ok, Text, Bytes, Uuid, as_secs, ℕ, ◌≡◌, refl, true, false, none, some, List, [], ◌∷◌,
}
use neosh.Token.Service
use neosh.Server.State.{ServerState, issue_resume_token}
use neosh.Server.Wire.{Json, hello_ack, auth_ok, attach_ok}
use neosh.Server.Exchange.{Env, opened}
use neosh.Server.Serve.{serve, Served}
use neosh.Client.Bootstrap.{BootstrapPayload}
use neosh.Client.Reconnect.{resume, attach}
use neosh.Client.Control.{Message, Serde, AuthOk, send_json}
use neosh.Client.Session
use neosh.Client.Session.{handshake, Io, Run}
use neosh.Client.Session.Attach.{handshake-resumes, handshake-attaches}
use neosh.Link.{resume_ok, Agrees, up_frames, down_frames, FitsUp, FitsDown, messages}
use neosh.Link.Daemon.{Writes, Attaches, plane_opened, handle_message-attach, handle_message-resume}
use neosh.Link.Handshake.{authed_by, serve-handshake}

-- The answer to AUTH, as the client reads it.
abbrev pub answer : ServerState → Text → AuthOk
answer st raw = record {
  session_id = st.session_id;
  resume_token = raw;
  resume_token_expires_in_seconds = as_secs st.resume_token_ttl;
}

-- The client, on the daemon's replies to `ms`, returns `reply` after sending `ms` and reading every
-- reply, while the daemon, on `ms`, comes to the server `st'` with its connection attached in `epoch` and
-- one data plane that begins with `first`, and waits for more.
abbrev pub Meets :
    {Value : Type 0} {cl : Serde Value} {json : Json}
    → Agrees cl json
    → List Message
    → Run AuthOk
    → AuthOk
    → Served
    → ServerState
    → ℕ
    → Bytes
    → Type 0
Meets a ms client reply served st' epoch first =
    let run = client (record { recv = down_frames a served.replies; acts = [] }) in
    (run.1 ≡ ok reply)
    × (messages run.0.acts ≡ ms)
    × (run.0.recv ≡ [])
    × (served.server ≡ st')
    × (served.conn.attached_epoch ≡ some epoch)
    × (served.planes ≡ first ∷ [])
    × (served.unread ≡ [])
    × (served.result ≡ none)

-- The control stream takes every message of the client, and the cache the entry.
abbrev pub ClientWrites : {Value : Type 0} → Serde Value → Session.Env Value → Type 0
ClientWrites cl cenv = ((m : Message) → send_json cl cenv.write_all m ≡ ok tt) × (cenv.put ≡ ok tt)

module _ {Value : Type 0} {cl : Serde Value} {json : Json} (a : Agrees cl json) (hash : Text → ℕ)
    (cenv : Session.Env Value) (target : Text) (payload : BootstrapPayload) where
  pub connect-Meets :
      (e1 e2 e3 : Env) (st st' : ServerState) (id : Uuid) (epoch : ℕ) (first : Bytes)
      → ClientWrites cl cenv
      → Writes json e1
      → Writes json e2
      → Writes json e3
      → FitsUp a Message.hello
      → FitsUp a (Message.auth payload.auth_token)
      → FitsUp a (Message.attach_msg st.session_id)
      → FitsDown a (hello_ack (as_secs st.session_timeout))
      → let after = authed_by hash e2 st payload.auth_token in
        FitsDown a (auth_ok st.session_id after.1 (as_secs st.resume_token_ttl))
        → FitsDown a (attach_ok st.session_id)
        → (Service.validate_and_consume_auth hash st.tokens payload.auth_token st.session_id
            st.owner_user e2.now).1
          ≡ ok tt
        → Attaches e3 after.0 id false epoch st' first
        → let ms =
            Message.hello
            ∷ Message.auth payload.auth_token
            ∷ Message.attach_msg st.session_id
            ∷ [] in
          Meets a ms
            (handshake cl cenv target payload attach)
            (answer st after.1)
            (serve json hash (e1 ∷ e2 ∷ e3 ∷ []) st (opened id) (up_frames a ms))
            st'
            epoch
            first
  unfolding issue_resume_token
  connect-Meets e1 e2 e3 st st' id epoch first cw w1 w2 w3 u1 u2 u3 d1 d2 d3 v at =
      let after = authed_by hash e2 st payload.auth_token in
      let r1 = hello_ack (as_secs st.session_timeout) in
      let r2 = auth_ok st.session_id after.1 (as_secs st.resume_token_ttl) in
      let r3 = attach_ok st.session_id in
      let serves =
        serve-handshake a hash e1 e2 e3 st id payload.auth_token (Message.attach_msg st.session_id)
          (plane_opened st' id epoch r3 first) w1 w2 u1 u2 u3 v
          (handle_message-attach a e3 hash w3 after.0 st' id epoch first at) refl in
      let reads =
        handshake-attaches cl cenv target payload (a.down r1) (a.down r2) (a.down r3) []
          (a.value r1) (a.value r2) (a.value r3) (answer st after.1) cw.0 cw.1
          (d1, a.reads_value r1) (d2, a.reads_value r2) (d3, a.reads_value r3) (a.value_type r1)
          (a.value_type r2) (a.value_fields r2) (a.value_type r3) in
      rw serves (rw reads (refl, refl, refl, refl, refl, refl, refl, refl))

  pub resume-Meets :
      (e1 e2 e3 : Env) (st st' : ServerState) (id : Uuid) (token : Text) (epoch : ℕ) (first : Bytes)
      → ClientWrites cl cenv
      → Writes json e1
      → Writes json e2
      → Writes json e3
      → FitsUp a Message.hello
      → FitsUp a (Message.auth payload.auth_token)
      → FitsUp a (Message.resume_msg st.session_id token)
      → FitsDown a (hello_ack (as_secs st.session_timeout))
      → let after = authed_by hash e2 st payload.auth_token in
        FitsDown a (auth_ok st.session_id after.1 (as_secs st.resume_token_ttl))
        → FitsDown a (resume_ok st.session_id (length st'.replay))
        → (Service.validate_and_consume_auth hash st.tokens payload.auth_token st.session_id
            st.owner_user e2.now).1
          ≡ ok tt
        → Service.validate_resume hash after.0.tokens token st.session_id st.owner_user e3.now
          ≡ ok tt
        → Attaches e3 after.0 id true epoch st' first
        → let ms =
            Message.hello
            ∷ Message.auth payload.auth_token
            ∷ Message.resume_msg st.session_id token
            ∷ [] in
          Meets a ms
            (handshake cl cenv target payload (resume st.session_id token))
            (answer st after.1)
            (serve json hash (e1 ∷ e2 ∷ e3 ∷ []) st (opened id) (up_frames a ms))
            st'
            epoch
            first
  unfolding issue_resume_token
  resume-Meets e1 e2 e3 st st' id token epoch first cw w1 w2 w3 u1 u2 u3 d1 d2 d3 v vr at =
      let after = authed_by hash e2 st payload.auth_token in
      let r1 = hello_ack (as_secs st.session_timeout) in
      let r2 = auth_ok st.session_id after.1 (as_secs st.resume_token_ttl) in
      let r3 = resume_ok st.session_id (length st'.replay) in
      let serves =
        serve-handshake a hash e1 e2 e3 st id payload.auth_token
          (Message.resume_msg st.session_id token) (plane_opened st' id epoch r3 first) w1 w2 u1 u2
          u3 v (handle_message-resume a e3 hash w3 after.0 st' id token epoch first vr at) refl in
      let reads =
        handshake-resumes cl cenv target payload st.session_id token (a.down r1) (a.down r2)
          (a.down r3) [] (a.value r1) (a.value r2) (a.value r3) (answer st after.1)
          (record { session_id = st.session_id; replay_bytes = length st'.replay }) cw.0 cw.1
          (d1, a.reads_value r1) (d2, a.reads_value r2) (d3, a.reads_value r3) (a.value_type r1)
          (a.value_type r2) (a.value_fields r2) (a.value_type r3) (a.value_fields r3) in
      rw serves (rw reads (refl, refl, refl, refl, refl, refl, refl, refl))
