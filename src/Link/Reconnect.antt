-- ===== src/Link/Reconnect.antt =====
-- The connection of a client of src/bin/neosh.rs is lost, and the client comes back to the same session of
-- the daemon of src/bin/neoshd.rs: with a renewed auth token, and with the resume token of its first
-- connection.
use neosh.Prelude.{
  length, ok, Text, Bytes, text_eq_refl, Uuid, SystemTime, Duration, from_secs, as_secs, ℕ, ◌+◌,
  ◌<◌, ◌≡◌, refl, ◌≢◌, true, none, some, List, [], ◌∷◌, arith,
}
use neosh.Token.Service
use neosh.Token.Service.{Draw}
use neosh.Session.Manager
use neosh.Link.Connect.{answer, Meets, ClientWrites, resume-Meets}
use neosh.Link.{Agrees, up_frames, FitsUp, FitsDown}
use neosh.Client.Reconnect.{resume}
use neosh.Client.Control.{Message, Serde}
use neosh.Client.Session
use neosh.Client.Session.{handshake}
use neosh.Server.Wire.{Json, hello_ack, auth_ok, resume_ok}
use neosh.Server.Serve.{serve}
use neosh.Server.Exchange.{opened, Env}
use neosh.Server.State.Cleanup.{Owns}
use neosh.Link.Daemon.{Writes, Attaches}
use neosh.Link.Fresh.{payload_of, begun, first_attached}
use neosh.Token.Service.Records.{Absent}
use neosh.Token.Service.Issue.{validate-issue}
use neosh.Terminal.Pty.{LivePty}
use neosh.Server.State.{
  current, BootstrapOutput, ServerState, NewArgs, connection_end, new, bootstrap_output,
  append_replay, finalize_connection_cleanup, issue_resume_token, issue_auth_token,
}
use neosh.Server.Terminal.{ensure_pty_runtime, start_data_plane, send_replay, Streams}
use neosh.Link.Handshake.{authed_by}

-- A server whose terminal runs, once the session is attached again.
abbrev pub attached_again : ServerState → Uuid → ServerState
attached_again st id = record st {
  sessions = (Manager.attach_exclusive st.sessions st.session_id id).0;
  detached_at = none;
}

-- The streams take what they are given.
abbrev pub StreamsWork : Streams → Type 0
StreamsWork s = (s.open_uni ≡ ok tt) × ((bs : Bytes) → s.write_replay bs ≡ ok tt)

send_replay-StreamsWork : (s : Streams) (bs : Bytes) → StreamsWork s → send_replay s bs ≡ ok bs
unfolding send_replay
send_replay-StreamsWork s [] h = refl
send_replay-StreamsWork s (b ∷ bs) h = rw (h.1 (b ∷ bs)) refl

ensure_pty_runtime-running :
    (env : Env) (st : ServerState) (pty : LivePty)
    → st.pty ≡ some pty
    → ensure_pty_runtime env.pty_system env.shell st ≡ ok st
unfolding ensure_pty_runtime
ensure_pty_runtime-running env st pty h = ground (arith, h)

-- Where the terminal runs and the session can be attached, the new STDOUT stream begins with the
-- replay buffer.
Attaches-again :
    (env : Env) (st : ServerState) (id : Uuid) (epoch : ℕ) (pty : LivePty) (writer tx : ℕ)
    → st.pty ≡ some pty
    → st.pty_writer ≡ some writer
    → st.output_tx ≡ some tx
    → (Manager.attach_exclusive st.sessions st.session_id id).1 ≡ ok epoch
    → StreamsWork env.streams
    → Attaches env st id true epoch (attached_again st id) st.replay
unfolding start_data_plane
Attaches-again env st id epoch pty writer tx p w t h s = (
  h,
  ensure_pty_runtime-running env (attached_again st id) pty p,
  rw (s.0, start_data_plane) (rw w (rw t (send_replay-StreamsWork env.streams st.replay s))),
)

module _ (hash : Text → ℕ) (now : SystemTime) (sid : Uuid) (owner : Text) (uid : ℕ) (addr fp : Text)
    (cfg : NewArgs) (d : Draw) (e2 : Env) (id : Uuid) (pty : LivePty) (reader : ℕ) (out : Bytes)
    (lost_at : SystemTime) (d' : Draw) where
  -- The server after the first connection and AUTH with its token, after some output and the loss of the connection, and after the renewal.
  abbrev pub connected : ServerState
  connected =
      first_attached (authed_by hash e2 (begun hash now sid owner uid addr fp cfg d) d.raw).0 id pty
        reader

  abbrev pub abandoned : ServerState
  abandoned = finalize_connection_cleanup (append_replay connected out) lost_at id 1 connection_end

  abbrev pub renewal : ServerState → ServerState × BootstrapOutput
  renewal st = bootstrap_output hash st d'

  -- The abandoned server, written out.
  abbrev lost : ServerState
  lost = record (append_replay connected out) {
    sessions = (Manager.conditional_stale_cleanup connected.sessions sid id 1).0;
    detached_at = some lost_at;
  }

  abandoned-lost : abandoned ≡ lost
  unfolding bootstrap_output issue_auth_token issue_resume_token new append_replay
      finalize_connection_cleanup Manager.create_session_with_id Manager.attach_exclusive
      Manager.conditional_stale_cleanup
  abandoned-lost = ground arith

  -- The four tokens have three hashes apart.
  abbrev pub AreApart : Type 0
  AreApart =
      (hash d.raw ≢ hash e2.draw.raw)
      × (hash d.raw ≢ hash d'.raw)
      × (hash e2.draw.raw ≢ hash d'.raw)

  -- The tokens once AUTH was accepted: the auth token consumed, and the resume token.
  abbrev pub issued : List Service.TokenRecord
  issued =
      Service.mark_consumed e2.now (
        Service.new_record (hash d.raw) Service.auth_token sid owner d.jti d.now
          (from_secs cfg.auth_token_ttl))
      ∷ Service.new_record (hash e2.draw.raw) Service.resume_token sid owner e2.draw.jti e2.draw.now
          (from_secs cfg.resume_token_ttl)
      ∷ []

  lost_tokens : e2.now < d.now + from_secs cfg.auth_token_ttl → lost.tokens.records ≡ issued
  unfolding bootstrap_output issue_auth_token issue_resume_token new append_replay
      finalize_connection_cleanup Service.issue_auth_token Service.issue_resume_token
      Service.issue_token Service.default Service.validate_and_consume_auth Service.find_record
      Service.check_auth Service.write_record
  lost_tokens alive = ground (arith, alive, text_eq_refl owner)

  lost_attaches : (id' : Uuid) → (Manager.attach_exclusive lost.sessions sid id').1 ≡ ok 2
  unfolding bootstrap_output issue_auth_token issue_resume_token new append_replay
      finalize_connection_cleanup Manager.create_session_with_id Manager.attach_exclusive
      Manager.conditional_stale_cleanup
  lost_attaches id' = ground arith

  issued-Absent : AreApart → Absent (hash d'.raw) issued
  issued-Absent (a, b, c) = (b, (c, tt))

  renewal_validates :
      (later : SystemTime)
      → AreApart
      → e2.now < d.now + from_secs cfg.auth_token_ttl
      → later < d'.now + from_secs cfg.auth_token_ttl
      → (Service.validate_and_consume_auth hash (renewal lost).0.tokens d'.raw sid owner later).1
        ≡ ok tt
  unfolding bootstrap_output issue_auth_token issue_resume_token new append_replay
      finalize_connection_cleanup
  renewal_validates later apart alive h =
      (validate-issue hash lost.tokens d' sid sid owner owner (from_secs cfg.auth_token_ttl) later
          (rw (lost_tokens alive) (issued-Absent apart))).0.1
        (refl, refl, h)

  -- What the resume token of the first connection is good for, once AUTH with the renewed one was accepted.
  issued_resumes :
      (svc : Service.TokenService) (draw : Draw) (at later : SystemTime) (ttl : Duration)
      → svc.records ≡ issued
      → AreApart
      → later < e2.draw.now + from_secs cfg.resume_token_ttl
      → Service.validate_resume hash
          (Service.issue_resume_token hash
            (Service.validate_and_consume_auth hash
              (Service.issue_auth_token hash svc d' sid owner ttl).0
              d'.raw
              sid
              owner
              at).0
            draw
            sid
            owner
            (from_secs cfg.resume_token_ttl)).0
          e2.draw.raw
          sid
          owner
          later
        ≡ ok tt
  unfolding Service.issue_auth_token Service.issue_resume_token Service.issue_token
      Service.validate_and_consume_auth Service.find_record Service.check_auth Service.write_record
      Service.validate_resume Service.check_resume
  issued_resumes svc draw at later ttl e apart h =
      rw e (ground (arith, apart, h, text_eq_refl owner))

  renewal_resumes :
      (e5 : Env) (later : SystemTime)
      → AreApart
      → e2.now < d.now + from_secs cfg.auth_token_ttl
      → later < e2.draw.now + from_secs cfg.resume_token_ttl
      → Service.validate_resume hash
          (authed_by hash e5 (renewal lost).0 d'.raw).0.tokens
          e2.draw.raw
          sid
          owner
          later
        ≡ ok tt
  unfolding bootstrap_output issue_auth_token issue_resume_token new append_replay
      finalize_connection_cleanup
  renewal_resumes e5 later apart alive h =
      issued_resumes lost.tokens e5.draw e5.now later (from_secs cfg.auth_token_ttl)
        (lost_tokens alive) apart h

  attached_again-Owns :
      (e5 : Env) (id' : Uuid)
      → Owns id' 2 (current (attached_again (authed_by hash e5 (renewal lost).0 d'.raw).0 id'))
  unfolding bootstrap_output issue_auth_token issue_resume_token new append_replay
      Manager.create_session_with_id Manager.attach_exclusive Manager.conditional_stale_cleanup
  attached_again-Owns e5 id' = ground arith

  -- A client that had connected to a fresh daemon as in `connect_new` loses its connection and comes
  -- back with the resume token of that connection and a payload that the daemon printed for a
  -- renewal: each side takes what the other sends, every frame is within the limit, the hashes of the
  -- three tokens are apart, the first auth token was alive when it was used, and the new one and the
  -- resume token still are, and the STDOUT stream takes its bytes. Then the client sends HELLO, AUTH
  -- and RESUME, reads the three replies and returns with a new resume token, and the daemon has the new
  -- connection attached in the second epoch, as the owner of the session, with a STDOUT stream that
  -- begins with the replay buffer.
  pub reconnect_resumes :
      {Value : Type 0} {cl : Serde Value} {json : Json} (a : Agrees cl json)
      (cenv : Session.Env Value) (target : Text) (e4 e5 e6 : Env) (id' : Uuid)
      → ClientWrites cl cenv
      → Writes json e4
      → Writes json e5
      → Writes json e6
      → FitsUp a Message.hello
      → FitsUp a (Message.auth d'.raw)
      → FitsUp a (Message.resume_msg sid e2.draw.raw)
      → FitsDown a (hello_ack (as_secs (from_secs cfg.session_timeout)))
      → FitsDown a (auth_ok sid e5.draw.raw (as_secs (from_secs cfg.resume_token_ttl)))
      → FitsDown a (resume_ok sid (length (append_replay connected out).replay))
      → AreApart
      → e2.now < d.now + from_secs cfg.auth_token_ttl
      → e5.now < d'.now + from_secs cfg.auth_token_ttl
      → e6.now < e2.draw.now + from_secs cfg.resume_token_ttl
      → StreamsWork e6.streams
      → let ms = Message.hello ∷ Message.auth d'.raw ∷ Message.resume_msg sid e2.draw.raw ∷ [] in
        let st = (renewal abandoned).0 in
        let served = serve json hash (e4 ∷ e5 ∷ e6 ∷ []) st (opened id') (up_frames a ms) in
        Meets a ms
          (handshake cl cenv target (payload_of (renewal abandoned).1) (resume sid e2.draw.raw))
          (answer st e5.draw.raw)
          served
          (attached_again (authed_by hash e5 st d'.raw).0 id')
          2
          (append_replay connected out).replay
        × Owns id' 2 (current served.server)
  unfolding bootstrap_output issue_auth_token issue_resume_token new append_replay
      Service.issue_auth_token Service.issue_resume_token
  reconnect_resumes a cenv target e4 e5 e6 id' cw w1 w2 w3 u1 u2 u3 d1 d2 d3 apart alive alive'
        alive2 sw =
      let m =
        resume-Meets a hash cenv target (payload_of (renewal lost).1) e4 e5 e6 (renewal lost).0 _
          id' e2.draw.raw 2 _ cw w1 w2 w3 u1 u2 u3 d1 d2 d3
          (renewal_validates e5.now apart alive alive')
          (renewal_resumes e5 e6.now apart alive alive2)
          (Attaches-again e6 (authed_by hash e5 (renewal lost).0 d'.raw).0 id' 2
            (record pty { reader = none }) pty.writer reader refl refl refl (lost_attaches id')
            sw) in
      rw abandoned-lost (m, rw (m.3) (attached_again-Owns e5 id'))
