-- ===== src/Link/Refusal.antt =====
-- A client of src/bin/neosh.rs whose auth token the daemon of src/bin/neoshd.rs does not accept.
use neosh.Protocol.Framing.{encode_frame}
use neosh.Protocol.Dispatcher.{await_hello, initial, await_auth, await_attach_or_resume, on_message}
use neosh.Server.Errors.{code_of, auth_failed, error_frame_for, map_token_auth_error}
use neosh.Server.Wire.{hello_ack, Json, error_reply, write_error_frame}
use neosh.Server.Exchange.{Outcome, opened, Env, breaks, refusing}
use neosh.Server.Connection.{finish, handle_message, dispatch, on_auth}
use neosh.Server.Serve.{serve}
use neosh.Server.Serve.Rounds.{serve-encode_frame_breaks}
use neosh.Client.Bootstrap.{BootstrapPayload}
use neosh.Client.Reconnect.{SessionMode}
use neosh.Client.Reconnect
use neosh.Client.Control.{send_json, read_json-encode_frame, Message, Serde}
use neosh.Client.Session
use neosh.Client.Session.{handshake, check_auth}
use neosh.Client.Session.Attach.{expect_type-encode_frame}
use neosh.Link.{Agrees, up_frames, down_frames, FitsUp, FitsDown}
use neosh.Link.Daemon.{Writes, conn_at, parse_message_kind-up, handle_message-hello}
use neosh.Link.Handshake.{serve-up}
use neosh.Prelude.{
  ok, err, Result-cases, Text, codes, text_eq, Uuid, as_secs, ℕ, ◌≡◌, refl, ap, ◌≢◌, inl, inr,
  false, none, some, [], ◌∷◌, ◌++◌, arith,
}
use neosh.Token.Service
use neosh.Token.Service.{TokenError}
use neosh.Server.State.{ServerState}

map_token_auth_error-auth_failed : (e : TokenError) → map_token_auth_error e ≡ auth_failed
unfolding map_token_auth_error
map_token_auth_error-auth_failed e = ground arith

module _ {Value : Type 0} {cl : Serde Value} {json : Json} (a : Agrees cl json)
    (hash : Text → ℕ) where
  handle_message-refused :
      (env : Env) (st : ServerState) (id : Uuid) (token : Text) (e : TokenError)
      → Writes json env
      → (Service.validate_and_consume_auth hash st.tokens token st.session_id st.owner_user
          env.now).1
        ≡ err e
      → handle_message json env hash st (conn_at id await_auth false) (a.up (Message.auth token))
        ≡ record {
          server = st;
          conn = conn_at id await_attach_or_resume false;
          sent = error_reply (error_frame_for auth_failed) ∷ [];
          plane = none;
          flow = breaks;
        }
  unfolding handle_message on_message dispatch on_auth refusing write_error_frame
  handle_message-refused env st id token e w h =
      rw (parse_message_kind-up a env hash w (Message.auth token), handle_message)
        (rw (a.reads_fields (Message.auth token), on_auth)
          (rw h (
            rw (map_token_auth_error-auth_failed e)
              (rw (w (error_reply (error_frame_for auth_failed)), refusing) refl))))

  -- HELLO and a refused AUTH: the loop ends, and the server is as it was.
  serve-refused :
      (e1 e2 : Env) (st : ServerState) (id : Uuid) (token : Text) (e : TokenError)
      → Writes json e1
      → Writes json e2
      → FitsUp a Message.hello
      → FitsUp a (Message.auth token)
      → (Service.validate_and_consume_auth hash st.tokens token st.session_id st.owner_user
          e2.now).1
        ≡ err e
      → serve json hash
          (e1 ∷ e2 ∷ [])
          st
          (opened id)
          (up_frames a (Message.hello ∷ Message.auth token ∷ []))
        ≡ record {
          server = st;
          conn = conn_at id await_attach_or_resume false;
          replies =
              hello_ack (as_secs st.session_timeout)
              ∷ error_reply (error_frame_for auth_failed)
              ∷ [];
          planes = [];
          unread = [];
          result = some (ok tt);
        }
  unfolding opened initial finish
  serve-refused e1 e2 st id token e w1 w2 f1 f2 h =
      let o = handle_message-refused e2 st id token e w2 h in
      rw
        (serve-up a hash e1 (e2 ∷ []) st (conn_at id await_hello false) Message.hello
          (Message.auth token ∷ []) _ f1 (handle_message-hello a e1 hash w1 st id) refl)
        (rw
          (serve-encode_frame_breaks json hash e2 [] st (conn_at id await_auth false)
            (a.up (Message.auth token)) [] f2 (ap (λ (o : Outcome). o.flow) o))
          (rw o refl))

  check_auth-refused :
      check_auth cl (a.value (error_reply (error_frame_for auth_failed)))
      ≡ err Reconnect.auth_failed
  unfolding check_auth text_eq error_frame_for code_of
  check_auth-refused =
      rw (a.value_type (error_reply (error_frame_for auth_failed)))
        (rw (a.value_fields (error_reply (error_frame_for auth_failed))) refl)

  -- If the daemon does not accept the token of a payload, each side takes what the other sends, and
  -- every frame is within the limit, then the client fails with `AuthFailed` in either mode, having sent
  -- HELLO and AUTH and given nothing to the cache, and the daemon ends the connection with the server as
  -- it was, and no data plane.
  pub refused_auth :
      (cenv : Session.Env Value) (target : Text) (payload : BootstrapPayload) (mode : SessionMode)
      (e1 e2 : Env) (st : ServerState) (id : Uuid)
      → ((m : Message) → send_json cl cenv.write_all m ≡ ok tt)
      → Writes json e1
      → Writes json e2
      → FitsUp a Message.hello
      → FitsUp a (Message.auth payload.auth_token)
      → FitsDown a (hello_ack (as_secs st.session_timeout))
      → FitsDown a (error_reply (error_frame_for auth_failed))
      → (Service.validate_and_consume_auth hash st.tokens payload.auth_token st.session_id
          st.owner_user e2.now).1
        ≢ ok tt
      → let ms = Message.hello ∷ Message.auth payload.auth_token ∷ [] in
        let served = serve json hash (e1 ∷ e2 ∷ []) st (opened id) (up_frames a ms) in
        let run =
          handshake cl cenv target payload mode
            (record { recv = down_frames a served.replies; acts = [] }) in
        (run.1 ≡ err Reconnect.auth_failed)
        × (run.0.acts
            ≡ Session.sent Message.hello ∷ Session.sent (Message.auth payload.auth_token) ∷ [])
        × (served.server ≡ st)
        × (served.planes ≡ [])
        × (served.result ≡ some (ok tt))
  unfolding handshake
  refused_auth cenv target payload mode e1 e2 st id writes w1 w2 u1 u2 d1 d2 h =
      let r1 = hello_ack (as_secs st.session_timeout) in
      let r2 = error_reply (error_frame_for auth_failed) in
      let x1 =
        expect_type-encode_frame cl (a.down r1) (encode_frame (a.down r2) ++ []) (a.value r1)
          (codes "HELLO_ACK") (d1, a.reads_value r1) (a.value_type r1) in
      let x2 = read_json-encode_frame cl (a.down r2) [] (a.value r2) d2 (a.reads_value r2) in
      elim (Result-cases
        (Service.validate_and_consume_auth hash st.tokens payload.auth_token st.session_id
          st.owner_user e2.now).1) [
            | inl (tt, q) ↦ absurd (h q)
            | inr (e, q) ↦ rw (serve-refused e1 e2 st id payload.auth_token e w1 w2 u1 u2 q) (
                rw (writes Message.hello) (
                  rw x1 (
                    rw (writes (Message.auth payload.auth_token))
                      (rw x2 (rw check_auth-refused (refl, refl, refl, refl, refl))))))
          ]
