-- ===== src/Link/Handshake.antt =====
-- A whole handshake between src/bin/neosh.rs and src/bin/neoshd.rs: three messages up, three replies down.
use mathlib.Core.List.{append-nil}
use neosh.Prelude.{ok, Text, Uuid, as_secs, ℕ, ◌≡◌, refl, true, false, none, List, [], ◌∷◌}
use neosh.Protocol.Dispatcher.{await_hello, await_auth, await_attach_or_resume, initial}
use neosh.Token.Service
use neosh.Server.State.{ServerState, issue_resume_token}
use neosh.Server.Wire.{Json, hello_ack, auth_ok}
use neosh.Server.Exchange.{Conn, Env, continues, Outcome, opened}
use neosh.Server.Connection.{handle_message}
use neosh.Server.Serve.{started, behind, serve}
use neosh.Server.Serve.Rounds.{serve-encode_frame}
use neosh.Client.Control.{Message, Serde}
use neosh.Link.{Agrees, up_frames, FitsUp}
use neosh.Link.Daemon.{Writes, conn_at, handle_message-hello, handle_message-auth}

-- The server behind an accepted AUTH with `token`, and the resume token that it answers with.
abbrev pub authed_by : (Text → ℕ) → Env → ServerState → Text → ServerState × Text
authed_by hash env st token =
    issue_resume_token hash
      (record st {
        tokens =
            (Service.validate_and_consume_auth hash st.tokens token st.session_id st.owner_user
              env.now).0;
      })
      env.draw

module _ {Value : Type 0} {cl : Serde Value} {json : Json} (a : Agrees cl json)
    (hash : Text → ℕ) where
  -- One message of the client, within the limit of a frame, whose handling lets the loop go on.
  pub serve-up :
      (env : Env) (envs : List Env) (st : ServerState) (c : Conn) (m : Message) (ms : List Message)
      (o : Outcome)
      → FitsUp a m
      → handle_message json env hash st c (a.up m) ≡ o
      → o.flow ≡ continues
      → serve json hash (env ∷ envs) st c (up_frames a (m ∷ ms))
        ≡ behind o (serve json hash envs o.server o.conn (up_frames a ms))
  serve-up env envs st c m ms o fits e f =
      serve-encode_frame json hash env envs st c (a.up m) (up_frames a ms) o fits e f

  -- HELLO and AUTH, and then a message whose handling ends in `o`.
  pub serve-handshake :
      (e1 e2 e3 : Env) (st : ServerState) (id : Uuid) (token : Text) (m : Message) (o : Outcome)
      → Writes json e1
      → Writes json e2
      → FitsUp a Message.hello
      → FitsUp a (Message.auth token)
      → FitsUp a m
      → (Service.validate_and_consume_auth hash st.tokens token st.session_id st.owner_user
          e2.now).1
        ≡ ok tt
      → let after = authed_by hash e2 st token in
        handle_message json e3 hash after.0 (conn_at id await_attach_or_resume true) (a.up m) ≡ o
        → o.flow ≡ continues
        → serve json hash
            (e1 ∷ e2 ∷ e3 ∷ [])
            st
            (opened id)
            (up_frames a (Message.hello ∷ Message.auth token ∷ m ∷ []))
          ≡ record {
            server = o.server;
            conn = o.conn;
            replies =
                hello_ack (as_secs st.session_timeout)
                ∷ auth_ok st.session_id after.1 (as_secs st.resume_token_ttl)
                ∷ o.sent;
            planes = started o.plane;
            unread = [];
            result = none;
          }
  unfolding opened initial serve
  serve-handshake e1 e2 e3 st id token m o w1 w2 f1 f2 f3 v h f =
      rw
        (serve-up e1 (e2 ∷ e3 ∷ []) st (conn_at id await_hello false) Message.hello
          (Message.auth token ∷ m ∷ []) _ f1 (handle_message-hello a e1 hash w1 st id) refl)
        (rw
          (serve-up e2 (e3 ∷ []) st (conn_at id await_auth false) (Message.auth token) (m ∷ []) _ f2
            (handle_message-auth a e2 hash w2 st id token v) refl)
          (rw (serve-up e3 [] _ (conn_at id await_attach_or_resume true) m [] o f3 h f)
            (rw (append-nil o.sent, append-nil (started o.plane)) refl)))
