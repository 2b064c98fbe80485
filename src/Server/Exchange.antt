-- ===== src/Server/Exchange.antt =====
-- What one message of a connection meets and leaves, in `handle_connection` of src/bin/neoshd.rs: the
-- local variables, what the handlers await, and the parts that several handlers share. A handler
-- runs under the server's mutex; what it awaits besides (writes, streams, the terminal) answers
-- through `Env`. A `?` that returns from the function is `fails`.
use neosh.Prelude.{
  Result, ok, err, Text, Bytes, Uuid, SystemTime, ℕ, Bool, false, Option, none, some, List, [], ◌∷◌,
}
use neosh.Protocol.Dispatcher.{Dispatcher, initial}
use neosh.Token.Service.{Draw}
use neosh.Terminal.Pty.{System}
use neosh.Server.Errors.{NeoshdError, error_frame_for, map_session_error}
use neosh.Server.State.{ServerState, CleanupReason, connection_end}
use neosh.Server.Wire.{Json, Reply, write_control_json, write_error_frame}
use neosh.Server.Terminal.{Streams, ensure_pty_runtime, start_data_plane}
use neosh.Session.Manager

-- The local variables of `handle_connection`.
pub record Conn : Type 0 where
  pub conn_id : Uuid
  pub dispatcher : Dispatcher
  pub attached_epoch : Option ℕ
  pub authed : Bool
  pub cleanup_reason : CleanupReason

unfoldable pub opened : Uuid → Conn
unfolding initial
opened conn_id = record {
  conn_id = conn_id;
  dispatcher = initial;
  attached_epoch = none;
  authed = false;
  cleanup_reason = connection_end;
}

-- What one message meets outside the program: the clock, the draw of a token, the control stream,
-- the terminal library, the variable `SHELL`, and the streams of the data plane.
pub record Env : Type 0 where
  pub now : SystemTime
  pub draw : Draw
  pub write_all : Bytes → Result Text (Unit {0})
  pub pty_system : System
  pub shell : Option Text
  pub streams : Streams

-- The loop goes on, breaks to the cleanup, or the function returns an error at once.
pub data Flow : Type 0 where
  continues breaks : Flow
  fails : NeoshdError → Flow

-- After one message: the server, the connection, the replies written, the first bytes of a data
-- plane that was started, and how the loop goes on.
pub record Outcome : Type 0 where
  pub server : ServerState
  pub conn : Conn
  pub sent : List Reply
  pub plane : Option Bytes
  pub flow : Flow

abbrev pub done : ServerState → Conn → Flow → Outcome
done st c flow = record { server = st; conn = c; sent = []; plane = none; flow = flow }

module _ (json : Json) (env : Env) where
  -- `write_control_json(…).await?`, and then `flow`.
  unfoldable pub replying : ServerState → Conn → Reply → Flow → Outcome
  unfolding write_control_json
  replying st c reply flow = elim (write_control_json json env.write_all reply) [
    | ok _ ↦ record { server = st; conn = c; sent = reply ∷ []; plane = none; flow = flow }
    | err e ↦ done st c (fails e)
  ]

  -- `write_error_frame(…).await?; break`.
  unfoldable pub refusing : ServerState → Conn → NeoshdError → Outcome
  unfolding write_error_frame
  refusing st c e = elim (write_error_frame json env.write_all e) [
    | ok _ ↦ record {
      server = st;
      conn = c;
      sent = Reply.error_reply (error_frame_for e) ∷ [];
      plane = none;
      flow = breaks;
    }
    | err f ↦ done st c (fails f)
  ]

  -- The end of ATTACH and RESUME, once the session is attached and the terminal runs.
  unfoldable pub attached_reply : ServerState → Conn → Reply → Bool → Outcome
  unfolding write_control_json start_data_plane
  attached_reply st c reply resume = elim (write_control_json json env.write_all reply) [
    | err e ↦ done st c (fails e)
    | ok _ ↦ elim (start_data_plane env.streams st resume) [
      | err e ↦ record { server = st; conn = c; sent = reply ∷ []; plane = none; flow = fails e }
      | ok first ↦ record {
        server = st;
        conn = c;
        sent = reply ∷ [];
        plane = some first;
        flow = continues;
      }
    ]
  ]

  -- From `attach_exclusive` on, the same in ATTACH and RESUME.
  unfoldable pub attaching : ServerState → Conn → (ServerState → Reply) → Bool → Outcome
  unfolding refusing attached_reply ensure_pty_runtime
  attaching st c reply resume =
      let attempt = Manager.attach_exclusive st.sessions st.session_id c.conn_id in
      elim attempt.1 [
        | err e ↦ refusing st c (map_session_error e)
        | ok epoch ↦
            let st' = record st { sessions = attempt.0; detached_at = none } in
            elim (ensure_pty_runtime env.pty_system env.shell st') [
              | err e ↦ done st' c (fails e)
              | ok st'' ↦
                  attached_reply st'' (record c { attached_epoch = some epoch }) (reply st'') resume
            ]
      ]
