-- ===== src/Server/Serve.antt =====
-- The whole of `handle_connection` in src/bin/neoshd.rs: its loop over the control messages that a client
-- sends, and its end. What the client sends is the list of the bytes that will arrive; what each round
-- meets is one `Env`, and with no further round the task waits.
pub mod Rounds
use neosh.Prelude.{
  [], Result, ok, err, Text, Bytes, codes, Uuid, SystemTime, ℕ, Option, none, some, List, ◌∷◌, ◌++◌,
}
use neosh.Server.Errors.{
  NeoshdError, config, io, quinn, protocol, internal, auth_failed, session_not_found,
  session_expired, attach_denied, to_string, code_of, error_frame_for, map_token_auth_error,
  map_token_resume_error, map_session_error,
}
use neosh.Server.State.{ServerState}
use neosh.Server.Wire.{Json, Reply, read_control_frame}
use neosh.Server.Exchange.{Conn, Env, Flow, continues, breaks, fails, Outcome, opened}
use neosh.Server.Connection.{handle_message, finish}

-- The server, the connection, the replies written, the first bytes of each data plane that was started,
-- the bytes not read, and the function's result, once it has returned.
pub record Served : Type 0 where
  pub server : ServerState
  pub conn : Conn
  pub replies : List Reply
  pub planes : List Bytes
  pub unread : Bytes
  pub result : Option (Result NeoshdError (Unit {0}))

abbrev pub waits : ServerState → Conn → Bytes → Served
waits st c recv = record {
  server = st;
  conn = c;
  replies = [];
  planes = [];
  unread = recv;
  result = none;
}

-- The cleanup behind the loop, and the return.
abbrev pub leaves : ServerState → Conn → SystemTime → Bytes → Served
leaves st c now rest = record {
  server = finish st now c;
  conn = c;
  replies = [];
  planes = [];
  unread = rest;
  result = some (ok tt);
}

-- `?`: the function returns at once.
abbrev pub aborts : ServerState → Conn → NeoshdError → Bytes → Served
aborts st c e rest = record {
  server = st;
  conn = c;
  replies = [];
  planes = [];
  unread = rest;
  result = some (err e);
}

abbrev pub started : Option Bytes → List Bytes
started none = []
started (some first) = first ∷ []

-- What one message wrote and started, and then the rest.
abbrev pub behind : Outcome → Served → Served
behind o r = record r { replies = o.sent ++ r.replies; planes = started o.plane ++ r.planes }

module _ (json : Json) (hash : Text → ℕ) where
  -- The loop.
  unfoldable pub serve : List Env → ServerState → Conn → Bytes → Served
  serve [] st c recv = waits st c recv
  serve (env ∷ envs) st c recv = elim (read_control_frame recv) [
    | err _ ↦ leaves st c env.now []
    | ok (payload, rest) ↦
        let o = handle_message json env hash st c payload in
        elim o.flow [
          | continues ↦ behind o (serve envs o.server o.conn rest)
          | breaks ↦ behind o (leaves o.server o.conn env.now rest)
          | fails e ↦ behind o (aborts o.server o.conn e rest)
        ]
  ]

  -- From the stream's opening: a connection without one ends with an error.
  unfoldable pub handle_connection : List Env → ServerState → Uuid → Result Text Bytes → Served
  unfolding opened serve
  handle_connection envs st conn_id (ok recv) = serve envs st (opened conn_id) recv
  handle_connection envs st conn_id (err e) =
      aborts st (opened conn_id) (protocol (codes "control stream missing: " ++ e)) []
