-- ===== src/Tests/Server.antt =====
-- Examples for src/terminal/pty.rs and the parts of src/bin/neoshd.rs.
use neosh.Prelude.{
  List, concat, length, ok, err, codes, empty, insert, ◌≤◌, ◌≡◌, refl, ◌≢◌, true, false, none, some,
  [], ◌∷◌, arith,
}
use neosh.Session.Manager.{SessionState, Session, new_session}
use neosh.Session.Manager
use neosh.Token.Service.{Draw}
use neosh.Terminal.Pty.{System}
use neosh.Server.State.{
  NewArgs, ServerState, new, current, explicit_detach, connection_end, finalize_connection_cleanup,
}
use neosh.Server.Output.{Read, got, failed, reader_thread, forward_output}
use neosh.Server.Output.Forwarding.{keeping_up, output, forward_output-output}
use neosh.Server.State.Replay
use neosh.Server.State.Soundness.{IsSound, new-IsSound}
use neosh.Server.State.Cleanup.{InStateAlone, Owns, finalize_owner}
use neosh.Server.Wire.{Json}
use neosh.Server.Exchange.{Conn, Env, opened}
use neosh.Server.Connection.{handle_message}
use neosh.Server.Connection.Steps.{Knows, Post, handle_message-Post}

-- A system on which every call succeeds.
abbrev pub system : System
system = record {
  openpty = λ _. ok 1;
  spawn_command = λ _ _. ok 2;
  take_writer = λ _. ok 3;
  try_clone_reader = λ _. ok 4;
  resize_master = λ _ _. ok tt;
  wait_child = λ _. ok tt;
  term_variable = none;
}

abbrev pub args : NewArgs
args = record {
  user = codes "ann";
  port_range = codes "4433:4443";
  bind_server = codes "any";
  tls_cert = [];
  tls_key = [];
  working_directory = [];
  command = [];
  session_timeout = 60;
  initial_attach_timeout = 60;
  auth_token_ttl = 30;
  resume_token_ttl = 600;
  quic_idle_timeout_seconds = 60;
  replay_buffer_bytes = 4;
}

-- What the parameters of the daemon are here.
abbrev pub json : Json
json = record {
  envelope = λ _. some (record { msg_type = codes "HELLO" });
  auth_req = λ _. ok (record { token = codes "abc" });
  attach_req = λ _. ok (record { session_id = 1 });
  resume_req = λ _. err (codes "missing field");
  resize_req = λ _. err (codes "missing field");
  nonce = λ _. none;
  to_vec = λ _. ok [];
}

abbrev pub draw : Draw
draw = record { raw = codes "abc"; now = 100; jti = 1 }

abbrev pub env : Env
env = record {
  now = 100;
  draw = draw;
  write_all = λ _. err (codes "connection lost");
  pty_system = system;
  shell = none;
  streams = record { open_uni = ok tt; write_replay = λ _. ok tt };
}

abbrev server : ServerState
server = new 100 1 (codes "ann") 1000 (codes "h:1") (codes "SHA256:aa") args

server-IsSound : IsSound server
server-IsSound = new-IsSound 100 1 (codes "ann") 1000 (codes "h:1") (codes "SHA256:aa") args

abbrev reads : List Read
reads = got (codes "abc") ∷ got (codes "def") ∷ failed ∷ []

forward_output-output_example :
    let f = forward_output server (keeping_up (reader_thread reads).0) in
    (f.stdout ≡ concat (output reads))
    × (f.finished ≡ (reader_thread reads).1)
    × (f.server.replay ≡ Replay.last 4 (concat (output reads)))
    × (length f.server.replay ≤ 4)
unfolding new
forward_output-output_example = forward_output-output server reads (omega arith)

abbrev attached_session : Session
attached_session = record (new_session 1 (codes "ann") (codes "h:1") (codes "SHA256:aa")) {
  state = SessionState.attached;
  attached_conn_id = some 7;
  attach_epoch = 1;
}

-- The server, once the connection 7 has attached.
abbrev held : ServerState
held = record server { sessions = record { sessions = insert 1 attached_session empty } }

held-IsSound : IsSound held
unfolding new
held-IsSound = ground arith

abbrev client : Conn
client = record (opened 7) { authed = true }

held-Owns : Owns 7 1 (current held)
unfolding new
held-Owns = (refl, refl)

held-not-Owns : ¬ Owns 8 1 (current held)
unfolding new
held-not-Owns o = ground (arith, o.0)

client-Knows : Knows client (current server)
unfolding new opened Manager.create_session_with_id
client-Knows h = ground (arith, h)

other_client : 8 ≢ client.conn_id
unfolding opened
other_client = ground arith

finalize_owner_example :
    let detaching = finalize_connection_cleanup held 300 7 1 explicit_detach in
    let ending = finalize_connection_cleanup held 300 7 1 connection_end in
    (InStateAlone SessionState.detached (current detaching) × (detaching.detached_at ≡ some 300))
    × (held.pty_exited ≡ false
        → InStateAlone SessionState.detached (current ending) × (ending.detached_at ≡ some 300))
    × (held.pty_exited ≡ true
        → InStateAlone SessionState.terminated (current ending) × (ending.detached_at ≡ none))
finalize_owner_example = finalize_owner held 300 7 1 held-IsSound held-Owns

handle_message-Post_example : Post 8 server client (handle_message json env length server client [])
handle_message-Post_example =
    handle_message-Post json env length 8 server client [] server-IsSound client-Knows other_client
