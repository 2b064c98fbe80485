-- ===== src/Tests/Handshake.antt =====
-- Examples for handshakes between src/bin/neosh.rs and src/bin/neoshd.rs.
use neosh.Token.Service.{Draw}
use neosh.Terminal.Pty.{LivePty, spawn}
use neosh.Server.State.{ServerState, append_replay, bootstrap_output, non_empty_arg, current}
use neosh.Server.State.Cleanup.{Owns}
use neosh.Server.Terminal.{resolve_login_shell}
use neosh.Server.Exchange.{Env, opened}
use neosh.Server.Serve.{serve}
use neosh.Client.Reconnect.{attach, resume}
use neosh.Client.Session
use neosh.Client.Session.{handshake}
use neosh.Link.{up_frames, down_frames}
use neosh.Link.Daemon.{Writes}
use neosh.Link.Handshake.{authed_by}
use neosh.Link.Connect.{ClientWrites, Meets, answer}
use neosh.Link.Fresh.{payload_of, first_attached, begun, printed, connect_new}
use neosh.Tests.Agreement.{Value, client, daemon, agrees}
use neosh.Tests.Server.{args, system}
use neosh.Token.Service
use neosh.Client.Reconnect
use neosh.Link.Reconnect.{attached_again, connected, abandoned, reconnect_resumes}
use neosh.Link.Refusal.{refused_auth}
use neosh.Prelude.{
  length, ok, err, Text, Bytes, codes, SystemTime, ◌≡◌, refl, ◌≢◌, false, none, some, [], ◌∷◌,
  arith,
}
use neosh.Server.Wire.{Json, Reply, hello_ack, auth_ok, attach_ok, resume_ok, pong, error_reply}
use neosh.Client.Control.{Message, Serde, AuthOk, ResumeOk}

-- What each message meets: the clock, and the token that is drawn.
abbrev pub online : SystemTime → Draw → Env
online now draw = record {
  now = now;
  draw = draw;
  write_all = λ _. ok tt;
  pty_system = system;
  shell = none;
  streams = record { open_uni = ok tt; write_replay = λ _. ok tt };
}

abbrev pub drawn : Text → SystemTime → Draw
drawn raw now = record { raw = raw; now = now; jti = 1 }

abbrev pub first_auth : Draw
first_auth = drawn (codes "a") 100

abbrev pub first_resume : Draw
first_resume = drawn (codes "bb") 120

abbrev pub second_auth : Draw
second_auth = drawn (codes "ccc") 300

abbrev second_resume : Draw
second_resume = drawn (codes "dddd") 320

abbrev pub session : Session.Env Value
session = record {
  verified = ok tt;
  open_bi = ok [];
  write_all = λ bytes. ok tt;
  expires_now = 100;
  updated_now = 100;
  put = ok tt;
  tty_size = none;
  ipc_dir = ok tt;
  ipc_bind = ok tt;
  ipc_permissions = ok tt;
  accept_uni = ok tt;
  open_uni = ok tt;
  wake = Session.notified;
  ipc_at_wake = false;
  ipc_before_sleep = false;
  ipc_after_sleep = false;
}

pub client_writes : ClientWrites client session
unfolding neosh.Client.Control.send_json neosh.Client.Control.encode_control_json
client_writes = (λ m. refl, refl)

pub writes : (now : SystemTime) (draw : Draw) → Writes daemon (online now draw)
unfolding neosh.Server.Wire.write_control_json
writes now draw r = refl

abbrev pub terminal : LivePty
terminal = record { master = 1; writer = 3; reader = some 4; child = 2 }

spawns :
    spawn system 24 80 (resolve_login_shell none) (non_empty_arg []) (non_empty_arg [])
    ≡ ok terminal
unfolding neosh.Terminal.Pty.spawn
spawns = refl

abbrev pub fresh : ServerState
fresh = begun length 100 1 (codes "ann") 1000 (codes "h:1") (codes "SHA256:aa") args first_auth

connect_new_example :
    let ms = Message.hello ∷ Message.auth (codes "a") ∷ Message.attach_msg 1 ∷ [] in
    let served =
      serve daemon length
        (online 110 first_auth ∷ online 120 first_resume ∷ online 130 first_auth ∷ [])
        fresh
        (opened 7)
        (up_frames agrees ms) in
    Meets agrees ms
      (handshake client session
        (codes "host")
        (printed length 100 1 (codes "ann") 1000 (codes "h:1") (codes "SHA256:aa") args first_auth)
        attach)
      (answer fresh (codes "bb"))
      served
      (first_attached (authed_by length (online 120 first_resume) fresh (codes "a")).0 7 terminal 4)
      1
      []
    × Owns 7 1 (current served.server)
unfolding agrees
connect_new_example =
    connect_new length 100 1 (codes "ann") 1000 (codes "h:1") (codes "SHA256:aa") args first_auth
      agrees session (codes "host") (online 110 first_auth) (online 120 first_resume)
      (online 130 first_auth) 7 terminal 4 client_writes (writes 110 first_auth)
      (writes 120 first_resume) (writes 130 first_auth) (omega arith) (omega arith) (omega arith)
      (omega arith) (omega arith) (omega arith) (omega arith) spawns refl refl

abbrev output : Bytes
output = codes "hello"

reconnect_resumes_example :
    let ms = Message.hello ∷ Message.auth (codes "ccc") ∷ Message.resume_msg 1 (codes "bb") ∷ [] in
    let gone =
      abandoned length 100 1
        (codes "ann")
        1000
        (codes "h:1")
        (codes "SHA256:aa")
        args
        first_auth
        (online 120 first_resume)
        7
        terminal
        4
        output
        200
        second_auth in
    let st = (bootstrap_output length gone second_auth).0 in
    let served =
      serve daemon length
        (online 310 first_auth ∷ online 320 second_resume ∷ online 330 first_auth ∷ [])
        st
        (opened 8)
        (up_frames agrees ms) in
    Meets agrees ms
      (handshake client session
        (codes "host")
        (payload_of (bootstrap_output length gone second_auth).1)
        (resume 1 (codes "bb")))
      (answer st (codes "dddd"))
      served
      (attached_again (authed_by length (online 320 second_resume) st (codes "ccc")).0 8)
      2
      (append_replay
        (connected length 100 1
          (codes "ann")
          1000
          (codes "h:1")
          (codes "SHA256:aa")
          args
          first_auth
          (online 120 first_resume)
          7
          terminal
          4
          output
          200
          second_auth)
        output).replay
    × Owns 8 2 (current served.server)
unfolding agrees append_replay
reconnect_resumes_example =
    reconnect_resumes length 100 1 (codes "ann") 1000 (codes "h:1") (codes "SHA256:aa") args
      first_auth (online 120 first_resume) 7 terminal 4 output 200 second_auth agrees session
      (codes "host") (online 310 first_auth) (online 320 second_resume) (online 330 first_auth) 8
      client_writes (writes 310 first_auth) (writes 320 second_resume) (writes 330 first_auth)
      (omega arith) (omega arith) (omega arith) (omega arith) (omega arith) (omega arith)
      (omega arith, omega arith, omega arith) (omega arith) (omega arith) (omega arith)
      (refl, λ bs. refl)

unknown_token :
    (Service.validate_and_consume_auth length fresh.tokens
      (codes "zz")
      fresh.session_id
      fresh.owner_user
      120).1
    ≢ ok tt
unfolding neosh.Server.State.bootstrap_output neosh.Server.State.issue_auth_token
    neosh.Server.State.new Service.issue_auth_token Service.issue_token Service.default
    Service.validate_and_consume_auth Service.find_record
unknown_token h = ground (arith, h)

refused_auth_example :
    let payload =
      record (printed length 100 1
        (codes "ann")
        1000
        (codes "h:1")
        (codes "SHA256:aa")
        args
        first_auth) { auth_token = codes "zz" } in
    let ms = Message.hello ∷ Message.auth (codes "zz") ∷ [] in
    let served =
      serve daemon length
        (online 110 first_auth ∷ online 120 first_auth ∷ [])
        fresh
        (opened 7)
        (up_frames agrees ms) in
    let run =
      handshake client session
        (codes "host")
        payload
        attach
        (record { recv = down_frames agrees served.replies; acts = [] }) in
    (run.1 ≡ err Reconnect.auth_failed)
    × (run.0.acts ≡ Session.sent Message.hello ∷ Session.sent (Message.auth (codes "zz")) ∷ [])
    × (served.server ≡ fresh)
    × (served.planes ≡ [])
    × (served.result ≡ some (ok tt))
unfolding agrees neosh.Server.Errors.error_frame_for neosh.Server.Errors.code_of
refused_auth_example =
    refused_auth agrees length session (codes "host") _ attach (online 110 first_auth)
      (online 120 first_auth) fresh 7 client_writes.0 (writes 110 first_auth)
      (writes 120 first_auth) (omega arith) (omega arith) (omega arith) (omega arith) unknown_token
