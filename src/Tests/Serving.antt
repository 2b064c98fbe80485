-- ===== src/Tests/Serving.antt =====
-- Examples for the loops of src/bin/neoshd.rs.
use neosh.Server.World.Invariant.{NotOwner}
use neosh.Server.State.Soundness.{IsSound}
use neosh.Prelude.{
  ok, [], is_some, length, Bytes, codes, text_eq, ◌≡◌, refl, true, none, some, List, ◌∷◌, arith,
}
use neosh.Server.State.{current, new}
use neosh.Server.Exchange.{Env, opened}
use neosh.Server.World.{
  on_open, on_receive, World, Event, act, opens, receives, renews, run, start, reading,
}
use neosh.Server.World.Serving.{serve-frees}
use neosh.Server.World.Accepting.{
  arrives, timed_out, Round, IsOver, StopsWell, round, accept_loop, accept_loop-StopsWell,
  accept_loop-ends,
}
use neosh.Server.Serve.Rounds.{serve-returns}
use neosh.Server.Serve.{serve}
use neosh.Client.Control.{Message}
use neosh.Link.{up_frames}
use neosh.Tests.Agreement.{daemon, agrees, up}
use neosh.Tests.Handshake.{online, first_auth, first_resume, fresh}
use neosh.Tests.Server.{args}

abbrev listening : World
listening = act daemon length (start fresh) (opens 7)

abbrev arrived : Bytes
arrived =
    up_frames agrees
      (Message.hello ∷ Message.auth (codes "a") ∷ Message.attach_msg 1 ∷ Message.detach ∷ [])

abbrev envs : List Env
envs =
    online 110 first_auth
    ∷ online 120 first_resume
    ∷ online 130 first_auth
    ∷ online 140 first_auth
    ∷ []

-- A connection opens, and a token is renewed for it.
abbrev before : List Event
before = opens 7 ∷ renews 1000 (ok (record { session_id = 1; user = codes "ann" })) first_auth ∷ []

abbrev begun_daemon : World
begun_daemon = start (new 100 1 (codes "ann") 1000 (codes "h:1") (codes "SHA256:aa") args)

reads_now : (run daemon length begun_daemon before).peers 7 ≡ some (opened 7, reading)
unfolding run act start on_open
reads_now = refl

returns_ok :
    (serve daemon length envs
      (run daemon length begun_daemon before).server
      (opened 7)
      arrived).result
    ≡ some (ok tt)
unfolding serve run act start on_open neosh.Server.Loops.accept_checks
    neosh.Server.State.expire_if_initial_attach_timeout
    neosh.Server.State.expire_if_detached_timeout neosh.Server.State.server_stop_reason
    neosh.Server.State.bootstrap_output neosh.Server.State.issue_auth_token new
    neosh.Session.Manager.create_session_with_id neosh.Session.Manager.default
    neosh.Session.Manager.expire opened neosh.Protocol.Dispatcher.initial on_receive
    neosh.Server.Connection.handle_message neosh.Server.Connection.dispatch
    neosh.Server.Connection.on_hello neosh.Server.Connection.on_auth
    neosh.Server.Connection.on_close neosh.Server.Exchange.replying neosh.Server.Exchange.refusing
    neosh.Server.Wire.write_control_json neosh.Server.State.issue_resume_token
    neosh.Protocol.Messages.parse_message_kind neosh.Protocol.Messages.kind_of_type
    neosh.Protocol.Dispatcher.on_message neosh.Protocol.Dispatcher.transition neosh.Prelude.text_eq
    neosh.Token.Service.issue_token neosh.Token.Service.issue_auth_token
    neosh.Token.Service.issue_resume_token neosh.Token.Service.validate_and_consume_auth
    neosh.Token.Service.find_record neosh.Token.Service.check_auth neosh.Token.Service.write_record
    neosh.Token.Service.default neosh.Session.Manager.terminate neosh.Server.Loops.ipc_response
    neosh.Server.Wire.read_control_frame neosh.Server.Wire.read_exact neosh.Server.Wire.header_len
    neosh.Protocol.Framing.encode_frame neosh.Protocol.Framing.to_be_bytes
    neosh.Server.Connection.on_attach neosh.Server.Connection.on_detach
    neosh.Server.Connection.finish neosh.Server.Exchange.attaching
    neosh.Server.Exchange.attached_reply neosh.Session.Manager.attach_exclusive
    neosh.Session.Manager.detach neosh.Server.Terminal.ensure_pty_runtime
    neosh.Server.Terminal.start_data_plane agrees neosh.Terminal.Pty.spawn
    neosh.Terminal.Pty.take_reader
returns_ok = refl

serve-frees_example :
    let r =
      serve daemon length envs (run daemon length begun_daemon before).server (opened 7) arrived in
    NotOwner 7 (current r.server) × IsSound r.server
serve-frees_example =
    serve-frees daemon length 100 1 (codes "ann") 1000 (codes "h:1") (codes "SHA256:aa") args before
      7 (opened 7) envs arrived reads_now returns_ok

abbrev quiet : Round
quiet = record { meanwhile = []; now = 200; later = 200; incoming = arrives (some 7) }

-- The connection closes the session before it attaches.
abbrev closing : List Event
closing =
    receives 7 (up Message.hello) (online 210 first_auth)
    ∷ receives 7 (up (Message.auth (codes "a"))) (online 220 first_resume)
    ∷ receives 7 (up (Message.close 1)) (online 230 first_auth)
    ∷ []

abbrev after_close : Round
after_close = record { meanwhile = closing; now = 300; later = 300; incoming = timed_out }

accept_loop-StopsWell_example : StopsWell (
    accept_loop daemon length
      (start (new 100 1 (codes "ann") 1000 (codes "h:1") (codes "SHA256:aa") args))
      (quiet ∷ after_close ∷ []))
accept_loop-StopsWell_example =
    accept_loop-StopsWell daemon length 100 1 (codes "ann") 1000 (codes "h:1") (codes "SHA256:aa")
      args (quiet ∷ after_close ∷ [])

goes_on : (accept_loop daemon length (start fresh) (quiet ∷ [])).1 ≡ none
unfolding accept_loop round run act start on_open neosh.Server.Loops.accept_checks
    neosh.Server.State.expire_if_initial_attach_timeout
    neosh.Server.State.expire_if_detached_timeout neosh.Server.State.server_stop_reason
    neosh.Server.State.bootstrap_output neosh.Server.State.issue_auth_token new
    neosh.Session.Manager.create_session_with_id neosh.Session.Manager.default
    neosh.Session.Manager.expire opened neosh.Protocol.Dispatcher.initial
goes_on = refl

is_over : IsOver (
    current
      (run daemon length (accept_loop daemon length (start fresh) (quiet ∷ [])).0 closing).server)
unfolding accept_loop round run act start on_open neosh.Server.Loops.accept_checks
    neosh.Server.State.expire_if_initial_attach_timeout
    neosh.Server.State.expire_if_detached_timeout neosh.Server.State.server_stop_reason
    neosh.Server.State.bootstrap_output neosh.Server.State.issue_auth_token new
    neosh.Session.Manager.create_session_with_id neosh.Session.Manager.default
    neosh.Session.Manager.expire opened neosh.Protocol.Dispatcher.initial on_receive
    neosh.Server.Connection.handle_message neosh.Server.Connection.dispatch
    neosh.Server.Connection.on_hello neosh.Server.Connection.on_auth
    neosh.Server.Connection.on_close neosh.Server.Exchange.replying neosh.Server.Exchange.refusing
    neosh.Server.Wire.write_control_json neosh.Server.State.issue_resume_token
    neosh.Protocol.Messages.parse_message_kind neosh.Protocol.Messages.kind_of_type
    neosh.Protocol.Dispatcher.on_message neosh.Protocol.Dispatcher.transition neosh.Prelude.text_eq
    neosh.Token.Service.issue_token neosh.Token.Service.issue_auth_token
    neosh.Token.Service.issue_resume_token neosh.Token.Service.validate_and_consume_auth
    neosh.Token.Service.find_record neosh.Token.Service.check_auth neosh.Token.Service.write_record
    neosh.Token.Service.default neosh.Session.Manager.terminate
is_over = refl

accept_loop-ends_example :
    is_some (accept_loop daemon length (start fresh) (quiet ∷ after_close ∷ [])).1 ≡ true
accept_loop-ends_example =
    accept_loop-ends daemon length (start fresh) (quiet ∷ []) after_close goes_on is_over

-- A stream that ends within the length of a frame.
serve-returns_example :
    is_some (serve daemon length envs listening.server (opened 7) (0 ∷ 0 ∷ 1 ∷ [])).result ≡ true
serve-returns_example =
    serve-returns daemon length envs listening.server (opened 7) (0 ∷ 0 ∷ 1 ∷ []) (omega arith)
