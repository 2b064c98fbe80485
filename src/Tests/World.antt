-- ===== src/Tests/World.antt =====
-- Examples for the daemon as a whole, src/bin/neoshd.rs.
use neosh.Prelude.{length, ok, Bytes, codes, text_eq, ◌-◌, refl, Option, some, List, [], ◌∷◌}
use neosh.Session.Manager.{Session}
use neosh.Protocol.Messages.{ControlEnvelope}
use neosh.Token.Service.{Draw}
use neosh.Server.State.{new, current}
use neosh.Server.State.Soundness.{IsSound}
use neosh.Server.Wire.{Json}
use neosh.Server.Exchange.{Env}
use neosh.Server.World.{
  World, Event, opens, receives, renews, sweeps, on_open, on_receive, act, run, start,
}
use neosh.Server.World.Ownership.{Owner, IsServed, Owner-IsServed, run-IsSound}
use neosh.Tests.Server.{args, json, env}

-- The kind of a message is in its length here.
abbrev envelope_of : Bytes → Option ControlEnvelope
envelope_of [] = some (record { msg_type = codes "HELLO" })
envelope_of (_ ∷ []) = some (record { msg_type = codes "AUTH" })
envelope_of (_ ∷ _) = some (record { msg_type = codes "ATTACH" })

abbrev reader : Json
reader = record json { envelope = envelope_of }

abbrev issues : Draw
issues = record { raw = codes "abc"; now = 100; jti = 1 }

abbrev resumes : Draw
resumes = record { raw = codes "wxyz"; now = 110; jti = 2 }

abbrev online : Env
online = record env { now = 110; draw = resumes; write_all = λ _. ok tt }

-- A token is issued over the renewal socket, and the connection 7 greets, authenticates with it and
-- attaches.
abbrev schedule : List Event
schedule =
    renews 1000 (ok (record { session_id = 1; user = codes "ann" })) issues
    ∷ opens 7
    ∷ receives 7 [] online
    ∷ receives 7 (2 ∷ []) online
    ∷ receives 7 (3 ∷ 3 ∷ []) online
    ∷ sweeps 300
    ∷ []

abbrev daemon : World
daemon = start (new 100 1 (codes "ann") 1000 (codes "h:1") (codes "SHA256:aa") args)

seven_owns : Owner 7 (current (run reader length daemon schedule).server)
unfolding neosh.Server.World.run neosh.Server.World.act neosh.Server.World.start
    neosh.Server.World.on_open neosh.Server.World.on_receive neosh.Server.Loops.ipc_response
    neosh.Server.Loops.sweep_tick neosh.Server.State.sweep_tokens
    neosh.Server.Connection.handle_message neosh.Server.Connection.dispatch
    neosh.Server.Connection.on_hello neosh.Server.Connection.on_auth
    neosh.Server.Connection.on_attach neosh.Server.Exchange.replying neosh.Server.Exchange.attaching
    neosh.Server.Exchange.attached_reply neosh.Server.Wire.write_control_json
    neosh.Server.Terminal.ensure_pty_runtime neosh.Server.Terminal.start_data_plane
    neosh.Server.State.new neosh.Server.State.bootstrap_output neosh.Server.State.issue_auth_token
    neosh.Server.State.issue_resume_token neosh.Protocol.Messages.parse_message_kind
    neosh.Protocol.Messages.kind_of_type neosh.Protocol.Dispatcher.on_message
    neosh.Protocol.Dispatcher.transition neosh.Prelude.text_eq neosh.Token.Service.issue_token
    neosh.Token.Service.issue_auth_token neosh.Token.Service.issue_resume_token
    neosh.Token.Service.validate_and_consume_auth neosh.Token.Service.find_record
    neosh.Token.Service.check_auth neosh.Session.Manager.attach_exclusive
    neosh.Session.Manager.create_session_with_id neosh.Session.Manager.default
    neosh.Server.Exchange.opened neosh.Protocol.Dispatcher.initial neosh.Terminal.Pty.spawn
    neosh.Terminal.Pty.take_reader neosh.Server.Terminal.send_replay
    neosh.Token.Service.write_record neosh.Token.Service.default
seven_owns = refl

Owner-IsServed_example :
    let w = run reader length daemon schedule in IsServed (w.peers 7) (current w.server)
Owner-IsServed_example =
    Owner-IsServed reader length 100 1 (codes "ann") 1000 (codes "h:1") (codes "SHA256:aa") args
      schedule 7 seven_owns

run-IsSound_example : IsSound (run reader length daemon schedule).server
run-IsSound_example =
    run-IsSound reader length 100 1 (codes "ann") 1000 (codes "h:1") (codes "SHA256:aa") args
      schedule
