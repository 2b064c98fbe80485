-- ===== src/Tests/Tasks.antt =====
-- Examples for the background tasks of src/bin/neosh.rs and the renewals of src/bin/neoshd.rs.
use mathlib.Core.List.{map}
use neosh.Session.Manager.{attached, terminated, attach_exclusive}
use neosh.Server.State.{current, new}
use neosh.Server.State.Timeouts.{InState}
use neosh.Server.Exchange.{breaks}
use neosh.Server.Connection.{handle_message}
use neosh.Server.Output.{lagged, forward_output}
use neosh.Server.Output.Forwarding.{followed_by}
use neosh.Client.Control.{close}
use neosh.Client.Reconnect.{closed}
use neosh.Client.Session.{Io, sent, deletes, stream_closed, signalled, on_wake}
use neosh.Client.Screen.{show_output}
use neosh.Client.Screen
use neosh.Link.Lag.{lag_closes_session}
use neosh.Tests.Handshake.{session, client_writes}
use neosh.Prelude.{
  is_some, true, false, zero, ok, err, Text, Bytes, codes, Result, length, ℕ, ◌≡◌, refl, Bool, true,
  false, none, some, Option, [], ◌∷◌, ◌++◌, ◌↔◌, ◌⊎◌, arith, List,
}
use neosh.Server.Wire.{pong}
use neosh.Server.Exchange.{Env, opened}
use neosh.Server.State.{ServerState, bootstrap_output}
use neosh.Server.Loops.{RenewIpcReq, IpcResponse, refused, renewed}
use neosh.Server.Serve.{serve}
use neosh.Server.Renewal.{IpcJson, IpcConn, ipc_round, run_ipc_server}
use neosh.Server.Renewal.Granted.{
  IpcAgrees, is_refusal, working, asks, renew_auth_asks, run_ipc_server-ends,
}
use neosh.Client.Control.{Message, ping, resize}
use neosh.Client.Session.Watch.{control_watch_loop}
use neosh.Client.Tasks
use neosh.Client.Tasks.{slept, changed}
use neosh.Link.{up_frames, down_frames}
use neosh.Link.Background.{first_sends, second_sends, both_end, upheld, background_harmless}
use neosh.Tests.Agreement.{Value, client, daemon, agrees}
use neosh.Tests.Handshake.{online, fresh, first_auth, second_auth, terminal, writes}

abbrev sized : ServerState
sized = record fresh { pty = some terminal }

-- A PING, and a new size of the window.
abbrev arriving : List (Env × Message)
arriving =
    (online 120 first_auth, ping (codes "1764102000000"))
    ∷ (online 120 first_auth, resize 40 100)
    ∷ []

background_harmless_example :
    let r =
      serve daemon length
        (map (λ t. t.0) arriving)
        sized
        (upheld (opened 7))
        (up_frames agrees (map (λ t. t.1) arriving)) in
    (r ≡ record {
      server = sized;
      conn = upheld (opened 7);
      replies = pong (codes "1764102000000") ∷ [];
      planes = [];
      unread = [];
      result = none;
    })
    × (control_watch_loop client (λ v. v) 9 (down_frames agrees r.replies) ≡ none)
unfolding Tasks.keepalive_task Tasks.resize_watch_task Tasks.watch_sizes neosh.Prelude.show_digits
    neosh.Terminal.Pty.resize agrees
background_harmless_example =
    background_harmless agrees length (slept (some 1764102000000) ∷ Tasks.Beat.detached ∷ [])
      (ok (changed none ∷ changed (some (40, 100)) ∷ [])) sized (opened 7) arriving (λ v. v) 9
      (first_sends _ _ _ _ (second_sends _ _ _ _ both_end))
      ((writes 120 first_auth, omega arith, omega arith), ((refl, omega arith), tt))

-- A JSON for renewals: a request is its session id and its user, a response is a number that tells an
-- error, and what it says.
abbrev pub read_request : Bytes → Result Text RenewIpcReq
read_request [] = err (codes "EOF")
read_request (id ∷ user) = ok (record { session_id = id; user = user })

abbrev pub response : IpcResponse → Bytes
response (refused e) = 0 ∷ e
response (renewed out) = 1 ∷ out.auth_token

abbrev pub has_error : Bytes → Bool
has_error (zero ∷ e) = true
has_error _ = false

abbrev ipc_json : IpcJson Bytes
ipc_json = record {
  request = λ id user. id ∷ user;
  read_request = read_request;
  response = response;
  read_value = λ bytes. ok bytes;
  has_error = has_error;
  shown = λ bytes. bytes;
}

tells_error : (r : IpcResponse) → has_error (response r) ≡ is_refusal r
tells_error (refused e) = refl
tells_error (renewed out) = refl

abbrev ipc_agrees : IpcAgrees ipc_json
ipc_agrees = record {
  value = response;
  reads_request = λ id user. refl;
  reads_value = λ r. refl;
  tells_error = tells_error;
}

renew_auth_asks_example :
    ((asks ipc_json length ipc_agrees (codes "s") fresh 1000 1 (codes "ann") second_auth
        ≡ ok (response (renewed (bootstrap_output length fresh second_auth).1)))
      ↔ ((1000 ≡ fresh.owner_uid) × (1 ≡ fresh.session_id) × (codes "ann" ≡ fresh.owner_user)))
    × (((ipc_round ipc_json length fresh (working 1000 (1 ∷ codes "ann") second_auth)).0 ≡ fresh)
        ⊎ (asks ipc_json length ipc_agrees (codes "s") fresh 1000 1 (codes "ann") second_auth
            ≡ ok (response (renewed (bootstrap_output length fresh second_auth).1))))
renew_auth_asks_example =
    renew_auth_asks ipc_json length ipc_agrees (codes "s") fresh 1000 1 (codes "ann") second_auth

-- A process of another user, and one that goes away before it is answered.
abbrev stranger : IpcConn
stranger = working 1001 (1 ∷ codes "ann") second_auth

abbrev gone_early : IpcConn
gone_early = record (working 1000 (1 ∷ codes "ann") second_auth) {
  write_all = err (codes "Broken pipe");
}

run_ipc_server-ends_example :
    let before = run_ipc_server ipc_json length fresh (stranger ∷ []) in
    let r = run_ipc_server ipc_json length fresh (stranger ∷ gone_early ∷ stranger ∷ []) in
    (before.2 ≡ none)
    × (length before.1 ≡ length (stranger ∷ []))
    × (r.0 ≡ (ipc_round ipc_json length before.0 gone_early).0)
    × (r.1 ≡ before.1)
    × (is_some r.2 ≡ true)
run_ipc_server-ends_example =
    run_ipc_server-ends ipc_json length fresh (stranger ∷ []) (stranger ∷ []) gone_early refl refl

-- A client that is attached is served from behind.
abbrev quiet : Io
quiet = record { recv = []; acts = [] }

abbrev live : ServerState
live = record fresh { sessions = (attach_exclusive fresh.sessions 1 7).0 }

is_live : InState attached (current live)
unfolding attach_exclusive neosh.Server.State.bootstrap_output neosh.Server.State.issue_auth_token
    new neosh.Session.Manager.create_session_with_id neosh.Session.Manager.default
is_live = refl

lag_closes_session_example :
    let f = forward_output live (followed_by (codes "abc" ∷ []) (lagged ∷ [])) in
    let s =
      show_output {Value = Value}
        (Screen.arriving ((4 ∷ codes "ab") ∷ codes "c" ∷ []) f.finished) in
    let o =
      handle_message daemon
        (online 120 first_auth)
        length
        f.server
        (upheld (opened 7))
        (agrees.up (close 1)) in
    (s.screen ≡ 4 ∷ codes "abc")
    × (s.signal ≡ some stream_closed)
    × (on_wake client session 1 (signalled stream_closed) quiet
        ≡ (record { recv = []; acts = sent (close 1) ∷ deletes 1 ∷ [] }, err closed))
    × InState terminated (current o.server)
    × (o.flow ≡ breaks)
    × (o.server.pty_exited ≡ false)
unfolding forward_output bootstrap_output new
lag_closes_session_example =
    lag_closes_session agrees length live (codes "abc" ∷ []) [] (4 ∷ [])
      ((4 ∷ codes "ab") ∷ codes "c" ∷ []) session quiet (online 120 first_auth) (opened 7) tt
      is_live refl client_writes refl
