-- ===== src/Link/Lag.antt =====
-- What becomes of a session when its forwarding task in src/bin/neoshd.rs falls behind: the client of
-- src/bin/neosh.rs takes the end of STDOUT for the exit of the terminal, and closes the session.
use neosh.Prelude.{
  concat, err, ap, ◌∙◌, refl, sym, subst, ◌≡◌, Text, Bytes, Uuid, ℕ, true, false, some, List, [],
  ◌∷◌, ◌++◌, arith,
}
use neosh.Protocol.Messages.{parse_message_kind, parse_message_kind_iff}
use neosh.Protocol.Dispatcher
use neosh.Protocol.Dispatcher.{on_message}
use neosh.Session.Manager
use neosh.Session.Manager.{attached, terminated}
use neosh.Server.State.{ServerState, current, append_replay}
use neosh.Server.State.Timeouts.{InState}
use neosh.Server.Wire.{Json}
use neosh.Server.Exchange.{Conn, Env, breaks}
use neosh.Server.Connection.{handle_message, dispatch, on_close}
use neosh.Server.Output.{Receive, lagged, forward_output}
use neosh.Server.Output.Forwarding.{Full, followed_by}
use neosh.Client.Control.{Serde, close}
use neosh.Client.Reconnect.{closed}
use neosh.Client.Session
use neosh.Client.Session.{Io, sent, deletes, stream_closed, signalled, on_wake}
use neosh.Client.Screen.{Shown, show_output, arriving, signal_at_end, show_output-arriving}
use neosh.Link.{kind_of, Agrees}
use neosh.Link.Connect.{ClientWrites}
use neosh.Link.Background.{upheld}

-- What the forwarding task did until it fell behind. It may have changed the replay buffer only.
forward_output-lagged :
    (st : ServerState) (cs : List Bytes) (rs : List Receive)
    → Full cs
    → let f = forward_output st (followed_by cs (lagged ∷ rs)) in
      (f.stdout ≡ concat cs)
      × (f.finished ≡ true)
      × (f.server ≡ record st { replay = f.server.replay })
unfolding forward_output append_replay
forward_output-lagged st [] rs h = (refl, refl, refl)
forward_output-lagged st ([] ∷ cs) rs h = elim h [ ]
forward_output-lagged st ((b ∷ bs) ∷ cs) rs h =
    let (out, finished, same) = forward_output-lagged (append_replay st (b ∷ bs)) cs rs h in
    (ap (λ t. (b ∷ bs) ++ t) out, finished, same)

-- CLOSE ends the session, whether the terminal has exited or not.
on_close-terminates :
    (json : Json) (env : Env) (st : ServerState) (c : Conn)
    → InState attached (current st)
    → let o = on_close json env st c in
      InState terminated (current o.server)
      × (o.flow ≡ breaks)
      × (o.server.pty_exited ≡ st.pty_exited)
unfolding on_close Manager.terminate
on_close-terminates json env st c h = ground arith

module _ {Value : Type 0} {cl : Serde Value} {json : Json} (a : Agrees cl json)
    (hash : Text → ℕ) where
  parse-close :
      (sid : Uuid)
      → parse_message_kind json.envelope (a.up (close sid)) ≡ some (kind_of (close sid))
  parse-close sid =
      (parse_message_kind_iff json.envelope (a.up (close sid)) (kind_of (close sid))).1
        (a.reads_type (close sid))

  handle_message-close :
      (env : Env) (st : ServerState) (c : Conn) (sid : Uuid)
      → InState attached (current st)
      → let o = handle_message json env hash st (upheld c) (a.up (close sid)) in
        InState terminated (current o.server)
        × (o.flow ≡ breaks)
        × (o.server.pty_exited ≡ st.pty_exited)
  unfolding handle_message on_message dispatch
  handle_message-close env st c sid h =
      rw (parse-close sid, handle_message)
        (on_close-terminates json env st
          (record c { dispatcher = record { state = Dispatcher.closed } }) h)

  on_wake-stream_closed :
      (cenv : Session.Env Value) (sid : Uuid) (io : Io)
      → ClientWrites cl cenv
      → on_wake cl cenv sid (signalled stream_closed) io
        ≡ (record io { acts = (io.acts ++ sent (close sid) ∷ []) ++ deletes sid ∷ [] }, err closed)
  unfolding on_wake
  on_wake-stream_closed cenv sid io w = rw (w.0 (close sid)) refl

  -- A session that is attached, whose terminal runs, and whose forwarding task falls behind after
  -- chunks that are not empty, if the client's terminal takes every chunk, however they are cut on the
  -- way, and its messages are written: the user is shown what the stream began with and what was
  -- forwarded before, the session is told of the end of STDOUT, and on that signal the client sends
  -- CLOSE, removes its entry of the cache and ends as closed; and the daemon, on that CLOSE from a
  -- connection that is attached, terminates the session and leaves its loop, though the terminal has
  -- not exited.
  pub lag_closes_session :
      (st : ServerState) (cs : List Bytes) (rs : List Receive) (first : Bytes) (cut : List Bytes)
      (cenv : Session.Env Value) (io : Io) (env : Env) (c : Conn)
      → Full cs
      → InState attached (current st)
      → st.pty_exited ≡ false
      → ClientWrites cl cenv
      → concat cut ≡ first ++ (forward_output st (followed_by cs (lagged ∷ rs))).stdout
      → let f = forward_output st (followed_by cs (lagged ∷ rs)) in
        let s = show_output {Value = Value} (arriving cut f.finished) in
        let o = handle_message json env hash f.server (upheld c) (a.up (close st.session_id)) in
        (s.screen ≡ first ++ concat cs)
        × (s.signal ≡ some stream_closed)
        × (on_wake cl cenv st.session_id (signalled stream_closed) io ≡ (
          record io {
            acts = (io.acts ++ sent (close st.session_id) ∷ []) ++ deletes st.session_id ∷ [];
          },
          err closed,
        ))
        × InState terminated (current o.server)
        × (o.flow ≡ breaks)
        × (o.server.pty_exited ≡ false)
  lag_closes_session st cs rs first cut cenv io env c full h running w e =
      let f = forward_output st (followed_by cs (lagged ∷ rs)) in
      let (out, finished, same) = forward_output-lagged st cs rs full in
      let shown = show_output-arriving {Value = Value} cut f.finished in
      let attached_now = subst (λ x. InState attached (current x)) (sym same) h in
      let closing = handle_message-close env f.server c st.session_id attached_now in
      (
        ap (λ (s : Shown Value). s.screen) shown ∙ (e ∙ ap (λ t. first ++ t) out),
        ap (λ (s : Shown Value). s.signal) shown ∙ ap signal_at_end finished,
        on_wake-stream_closed cenv st.session_id io w,
        closing.0,
        closing.1,
        closing.2 ∙ (ap (λ (x : ServerState). x.pty_exited) same ∙ running),
      )
