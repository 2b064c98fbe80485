-- ===== src/Client/Session/Order.antt =====
-- src/bin/neosh.rs: the order of the messages of `run_session`.
use neosh.Prelude.{
  ℕ, Bool, false, Option, none, some, Text, Bytes, Uuid, Result, ok, err, map_err, refl,
}
use neosh.Client.Reconnect.{CliError, cache, io, closed, disconnected, SessionMode, attach, resume}
use neosh.Client.Bootstrap.{BootstrapPayload}
use neosh.Client.Control.{
  hello, auth, attach_msg, resume_msg, resize, detach, close, AuthOk, Serde, send_json, read_json,
  expect_type,
}
use neosh.Client.Session.{
  sent, puts, deletes, sleeps, Io, lift, act, attempt, close_signal, disconnected_signal,
  stream_closed, error_signal, Wake, notified, signalled, Env, logged, check_auth, entry_for, read,
  expect, check_resume, enter, handshake, first_resize, accepted, opened, set_up, on_wake, wind_up,
  whole_session, start, connected_to, control_opened, session, run_session,
}
use neosh.Client.Session.Triples.{Post, Triple, triple, run_triple, bind, branch}
use neosh.Client.Session.Phases.{
  Phase, silent, greeted, authenticating, entered, ended, advance, walk, At, Ordered, Broken,
  act-At, logged-At, took-At, lift-At, quiet-At, attempt-At, waits, stays,
}

module _ {Value : Type 0} (json : Serde Value) (env : Env Value) where
  read-At : (p : Phase) → Triple Broken (At p) (read json env) (λ _. At p)
  read-At p = triple (λ s h. took-At p (read_json json s.recv) s h)

  expect-At : (p : Phase) (t : Text) → Triple Broken (At p) (expect json env t) (λ _. At p)
  expect-At p t = triple (λ s h. took-At p (expect_type json s.recv t) s h)

  check_resume-At :
      (sid : Uuid) (v : Value)
      → Triple Broken (At entered) (check_resume json env sid v) (λ _. At entered)
  unfolding check_resume advance
  check_resume-At sid v =
      branch _
        (bind (branch _ (quiet-At entered (deletes sid) refl) (lift-At entered (ok tt)))
          (λ _. lift-At entered _))
        (bind (lift-At entered _) (λ _. lift-At entered (ok tt)))

  enter-At :
      (mode : SessionMode) (a : AuthOk)
      → Triple Broken (At authenticating) (enter json env mode a) (λ _. At entered)
  unfolding enter advance
  enter-At attach a =
      bind (logged-At authenticating entered (attach_msg a.session_id) _ refl)
        (λ _. bind (expect-At entered _) (λ _. lift-At entered (ok tt)))
  enter-At (resume sid token) a =
      bind (logged-At authenticating entered (resume_msg a.session_id token) _ refl)
        (λ _. bind (read-At entered) (check_resume-At sid))

  handshake-At :
      (target : Text) (payload : BootstrapPayload) (mode : SessionMode)
      → Triple Broken (At silent) (handshake json env target payload mode) (λ _. At entered)
  unfolding handshake advance
  handshake-At target payload mode = bind (logged-At silent greeted hello _ refl) (λ _.
      bind (expect-At greeted _) (λ _.
        bind (logged-At greeted authenticating (auth payload.auth_token) _ refl) (λ _.
          bind (read-At authenticating) (λ v.
            bind (lift-At authenticating (check_auth json v)) (λ a.
              bind (quiet-At authenticating (puts (entry_for json env target payload a)) refl) (λ _.
                bind (lift-At authenticating (map_err cache env.put))
                  (λ _. bind (enter-At mode a) (λ _. lift-At entered (ok a)))))))))

  resize-At :
      (size : Option (ℕ × ℕ))
      → Triple Broken (At entered) (first_resize json env size) (λ _. At entered)
  unfolding first_resize advance
  resize-At none = lift-At entered (ok tt)
  resize-At (some (rows, cols)) = attempt-At entered (resize rows cols) _ refl

  set_up-At : Triple Broken (At entered) (set_up json env) (λ _. At entered)
  unfolding set_up
  set_up-At = bind (resize-At env.tty_size) (λ _.
      bind (lift-At entered (map_err io env.ipc_dir)) (λ _.
        bind (lift-At entered (map_err io env.ipc_bind)) (λ _.
          bind (lift-At entered (map_err io env.ipc_permissions)) (λ _.
            bind (lift-At entered (accepted json env)) (λ _. lift-At entered (opened json env))))))

  close-Ordered :
      (sid : Uuid) (r : Result CliError (Unit {0}))
      → Triple Broken (At entered) (attempt (logged (close sid) r)) (λ _. Ordered)
  unfolding advance
  close-Ordered sid (ok _) =
      triple (λ s h. (ended, act-At entered ended (sent (close sid)) s refl h))
  close-Ordered sid (err e) = triple (λ s h. (entered, h))

  lift-Ordered :
      {A : Type 0} (r : Result CliError A) → Triple Broken Ordered (lift r) (λ _. Ordered)
  lift-Ordered (ok _) = triple (λ s h. h)
  lift-Ordered (err e) = triple (λ s h. h)

  deletes-Ordered : (sid : Uuid) → Triple Broken Ordered (act (deletes sid)) (λ _. Ordered)
  unfolding advance
  deletes-Ordered sid = triple (λ s h. (h.0, act-At h.0 h.0 (deletes sid) s (stays h.0 sid) h.1))

  sleeps-Ordered : (n : ℕ) → Triple Broken Ordered (act (sleeps n)) (λ _. Ordered)
  sleeps-Ordered n = triple (λ s h. (h.0, act-At h.0 h.0 (sleeps n) s (waits h.0 n) h.1))

  fails-Ordered :
      {A : Type 0} (e : CliError) (Q : A → Io → Type 0) → Triple Broken Ordered (lift (err e)) Q
  fails-Ordered e Q = triple (λ s h. h)

  on_wake-At :
      (sid : Uuid) (w : Wake Value)
      → Triple Broken (At entered) (on_wake json env sid w) (λ _. At entered)
  unfolding on_wake advance
  on_wake-At sid notified = lift-At entered _
  on_wake-At sid (signalled close_signal) =
      bind (quiet-At entered (deletes sid) refl) (λ _. lift-At entered (ok (false, false)))
  on_wake-At sid (signalled (error_signal v)) = lift-At entered _
  on_wake-At sid (signalled disconnected_signal) = lift-At entered _
  on_wake-At sid (signalled stream_closed) =
      bind (close-Ordered sid (send_json json env.write_all (close sid)))
        (λ _. bind (deletes-Ordered sid) (λ _. fails-Ordered closed (λ _. At entered)))

  detach-Ordered :
      (r : Result CliError (Unit {0})) → Triple Broken (At entered) (logged detach r) (λ _. Ordered)
  unfolding advance
  detach-Ordered (ok _) = triple (λ s h. (ended, act-At entered ended (sent detach) s refl h))
  detach-Ordered (err e) = triple (λ s h. (entered, h))

  wind_up-Ordered :
      (sid : Uuid) (outcome : Bool × Bool)
      → Triple Broken (At entered) (wind_up json env sid outcome) (λ _. Ordered)
  unfolding wind_up advance
  wind_up-Ordered sid (b, d) =
      bind
        (branch b (detach-Ordered (send_json json env.write_all detach))
          (triple (λ s h. (entered, h))))
        (λ _.
          branch d
            (bind (branch env.ipc_before_sleep (lift-Ordered (ok tt)) (sleeps-Ordered 100)) (λ _.
              branch env.ipc_after_sleep (lift-Ordered (ok tt))
                (lift-Ordered (err (disconnected sid)))))
            (lift-Ordered (ok tt)))

  whole_session-Ordered :
      (target : Text) (payload : BootstrapPayload) (mode : SessionMode)
      → Triple Broken (At silent) (whole_session json env target payload mode) (λ _. Ordered)
  unfolding whole_session
  whole_session-Ordered target payload mode = bind (handshake-At target payload mode) (λ a.
      bind set_up-At (λ _. bind (on_wake-At a.session_id env.wake) (wind_up-Ordered a.session_id)))

  Post-Ordered :
      {A : Type 0} (r : Io × Result CliError A) → Post Broken (λ _. Ordered) r → Ordered r.0
  Post-Ordered (s, ok a) h = h
  Post-Ordered (s, err e) h = h

  start-At : (bytes : Result Text Bytes) → At silent (start json env bytes)
  unfolding walk
  start-At (ok b) = refl
  start-At (err e) = refl

  session-Ordered :
      (target : Text) (payload : BootstrapPayload) (mode : SessionMode)
      → Triple Broken (At silent) (session json env target payload mode) (λ _. Ordered)
  unfolding session
  session-Ordered target payload mode = bind (lift-At silent (connected_to json env)) (λ _.
      bind (lift-At silent (control_opened json env))
        (λ _. whole_session-Ordered target payload mode))

  -- Whatever the session meets, and wherever it ends: `run_session` itself, the tasks that it
  -- spawns aside, sends no message out of order. HELLO comes first, then AUTH, then ATTACH or
  -- RESUME, then sizes of the terminal, and at the end at most one of DETACH and CLOSE.
  pub run_session-Ordered :
      (target : Text) (payload : BootstrapPayload) (mode : SessionMode)
      → Ordered (run_session json env target payload mode).0
  unfolding run_session
  run_session-Ordered target payload mode =
      Post-Ordered (run_session json env target payload mode) (
        run_triple (session-Ordered target payload mode) (start json env env.open_bi)
          (start-At env.open_bi))
