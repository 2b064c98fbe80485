-- ===== src/Client/Session/Errors.antt =====
-- src/bin/neosh.rs: what an error of `run_session` means, which connect_cmd and resume_with_backoff
-- rely on.
use neosh.Prelude.{
  ℕ, Bool, true, false, not, Option, none, some, List, [], ◌∷◌, ◌++◌, Text, Bytes, Uuid,
  if◌then◌else◌, Result, ok, err, map_err, ◌≡◌, refl,
}
use neosh.Client.Bootstrap.{BootstrapPayload}
use neosh.Client.Transport
use neosh.Client.Transport.{QuicClientError}
use neosh.Client.Reconnect.{
  CliError, bootstrap, quic, protocol, cache, io, auth_failed, closed, disconnected, SessionMode,
  attach, resume, deletes, puts, sleeps,
}
use neosh.Client.Control.{
  Message, hello, auth, attach_msg, resume_msg, detach, close, AuthOk, Serde, send_json, read_json,
  expect_type,
}
use neosh.Client.Session.{
  Act, puts, deletes, sleeps, Io, lift, act, attempt, close_signal, disconnected_signal,
  stream_closed, error_signal, Wake, notified, signalled, Env, logged, took, check_auth, entry_for,
  send, read, expect, check_resume, enter, handshake, first_resize, accepted, opened, set_up,
  on_wake, wind_up, whole_session, start, connected_to, control_opened, session, run_session,
}
use neosh.Client.Session.Plain.{
  Plain, AllPlain, map_err-AllPlain, send_json-AllPlain, read_json-AllPlain, expect_type-AllPlain,
  check_auth-AllPlain,
}
use neosh.Client.Session.Triples.{Post, Triple, triple, run_triple, bind, branch}

-- The last act was to remove an entry of the cache.
abbrev pub Deleted : Io → Type 0
Deleted s = (before : List Act) × (sid : Uuid) × (s.acts ≡ before ++ deletes sid ∷ [])

abbrev Any : Io → Type 0
Any s = Unit

not-true : (b : Bool) → not b ≡ true → b ≡ false
not-true true h = cc
not-true false h = refl

quic-AllPlain :
    {A : Type 0} (r : Result QuicClientError A)
    → AllPlain (map_err (λ e. quic (Transport.to_string e)) r)
quic-AllPlain (ok a) = tt
quic-AllPlain (err e) = tt

module _ {Value : Type 0} (json : Serde Value) (env : Env Value) where
  -- The connection was lost, with no request to detach, neither then nor after the wait.
  abbrev pub Lost : Type 0
  Lost =
      (env.wake ≡ signalled disconnected_signal)
      × (env.ipc_at_wake ≡ false)
      × (env.ipc_after_sleep ≡ false)

  abbrev pub Means : CliError → Io → Type 0
  Means closed s = (env.wake ≡ signalled stream_closed) × Deleted s
  Means (disconnected sid) s = Lost
  Means _ s = Unit

  Plain-Means : (e : CliError) (s : Io) → Plain e → Means e s
  Plain-Means (bootstrap t) s h = tt
  Plain-Means (quic t) s h = tt
  Plain-Means (protocol t) s h = tt
  Plain-Means (cache t) s h = tt
  Plain-Means (io t) s h = tt
  Plain-Means auth_failed s h = tt
  Plain-Means closed s h = elim h [ ]
  Plain-Means (disconnected sid) s h = elim h [ ]

  lift-Means :
      {A : Type 0} (r : Result CliError A) → AllPlain r → Triple Means Any (lift r) (λ _. Any)
  lift-Means (ok _) h = triple (λ s p. tt)
  lift-Means (err e) h = triple (λ s p. Plain-Means e s h)

  logged-Means :
      (m : Message) (r : Result CliError (Unit {0}))
      → AllPlain r
      → Triple Means Any (logged m r) (λ _. Any)
  logged-Means m (ok _) h = triple (λ s p. tt)
  logged-Means m (err e) h = triple (λ s p. Plain-Means e s h)

  send-Means : (m : Message) → Triple Means Any (send json env m) (λ _. Any)
  send-Means m =
      logged-Means m (send_json json env.write_all m) (send_json-AllPlain json env.write_all m)

  took-Means :
      {A : Type 0} (r : Result CliError (A × Bytes)) (s : Io)
      → AllPlain r
      → Post Means (λ _. Any) (took r s)
  took-Means (ok _) s h = tt
  took-Means (err e) s h = Plain-Means e s h

  read-Means : Triple Means Any (read json env) (λ _. Any)
  read-Means = triple (λ s p. took-Means (read_json json s.recv) s (read_json-AllPlain json s.recv))

  expect-Means : (t : Text) → Triple Means Any (expect json env t) (λ _. Any)
  expect-Means t =
      triple (λ s p. took-Means (expect_type json s.recv t) s (expect_type-AllPlain json s.recv t))

  act-Means : (a : Act) → Triple Means Any (act a) (λ _. Any)
  act-Means a = triple (λ s p. tt)

  check_resume-Means :
      (sid : Uuid) (v : Value) → Triple Means Any (check_resume json env sid v) (λ _. Any)
  unfolding check_resume
  check_resume-Means sid v =
      branch _
        (bind (branch _ (act-Means (deletes sid)) (lift-Means (ok tt) tt)) (λ _. lift-Means _ tt))
        (bind (lift-Means _ (map_err-AllPlain _ (json.resume_ok v) (λ t. tt)))
          (λ _. lift-Means (ok tt) tt))

  enter-Means :
      (mode : SessionMode) (a : AuthOk) → Triple Means Any (enter json env mode a) (λ _. Any)
  unfolding enter
  enter-Means attach a =
      bind (send-Means (attach_msg a.session_id))
        (λ _. bind (expect-Means _) (λ _. lift-Means (ok tt) tt))
  enter-Means (resume sid token) a =
      bind (send-Means (resume_msg a.session_id token))
        (λ _. bind read-Means (check_resume-Means sid))

  handshake-Means :
      (target : Text) (payload : BootstrapPayload) (mode : SessionMode)
      → Triple Means Any (handshake json env target payload mode) (λ _. Any)
  unfolding handshake
  handshake-Means target payload mode = bind (send-Means hello) (λ _. bind (expect-Means _) (λ _.
      bind (send-Means (auth payload.auth_token)) (λ _. bind read-Means (λ v.
        bind (lift-Means (check_auth json v) (check_auth-AllPlain json v)) (λ a.
          bind (act-Means (puts (entry_for json env target payload a))) (λ _.
            bind (lift-Means (map_err cache env.put) (map_err-AllPlain cache env.put (λ t. tt)))
              (λ _. bind (enter-Means mode a) (λ _. lift-Means (ok a) tt))))))))

  resize-Means : (size : Option (ℕ × ℕ)) → Triple Means Any (first_resize json env size) (λ _. Any)
  unfolding first_resize
  resize-Means none = lift-Means (ok tt) tt
  resize-Means (some (rows, cols)) = triple (λ s p. tt)

  set_up-Means : Triple Means Any (set_up json env) (λ _. Any)
  unfolding set_up
  set_up-Means = bind (resize-Means env.tty_size) (λ _.
      bind (lift-Means (map_err io env.ipc_dir) (map_err-AllPlain io env.ipc_dir (λ t. tt))) (λ _.
        bind (lift-Means (map_err io env.ipc_bind) (map_err-AllPlain io env.ipc_bind (λ t. tt)))
          (λ _.
            bind
              (lift-Means (map_err io env.ipc_permissions)
                (map_err-AllPlain io env.ipc_permissions (λ t. tt)))
              (λ _.
                bind (lift-Means (accepted json env) (map_err-AllPlain _ env.accept_uni (λ t. tt)))
                  (λ _.
                    lift-Means (opened json env) (map_err-AllPlain _ env.open_uni (λ t. tt)))))))

  -- After the `select!`: that the connection is lost is so.
  abbrev Outcome : Bool × Bool → Io → Type 0
  Outcome (b, d) s =
      d ≡ true → (env.wake ≡ signalled disconnected_signal) × (env.ipc_at_wake ≡ false)

  on_wake-Means :
      (sid : Uuid) (w : Wake Value)
      → env.wake ≡ w
      → Triple Means Any (on_wake json env sid w) Outcome
  unfolding on_wake
  on_wake-Means sid notified h = triple (λ s p e. cc)
  on_wake-Means sid (signalled close_signal) h = triple (λ s p e. cc)
  on_wake-Means sid (signalled (error_signal v)) h = triple (λ s p. tt)
  on_wake-Means sid (signalled disconnected_signal) h =
      triple (λ s p e. (h, not-true env.ipc_at_wake e))
  on_wake-Means sid (signalled stream_closed) h =
      triple (λ s p. (h, ((attempt (send json env (close sid)) s).0.acts, sid, refl)))

  left-Means :
      (sid : Uuid) (again : Bool)
      → env.ipc_after_sleep ≡ again
      → (env.wake ≡ signalled disconnected_signal) × (env.ipc_at_wake ≡ false)
      → Triple Means Any (if again then lift (ok tt) else lift (err (disconnected sid))) (λ _. Any)
  left-Means sid true h lost = lift-Means (ok tt) tt
  left-Means sid false h lost = triple (λ s p. (lost.0, lost.1, h))

  detach-Means :
      (b : Bool) → Triple Means Any (if b then send json env detach else lift (ok tt)) (λ _. Any)
  detach-Means b = branch b (send-Means detach) (lift-Means (ok tt) tt)

  wind_up-lost :
      (sid : Uuid) (b : Bool)
      → (env.wake ≡ signalled disconnected_signal) × (env.ipc_at_wake ≡ false)
      → Triple Means Any (wind_up json env sid (b, true)) (λ _. Any)
  unfolding wind_up
  wind_up-lost sid b lost = bind (detach-Means b) (λ _.
      bind (branch env.ipc_before_sleep (lift-Means (ok tt) tt) (act-Means (sleeps 100)))
        (λ _. left-Means sid env.ipc_after_sleep refl lost))

  wind_up-kept :
      (sid : Uuid) (b : Bool) → Triple Means Any (wind_up json env sid (b, false)) (λ _. Any)
  unfolding wind_up
  wind_up-kept sid b = bind (detach-Means b) (λ _. lift-Means (ok tt) tt)

  wind_up-Means :
      (sid : Uuid) (outcome : Bool × Bool)
      → Triple Means (Outcome outcome) (wind_up json env sid outcome) (λ _. Any)
  wind_up-Means sid (b, false) = triple (λ s p. run_triple (wind_up-kept sid b) s tt)
  wind_up-Means sid (b, true) = triple (λ s p. run_triple (wind_up-lost sid b (p refl)) s tt)

  session-Means :
      (target : Text) (payload : BootstrapPayload) (mode : SessionMode)
      → Triple Means Any (session json env target payload mode) (λ _. Any)
  unfolding session whole_session
  session-Means target payload mode =
      bind (lift-Means (connected_to json env) (quic-AllPlain env.verified)) (λ _.
        bind (lift-Means (control_opened json env) (map_err-AllPlain _ env.open_bi (λ t. tt))) (λ _.
          bind (handshake-Means target payload mode) (λ a.
            bind set_up-Means
              (λ _. bind (on_wake-Means a.session_id env.wake refl) (wind_up-Means a.session_id)))))

  -- What an error says of its session.
  abbrev pub ErrorMeans : Io × Result CliError (Unit {0}) → Type 0
  ErrorMeans (s, ok _) = Unit
  ErrorMeans (s, err e) = Means e s

  Post-ErrorMeans : (r : Io × Result CliError (Unit {0})) → Post Means (λ _. Any) r → ErrorMeans r
  Post-ErrorMeans (s, ok a) h = tt
  Post-ErrorMeans (s, err e) h = h

  -- A session ends as lost only if the stream of output failed and `detach` was not requested, neither
  -- then nor after the wait, so that to resume it undoes no detach; and it ends as closed only if that
  -- stream came to its end, and then its last act was to remove an entry of the cache.
  pub run_session-ErrorMeans :
      (target : Text) (payload : BootstrapPayload) (mode : SessionMode)
      → ErrorMeans (run_session json env target payload mode)
  unfolding run_session
  run_session-ErrorMeans target payload mode =
      Post-ErrorMeans (run_session json env target payload mode)
        (run_triple (session-Means target payload mode) (start json env env.open_bi) tt)
