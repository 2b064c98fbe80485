-- ===== src/Client/Session.antt =====
-- `run_session` of src/bin/neosh.rs: one connection of the client, from its handshake to its end. What
-- it meets outside answers through `Env`; what it does is a list of acts. The terminal's raw mode,
-- the socket's file and the closing of the endpoint are not modelled.
pub mod Triples
pub mod Phases
pub mod Order
pub mod Attach
pub mod Plain
pub mod Watch
pub mod Errors
pub mod Ipc
use neosh.Prelude.{
  ◌%◌, ◌^◌, ℕ, Bool, false, not, Option, none, some, List, [], ◌∷◌, ◌++◌, ◌+◌, Text, Bytes, Uuid,
  codes, if◌then◌else◌, Result, ok, err, map_err,
}
use neosh.Client.Bootstrap.{BootstrapPayload}
use neosh.Client.Transport
use neosh.Client.Transport.{QuicClientError}
use neosh.Client.Reconnect.{
  CliError, SessionCacheEntry, SessionMode, attach, resume, auth_failed, closed, protocol, quic,
  cache, io, disconnected,
}
use neosh.Client.Control.{
  Message, hello, auth, attach_msg, resume_msg, resize, detach, close, AuthOk, Serde, is_text,
  message_type, is_error_code, send_json, read_json, expect_type,
}

-- A message that the stream took, an entry given to the cache, one removed from it, and a wait.
pub data Act : Type 0 where
  sent : Message → Act
  puts : SessionCacheEntry → Act
  deletes : Uuid → Act
  sleeps : ℕ → Act

-- The bytes that will arrive on the control stream, and the acts so far.
pub record Io : Type 0 where
  pub recv : Bytes
  pub acts : List Act

abbrev pub Run : Type 0 → Type 0
Run A = Io → Io × Result CliError A

abbrev pub next : {A B : Type 0} → (A → Run B) → Io × Result CliError A → Io × Result CliError B
next f (s, ok a) = f a s
next f (s, err e) = (s, err e)

infixl 5 ◌>>=◌ ◌>>◌
abbrev pub ◌>>=◌ : {A B : Type 0} → Run A → (A → Run B) → Run B
(m >>= f) s = next f (m s)

abbrev pub ◌>>◌ : {A B : Type 0} → Run A → Run B → Run B
m >> k = m >>= λ _. k

abbrev pub lift : {A : Type 0} → Result CliError A → Run A
lift r s = (s, r)

abbrev pub act : Act → Run (Unit {0})
act a s = (record s { acts = s.acts ++ a ∷ [] }, ok tt)

-- `let _ = …`: the error is dropped.
abbrev pub attempt : Run (Unit {0}) → Run (Unit {0})
attempt m s = ((m s).0, ok tt)

pub data ControlSignal (Value : Type 0) : Type 0 where
  close_signal disconnected_signal stream_closed : ControlSignal Value
  error_signal : Value → ControlSignal Value

-- Which branch the `select!` takes.
pub data Wake (Value : Type 0) : Type 0 where
  notified : Wake Value
  signalled : ControlSignal Value → Wake Value

-- What a session meets, in the order of the code: the connection and its control stream, the clock at
-- its two readings, the cache's answer, the size of the terminal, the socket for `detach`, the data
-- streams, the wake, and `detach_requested_from_ipc` at each load of it.
pub record Env (Value : Type 0) : Type 0 where
  pub verified : Result QuicClientError (Unit {0})
  pub open_bi : Result Text Bytes
  pub write_all : Bytes → Result Text (Unit {0})
  pub expires_now : ℕ
  pub updated_now : ℕ
  pub put : Result Text (Unit {0})
  pub tty_size : Option (ℕ × ℕ)
  pub ipc_dir : Result Text (Unit {0})
  pub ipc_bind : Result Text (Unit {0})
  pub ipc_permissions : Result Text (Unit {0})
  pub accept_uni : Result Text (Unit {0})
  pub open_uni : Result Text (Unit {0})
  pub wake : Wake Value
  pub ipc_at_wake : Bool
  pub ipc_before_sleep : Bool
  pub ipc_after_sleep : Bool

abbrev pub logged : Message → Result CliError (Unit {0}) → Run (Unit {0})
logged m (ok _) = act (sent m)
logged m (err e) = lift (err e)

abbrev pub took : {A : Type 0} → Result CliError (A × Bytes) → Run A
took (ok (v, rest)) s = (record s { recv = rest }, ok v)
took (err e) s = (s, err e)

module _ {Value : Type 0} (json : Serde Value) where
  -- The checks on the answer to AUTH.
  unfoldable pub check_auth : Value → Result CliError AuthOk
  check_auth v =
      if is_text (message_type json v) (codes "ERROR")
      then (if is_error_code json v (codes "AUTH_FAILED")
          then err auth_failed
          else err (protocol (codes "AUTH failed: " ++ json.shown v)))
      else if not (is_text (message_type json v) (codes "AUTH_OK"))
      then err (protocol (codes "expected AUTH_OK, got " ++ json.shown v))
      else map_err (λ e. protocol (codes "bad AUTH_OK: " ++ e)) (json.auth_ok v)

  -- The entry that the session leaves in the cache. The sum is a `u64`, which wraps in a release build.
  unfoldable pub entry_for : Env Value → Text → BootstrapPayload → AuthOk → SessionCacheEntry
  entry_for env target payload a = record {
    session_id = a.session_id;
    ssh_target = target;
    resume_token = a.resume_token;
    resume_token_expires_at = (env.expires_now + a.resume_token_expires_in_seconds) % 2 ^ 64;
    quic_addr = payload.quic_addr;
    cert_fingerprint = payload.cert_fingerprint;
    updated_at = env.updated_now;
  }

  module _ (env : Env Value) where
    abbrev pub send : Message → Run (Unit {0})
    send m = logged m (send_json json env.write_all m)

    abbrev pub read : Run Value
    read s = took (read_json json s.recv) s

    abbrev pub expect : Text → Run Value
    expect expected s = took (expect_type json s.recv expected) s

    -- The answer to RESUME.
    unfoldable pub check_resume : Uuid → Value → Run (Unit {0})
    check_resume session_id v =
        if is_text (message_type json v) (codes "ERROR")
        then (do
          if is_error_code json v (codes "SESSION_EXPIRED")
              then act (deletes session_id)
              else lift (ok tt)
          lift (err (protocol (codes "RESUME failed: " ++ json.shown v))))
        else (do
          resumed ← lift (map_err (λ e. protocol (codes "bad RESUME_OK: " ++ e)) (json.resume_ok v))
          lift (ok tt))

    unfoldable pub enter : SessionMode → AuthOk → Run (Unit {0})
    unfolding check_resume
    enter attach a = do
      send (attach_msg a.session_id)
      answer ← expect (codes "ATTACH_OK")
      lift (ok tt)
    enter (resume session_id resume_token) a = do
      send (resume_msg a.session_id resume_token)
      v ← read
      check_resume session_id v

    -- From HELLO to the answer to ATTACH or RESUME.
    unfoldable pub handshake : Text → BootstrapPayload → SessionMode → Run AuthOk
    unfolding check_auth entry_for enter
    handshake target payload mode = do
      send hello
      expect (codes "HELLO_ACK")
      send (auth payload.auth_token)
      v ← read
      a ← lift (check_auth v)
      act (puts (entry_for env target payload a))
      lift (map_err cache env.put)
      enter mode a
      lift (ok a)

    unfoldable pub first_resize : Option (ℕ × ℕ) → Run (Unit {0})
    first_resize none = lift (ok tt)
    first_resize (some (rows, cols)) = attempt (send (resize rows cols))

    abbrev pub accepted : Result CliError (Unit {0})
    accepted = map_err (λ e. protocol (codes "accept stdout stream failed: " ++ e)) env.accept_uni

    abbrev pub opened : Result CliError (Unit {0})
    opened = map_err (λ e. protocol (codes "open stdin stream failed: " ++ e)) env.open_uni

    -- The first size of the terminal, the socket and the data streams.
    unfoldable pub set_up : Run (Unit {0})
    unfolding first_resize
    set_up = do
      first_resize env.tty_size
      lift (map_err io env.ipc_dir)
      lift (map_err io env.ipc_bind)
      lift (map_err io env.ipc_permissions)
      lift accepted
      lift opened

    -- The `select!`: whether DETACH is to be sent, and whether the connection is lost.
    unfoldable pub on_wake : Uuid → Wake Value → Run (Bool × Bool)
    on_wake sid notified = lift (ok (not env.ipc_at_wake, false))
    on_wake sid (signalled close_signal) = do act (deletes sid); lift (ok (false, false))
    on_wake sid (signalled (error_signal v)) =
        lift (err (protocol (codes "control error: " ++ json.shown v)))
    on_wake sid (signalled disconnected_signal) = lift (ok (false, not env.ipc_at_wake))
    on_wake sid (signalled stream_closed) = do
      attempt (send (close sid))
      act (deletes sid)
      lift (err closed)

    -- The end of a session that was not left in the `select!`.
    unfoldable pub wind_up : Uuid → Bool × Bool → Run (Unit {0})
    wind_up sid (should_send_detach, is_disconnected) = do
      if should_send_detach then send detach else lift (ok tt)
      if is_disconnected
          then (do
            if env.ipc_before_sleep then lift (ok tt) else act (sleeps 100)
            if env.ipc_after_sleep then lift (ok tt) else lift (err (disconnected sid)))
          else lift (ok tt)

    unfoldable pub whole_session : Text → BootstrapPayload → SessionMode → Run (Unit {0})
    unfolding handshake set_up on_wake wind_up
    whole_session target payload mode = do
      a ← handshake target payload mode
      set_up
      outcome ← on_wake a.session_id env.wake
      wind_up a.session_id outcome

    abbrev pub start : Result Text Bytes → Io
    start (ok bytes) = record { recv = bytes; acts = [] }
    start (err e) = record { recv = []; acts = [] }

    abbrev pub connected_to : Result CliError (Unit {0})
    connected_to = map_err (λ e. quic (Transport.to_string e)) env.verified

    abbrev pub control_opened : Result CliError Bytes
    control_opened = map_err (λ e. protocol (codes "open control stream failed: " ++ e)) env.open_bi

    unfoldable pub session : Text → BootstrapPayload → SessionMode → Run (Unit {0})
    unfolding whole_session
    session target payload mode = do
      lift connected_to
      lift control_opened
      whole_session target payload mode

    unfoldable pub run_session :
        Text → BootstrapPayload → SessionMode → Io × Result CliError (Unit {0})
    unfolding session
    run_session target payload mode = session target payload mode (start env.open_bi)
