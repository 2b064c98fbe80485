-- ===== src/Client/Session/Plain.antt =====
-- src/bin/neosh.rs: the errors of the steps of a handshake.
use neosh.Client.Reconnect.{auth_failed, CliError, closed, disconnected, protocol}
use neosh.Prelude.{
  ltb, if◌then◌else◌, Result, ok, err, ◌>>=◌, guard, map_err, Text, Bytes, codes, Bool, true, false,
  not, ◌++◌,
}
use neosh.Server.Wire.{max_control_frame, read_exact, header_len}
use neosh.Client.Control.{
  ControlError, control_text, Message, Serde, is_text, encode_control_json, send_json, read_json,
  expect_type,
}
use neosh.Client.Session.{check_auth}

-- Every other error than the two of a session that was attached.
abbrev pub Plain : CliError → Type 0
Plain closed = ⊥
Plain (disconnected sid) = ⊥
Plain _ = Unit

abbrev pub AllPlain : {A : Type 0} → Result CliError A → Type 0
AllPlain (ok a) = Unit
AllPlain (err e) = Plain e

pub map_err-AllPlain :
    {A : Type 0} (f : Text → CliError) (r : Result Text A)
    → ((t : Text) → Plain (f t))
    → AllPlain (map_err f r)
map_err-AllPlain f (ok a) h = tt
map_err-AllPlain f (err e) h = h e

bind-AllPlain :
    {A B : Type 0} (r : Result CliError A) (f : A → Result CliError B)
    → AllPlain r
    → ((a : A) → AllPlain (f a))
    → AllPlain (r >>= f)
bind-AllPlain (ok a) f h k = k a
bind-AllPlain (err e) f h k = h

guard-AllPlain : (b : Bool) (e : CliError) → Plain e → AllPlain (guard b e)
guard-AllPlain true e h = tt
guard-AllPlain false e h = h

answer-AllPlain :
    {A : Type 0} (is_error is_auth_failed is_auth_ok : Bool) (e1 e2 : Text) (r : Result CliError A)
    → AllPlain r
    → AllPlain (
        if is_error
        then (if is_auth_failed then err auth_failed else err (protocol e1))
        else if not is_auth_ok
        then err (protocol e2)
        else r)
answer-AllPlain true true c e1 e2 r h = tt
answer-AllPlain true false c e1 e2 r h = tt
answer-AllPlain false b true e1 e2 r h = h
answer-AllPlain false b false e1 e2 r h = tt

module _ {Value : Type 0} (json : Serde Value) where
  encode-AllPlain :
      (r : Result ControlError Bytes) → AllPlain (map_err (λ e. protocol (control_text e)) r)
  encode-AllPlain (ok a) = tt
  encode-AllPlain (err e) = tt

  pub send_json-AllPlain :
      (write : Bytes → Result Text (Unit {0})) (m : Message) → AllPlain (send_json json write m)
  unfolding send_json
  send_json-AllPlain write m =
      bind-AllPlain _ _ (encode-AllPlain (encode_control_json json m))
        (λ frame. map_err-AllPlain _ (write frame) (λ t. tt))

  pub read_json-AllPlain : (recv : Bytes) → AllPlain (read_json json recv)
  unfolding read_json
  read_json-AllPlain recv =
      bind-AllPlain _ _ (map_err-AllPlain _ (read_exact 4 recv) (λ t. tt)) (λ header.
        bind-AllPlain _ _ (guard-AllPlain (not (ltb max_control_frame (header_len header.0))) _ tt)
          (λ _.
            bind-AllPlain _ _
              (map_err-AllPlain _ (read_exact (header_len header.0) header.1) (λ t. tt))
              (λ payload.
                bind-AllPlain _ _ (map_err-AllPlain _ (json.from_slice payload.0) (λ t. tt))
                  (λ v. tt))))

  pub expect_type-AllPlain : (recv : Bytes) (t : Text) → AllPlain (expect_type json recv t)
  unfolding expect_type
  expect_type-AllPlain recv t = bind-AllPlain _ _ (read_json-AllPlain recv) (λ frame.
      bind-AllPlain _ _ (guard-AllPlain (is_text (json.type_of frame.0) t) _ tt) (λ _. tt))

  pub check_auth-AllPlain : (v : Value) → AllPlain (check_auth json v)
  unfolding check_auth
  check_auth-AllPlain v =
      answer-AllPlain (is_text (json.type_of v) (codes "ERROR"))
        (is_text (json.code_of v) (codes "AUTH_FAILED"))
        (is_text (json.type_of v) (codes "AUTH_OK")) (codes "AUTH failed: " ++ json.shown v)
        (codes "expected AUTH_OK, got " ++ json.shown v)
        (map_err (λ e. protocol (codes "bad AUTH_OK: " ++ e)) (json.auth_ok v))
        (map_err-AllPlain _ (json.auth_ok v) (λ t. tt))
