-- ===== src/Client/Control.antt =====
-- src/client/control.rs, and what src/bin/neosh.rs reads from and writes to its control stream.
-- `serde_json` is not this repository's code: `Serde` holds what it answers, for any type of values.
-- A stream that is read is the list of the bytes that will arrive before it ends.
use neosh.Prelude.{
  ltb, length, length-append, take-append, drop-append, Result, ok, ◌>>=◌, ◌>>◌, guard, map_err,
  Text, Bytes, codes, text_eq, Uuid, ℕ, ◌≤◌, ◌≡◌, Bool, false, not, Option, none, some, ◌++◌, arith,
}
use neosh.Protocol.Framing.{to_be_bytes, encode_frame, decode_frame}
use neosh.Server.Wire.{max_control_frame, read_exact, header_len, framing_text}
use neosh.Client.Reconnect.{CliError, protocol}
use neosh.Protocol.Framing.Codec.{from_be_bytes-to_be_bytes}

pub data ControlError : Type 0 where
  protocol_error io_error json_error : Text → ControlError

-- The `#[error(…)]` texts.
unfoldable pub control_text : ControlError → Text
control_text (protocol_error e) = codes "protocol error: " ++ e
control_text (io_error e) = codes "io error: " ++ e
control_text (json_error e) = codes "json error: " ++ e

-- The `json!` values that the client sends.
pub data Message : Type 0 where
  hello : Message
  auth : Text → Message
  attach_msg : Uuid → Message
  resume_msg : Uuid → Text → Message
  resize : ℕ → ℕ → Message
  detach : Message
  close : Uuid → Message
  ping : Text → Message

pub record AuthOk : Type 0 where
  pub session_id : Uuid
  pub resume_token : Text
  pub resume_token_expires_in_seconds : ℕ

pub record ResumeOk : Type 0 where
  pub session_id : Uuid
  pub replay_bytes : ℕ

-- `to_vec`, `from_slice`, the fields of a value that are strings, `from_value` at two types, and the
-- text of a value.
pub record Serde (Value : Type 0) : Type 0 where
  pub to_vec : Message → Result Text Bytes
  pub from_slice : Bytes → Result Text Value
  pub type_of : Value → Option Text
  pub code_of : Value → Option Text
  pub session_of : Value → Option Text
  pub auth_ok : Value → Result Text AuthOk
  pub resume_ok : Value → Result Text ResumeOk
  pub shown : Value → Text

-- `opt == Some(text)`.
abbrev pub is_text : Option Text → Text → Bool
is_text none t = false
is_text (some s) t = text_eq s t

module _ {Value : Type 0} (json : Serde Value) where
  unfoldable pub encode_control_json : Message → Result ControlError Bytes
  unfolding encode_frame
  encode_control_json value = do
    payload ← map_err json_error (json.to_vec value)
    ok (encode_frame payload)

  unfoldable pub decode_control_json : Bytes → ℕ → Result ControlError Value
  unfolding decode_frame framing_text
  decode_control_json frame max_size = do
    payload ← map_err (λ e. protocol_error (framing_text e)) (decode_frame frame max_size)
    map_err json_error (json.from_slice payload)

  abbrev pub message_type : Value → Option Text
  message_type value = json.type_of value

  abbrev pub is_error_code : Value → Text → Bool
  is_error_code value code = is_text (json.code_of value) code

  -- `write_all` is the stream's answer to the bytes of the frame.
  unfoldable pub send_json : (Bytes → Result Text (Unit {0})) → Message → Result CliError (Unit {0})
  unfolding encode_control_json control_text
  send_json write_all value = do
    frame ← map_err (λ e. protocol (control_text e)) (encode_control_json value)
    map_err (λ e. protocol (codes "write control failed: " ++ e)) (write_all frame)

  -- The value of the next frame, and what is left of the stream.
  unfoldable pub read_json : Bytes → Result CliError (Value × Bytes)
  unfolding read_exact header_len
  read_json recv = do
    (len_buf, rest) ←
        map_err (λ e. protocol (codes "read control len failed: " ++ e)) (read_exact 4 recv)
    let payload_len = header_len len_buf
    guard (not (ltb max_control_frame payload_len)) (protocol (codes "control frame too large"))
    (payload, rest') ←
        map_err (λ e. protocol (codes "read control payload failed: " ++ e))
          (read_exact payload_len rest)
    value ← map_err (λ e. protocol (codes "invalid json: " ++ e)) (json.from_slice payload)
    ok (value, rest')

  unfoldable pub expect_type : Bytes → Text → Result CliError (Value × Bytes)
  unfolding read_json
  expect_type recv expected = do
    (value, rest) ← read_json recv
    guard (is_text (message_type value) expected)
        (protocol (codes "expected " ++ (expected ++ (codes ", got " ++ json.shown value))))
    ok (value, rest)

  -- A frame whose payload is within the limit and is read as a value gives it, and the stream behind.
  pub read_json-encode_frame :
      (payload rest : Bytes) (value : Value)
      → length payload ≤ max_control_frame
      → json.from_slice payload ≡ ok value
      → read_json (encode_frame payload ++ rest) ≡ ok (value, rest)
  unfolding read_json encode_frame to_be_bytes
  read_json-encode_frame payload rest value h v = ground (
    arith,
    v,
    from_be_bytes-to_be_bytes (length payload),
    take-append payload rest,
    drop-append payload rest,
    length-append payload rest,
  )
