-- ===== src/Server/Wire.antt =====
-- The control stream of src/bin/neoshd.rs: frames in, replies out. `serde_json` is not this
-- repository's code: `Json` holds what it answers. A stream that is read is the list of the bytes
-- that will arrive before it ends.
use neosh.Prelude.{
  ltb, if◌then◌else◌, length, take, drop, length-append, take-append, drop-append, Result, ok, err,
  ◌>>=◌, ◌>>◌, guard, map_err, Text, Bytes, codes, Uuid, ℕ, ◌*◌, ◌≤◌, ◌≡◌, not, Option, ◌∷◌, ◌++◌,
  arith,
}
use neosh.Protocol.Framing.{
  FramingError, encode_frame, decode_frame, from_be_bytes, to_be_bytes, too_short, length_mismatch,
  too_large,
}
use neosh.Protocol.Framing.Codec.{decode_frame-encode_frame, from_be_bytes-to_be_bytes}
use neosh.Protocol.Messages.{ErrorMessage, ControlEnvelope}
use neosh.Server.Errors.{NeoshdError, protocol, internal, error_frame_for}

abbrev pub max_control_frame : ℕ
max_control_frame = 64 * 1024

-- The `json!` values that the daemon sends.
pub data Reply : Type 0 where
  hello_ack : ℕ → Reply
  auth_ok : Uuid → Text → ℕ → Reply
  attach_ok : Uuid → Reply
  resume_ok : Uuid → ℕ → Reply
  pong : Text → Reply
  error_reply : ErrorMessage → Reply

pub record AuthReq : Type 0 where
  pub token : Text

pub record AttachReq : Type 0 where
  pub session_id : Uuid

pub record ResumeReq : Type 0 where
  pub session_id : Uuid
  pub resume_token : Text

pub record ResizeReq : Type 0 where
  pub rows : ℕ
  pub cols : ℕ

-- `serde_json::from_slice` at each type, with the text of its error, the `nonce` of a payload, and
-- `serde_json::to_vec`.
pub record Json : Type 0 where
  pub envelope : Bytes → Option ControlEnvelope
  pub auth_req : Bytes → Result Text AuthReq
  pub attach_req : Bytes → Result Text AttachReq
  pub resume_req : Bytes → Result Text ResumeReq
  pub resize_req : Bytes → Result Text ResizeReq
  pub nonce : Bytes → Option Text
  pub to_vec : Reply → Result Text Bytes

-- `read_exact`: the first `n` bytes and the rest, or the end of the stream.
unfoldable pub read_exact : ℕ → Bytes → Result Text (Bytes × Bytes)
read_exact n stream =
    if ltb (length stream) n
    then err (codes "stream finished early")
    else ok (take n stream, drop n stream)

-- `u32::from_be_bytes` of the four bytes read.
unfoldable pub header_len : Bytes → ℕ
unfolding from_be_bytes
header_len (a ∷ b ∷ c ∷ d ∷ _) = from_be_bytes a b c d
header_len _ = 0

-- The `#[error(…)]` texts of `FramingError`.
unfoldable pub framing_text : FramingError → Text
framing_text too_short = codes "frame too short"
framing_text length_mismatch = codes "frame length mismatch"
framing_text too_large = codes "frame too large"

-- The payload of the next frame, and what is left of the stream.
unfoldable pub read_control_frame : Bytes → Result NeoshdError (Bytes × Bytes)
unfolding read_exact header_len decode_frame framing_text
read_control_frame recv = do
  (len_buf, rest) ←
      map_err (λ e. protocol (codes "read frame length failed: " ++ e)) (read_exact 4 recv)
  let payload_len = header_len len_buf
  guard (not (ltb max_control_frame payload_len)) (protocol (codes "control frame too large"))
  (payload, rest') ←
      map_err (λ e. protocol (codes "read frame payload failed: " ++ e))
        (read_exact payload_len rest)
  decoded ←
      map_err (λ e. protocol (codes "decode frame failed: " ++ framing_text e))
        (decode_frame (len_buf ++ payload) max_control_frame)
  ok (decoded, rest')

-- `write_all` is the stream's answer to the bytes of the frame.
unfoldable pub write_control_json :
    Json → (Bytes → Result Text (Unit {0})) → Reply → Result NeoshdError (Unit {0})
unfolding encode_frame
write_control_json json write_all value = do
  payload ← map_err internal (json.to_vec value)
  map_err (λ e. protocol (codes "write frame failed: " ++ e)) (write_all (encode_frame payload))

unfoldable pub write_error_frame :
    Json → (Bytes → Result Text (Unit {0})) → NeoshdError → Result NeoshdError (Unit {0})
unfolding write_control_json
write_error_frame json write_all e =
    write_control_json json write_all (error_reply (error_frame_for e))

-- Whatever follows on the stream, a frame whose payload is within the limit is read whole: its
-- payload, and the stream behind it.
pub read_control_frame-encode_frame :
    (payload rest : Bytes)
    → length payload ≤ max_control_frame
    → read_control_frame (encode_frame payload ++ rest) ≡ ok (payload, rest)
unfolding read_control_frame encode_frame to_be_bytes
read_control_frame-encode_frame payload rest h = ground (
  arith,
  from_be_bytes-to_be_bytes (length payload),
  take-append payload rest,
  drop-append payload rest,
  length-append payload rest,
  decode_frame-encode_frame payload max_control_frame h (omega arith),
)
