-- ===== src/Link.antt =====
-- A client of src/bin/neosh.rs on a connection to the daemon of src/bin/neoshd.rs. Both read and write
-- JSON through `serde_json`, which is not this repository's code: `Agrees` holds what the two sides rely
-- on, that each reads what the other wrote.
pub mod Daemon
pub mod Handshake
pub mod Connect
pub mod Fresh
pub mod Starting
pub mod Reconnect
pub mod Refusal
pub mod Streams
pub mod Background
pub mod Lag
use neosh.Prelude.{length, ok, Text, Bytes, codes, ◌≤◌, ◌≡◌, some, List, ◌∷◌, ◌++◌, []}
use neosh.Protocol.Messages.{MessageKind, type_of_kind}
use neosh.Protocol.Framing.{encode_frame}
use neosh.Server.Wire.{
  Json, Reply, hello_ack, auth_ok, attach_ok, resume_ok, pong, error_reply, max_control_frame,
}
use neosh.Client.Control.{Message, Serde}
use neosh.Client.Session.{Act, sent}

-- The `type` of each message of the client.
abbrev pub kind_of : Message → MessageKind
kind_of Message.hello = MessageKind.hello
kind_of (Message.auth token) = MessageKind.auth
kind_of (Message.attach_msg id) = MessageKind.attach
kind_of (Message.resume_msg id token) = MessageKind.resume
kind_of (Message.resize rows cols) = MessageKind.resize
kind_of Message.detach = MessageKind.detach
kind_of (Message.close id) = MessageKind.close
kind_of (Message.ping nonce) = MessageKind.ping

-- The `type` of each reply of the daemon.
abbrev pub type_of_reply : Reply → Text
type_of_reply (hello_ack n) = codes "HELLO_ACK"
type_of_reply (auth_ok id token n) = codes "AUTH_OK"
type_of_reply (attach_ok id) = codes "ATTACH_OK"
type_of_reply (resume_ok id n) = codes "RESUME_OK"
type_of_reply (pong nonce) = codes "PONG"
type_of_reply (error_reply e) = e.msg_type

-- What the daemon reads from the payload of a message.
abbrev pub ReadsFields : Json → Bytes → Message → Type 0
ReadsFields s p (Message.auth token) = s.auth_req p ≡ ok (record { token = token })
ReadsFields s p (Message.attach_msg id) = s.attach_req p ≡ ok (record { session_id = id })
ReadsFields s p (Message.resume_msg id token) =
    s.resume_req p ≡ ok (record { session_id = id; resume_token = token })
ReadsFields s p (Message.resize rows cols) =
    s.resize_req p ≡ ok (record { rows = rows; cols = cols })
ReadsFields s p (Message.ping nonce) = s.nonce p ≡ some nonce
ReadsFields s p _ = Unit {0}

-- What the client reads from the value of a reply.
abbrev pub ReadsValue : {Value : Type 0} → Serde Value → Value → Reply → Type 0
ReadsValue c v (auth_ok id token n) =
    c.auth_ok v
    ≡ ok (record { session_id = id; resume_token = token; resume_token_expires_in_seconds = n })
ReadsValue c v (resume_ok id n) = c.resume_ok v ≡ ok (record { session_id = id; replay_bytes = n })
ReadsValue c v (error_reply e) = c.code_of v ≡ some e.code
ReadsValue c v _ = Unit {0}

-- Each side writes every message, and the other reads its type and its fields.
pub record Agrees {Value : Type 0} (c : Serde Value) (s : Json) : Type 0 where
  pub up : Message → Bytes
  pub down : Reply → Bytes
  pub value : Reply → Value
  pub writes_up : (m : Message) → c.to_vec m ≡ ok (up m)
  pub reads_type :
      (m : Message) → s.envelope (up m) ≡ some (record { msg_type = type_of_kind (kind_of m) })
  pub reads_fields : (m : Message) → ReadsFields s (up m) m
  pub writes_down : (r : Reply) → s.to_vec r ≡ ok (down r)
  pub reads_value : (r : Reply) → c.from_slice (down r) ≡ ok (value r)
  pub value_type : (r : Reply) → c.type_of (value r) ≡ some (type_of_reply r)
  pub value_fields : (r : Reply) → ReadsValue c (value r) r

module _ {Value : Type 0} {c : Serde Value} {s : Json} (a : Agrees c s) where
  -- The bytes on the control stream for some messages, and for some replies.
  abbrev pub up_frames : List Message → Bytes
  up_frames [] = []
  up_frames (m ∷ ms) = encode_frame (a.up m) ++ up_frames ms

  abbrev pub down_frames : List Reply → Bytes
  down_frames [] = []
  down_frames (r ∷ rs) = encode_frame (a.down r) ++ down_frames rs

  abbrev pub FitsUp : Message → Type 0
  FitsUp m = length (a.up m) ≤ max_control_frame

  abbrev pub FitsDown : Reply → Type 0
  FitsDown r = length (a.down r) ≤ max_control_frame

-- The messages that the control stream took, among what a client did.
abbrev pub messages : List Act → List Message
messages [] = []
messages (sent m ∷ acts) = m ∷ messages acts
messages (_ ∷ acts) = messages acts
