-- ===== src/Protocol/Messages.antt =====
-- src/protocol/messages.rs: the kinds of control messages. `serde_json` is not this repository's
-- code: what it reads from a payload is a parameter.
use neosh.Prelude.{
  if◌then◌else◌, Option-cases, Text, Bytes, codes, text_eq, text_eq_iff, ◌≡◌, refl, ◌↔◌, inl, inr,
  Bool, Option, none, some, arith,
}

pub data MessageKind : Type 0 where
  hello auth attach resume resize detach close ping pong error : MessageKind

pub MessageKind-discrete : Discrete MessageKind
MessageKind-discrete = hlevel

pub record ControlEnvelope : Type 0 where
  pub msg_type : Text

pub record ErrorMessage : Type 0 where
  pub msg_type : Text
  pub code : Text
  pub message : Text
  pub retryable : Bool

-- The `match` on the `type` of an envelope.
unfoldable pub kind_of_type : Text → Option MessageKind
kind_of_type t =
    if text_eq t (codes "HELLO")
    then some hello
    else if text_eq t (codes "AUTH")
    then some auth
    else if text_eq t (codes "ATTACH")
    then some attach
    else if text_eq t (codes "RESUME")
    then some resume
    else if text_eq t (codes "RESIZE")
    then some resize
    else if text_eq t (codes "DETACH")
    then some detach
    else if text_eq t (codes "CLOSE")
    then some close
    else if text_eq t (codes "PING")
    then some ping
    else if text_eq t (codes "PONG")
    then some pong
    else if text_eq t (codes "ERROR")
    then some error
    else none

-- `from_slice` reads the envelope of a payload, or fails.
unfoldable pub parse_message_kind : (Bytes → Option ControlEnvelope) → Bytes → Option MessageKind
parse_message_kind from_slice payload = elim (from_slice payload) [
  | none ↦ none
  | some envelope ↦ kind_of_type envelope.msg_type
]

-- The word of each kind on the wire.
unfoldable pub type_of_kind : MessageKind → Text
type_of_kind hello = codes "HELLO"
type_of_kind auth = codes "AUTH"
type_of_kind attach = codes "ATTACH"
type_of_kind resume = codes "RESUME"
type_of_kind resize = codes "RESIZE"
type_of_kind detach = codes "DETACH"
type_of_kind close = codes "CLOSE"
type_of_kind ping = codes "PING"
type_of_kind pong = codes "PONG"
type_of_kind error = codes "ERROR"

kind_of_type-type_of_kind : (k : MessageKind) → kind_of_type (type_of_kind k) ≡ some k
unfolding kind_of_type type_of_kind text_eq
kind_of_type-type_of_kind hello = refl
kind_of_type-type_of_kind auth = refl
kind_of_type-type_of_kind _ = refl

type_of_kind-kind_of_type :
    (t : Text) (k : MessageKind) → kind_of_type t ≡ some k → t ≡ type_of_kind k
unfolding kind_of_type type_of_kind
type_of_kind-kind_of_type t k h = ground (
  arith,
  text_eq_iff t (codes "HELLO"),
  text_eq_iff t (codes "AUTH"),
  text_eq_iff t (codes "ATTACH"),
  text_eq_iff t (codes "RESUME"),
  text_eq_iff t (codes "RESIZE"),
  text_eq_iff t (codes "DETACH"),
  text_eq_iff t (codes "CLOSE"),
  text_eq_iff t (codes "PING"),
  text_eq_iff t (codes "PONG"),
  text_eq_iff t (codes "ERROR"),
)

-- A payload is parsed as the kind `k` exactly when its envelope carries the word of `k`.
pub parse_message_kind_iff :
    (from_slice : Bytes → Option ControlEnvelope) (payload : Bytes) (k : MessageKind)
    → (parse_message_kind from_slice payload ≡ some k)
      ↔ (from_slice payload ≡ some (record { msg_type = type_of_kind k }))
unfolding parse_message_kind
parse_message_kind_iff from_slice payload k = elim (Option-cases (from_slice payload)) [
  | inl e ↦ rw (e, parse_message_kind) (ground arith)
  | inr (v, e) ↦
      rw (e, parse_message_kind)
        (ground (arith, kind_of_type-type_of_kind k, type_of_kind-kind_of_type v.msg_type k))
]
