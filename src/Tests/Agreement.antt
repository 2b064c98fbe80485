-- ===== src/Tests/Agreement.antt =====
-- A concrete JSON for the control stream between src/bin/neosh.rs and src/bin/neoshd.rs: a message and a reply
-- are written as their fields behind a number that tells the kind.
use neosh.Prelude.{
  ◌==◌, if◌then◌else◌, length, take, drop, take-append, drop-append, Result, ok, err, Text, Bytes,
  codes, ℕ, ◌≡◌, refl, Option, none, some, [], ◌∷◌, ◌++◌,
}
use neosh.Protocol.Messages.{ControlEnvelope}
use neosh.Server.Wire.{Json, Reply, hello_ack, auth_ok, attach_ok, resume_ok, pong, error_reply}
use neosh.Client.Control.{Message, Serde, AuthOk, ResumeOk}
use neosh.Link.{ReadsFields, ReadsValue, kind_of, type_of_reply, Agrees}

abbrev pub up : Message → Bytes
up Message.hello = 1 ∷ []
up (Message.auth token) = 2 ∷ token
up (Message.attach_msg id) = 3 ∷ id ∷ []
up (Message.resume_msg id token) = 4 ∷ id ∷ token
up (Message.resize rows cols) = 5 ∷ rows ∷ cols ∷ []
up Message.detach = 6 ∷ []
up (Message.close id) = 7 ∷ id ∷ []
up (Message.ping nonce) = 8 ∷ nonce

abbrev kind_word : ℕ → Text
kind_word n =
    if n == 1
    then codes "HELLO"
    else if n == 2
    then codes "AUTH"
    else if n == 3
    then codes "ATTACH"
    else if n == 4
    then codes "RESUME"
    else if n == 5
    then codes "RESIZE"
    else if n == 6
    then codes "DETACH"
    else if n == 7
    then codes "CLOSE"
    else codes "PING"

abbrev down : Reply → Bytes
down (hello_ack n) = 1 ∷ []
down (auth_ok id token n) = 2 ∷ id ∷ n ∷ token
down (attach_ok id) = 3 ∷ []
down (resume_ok id n) = 4 ∷ id ∷ n ∷ []
down (pong nonce) = 5 ∷ []
down (error_reply e) = 6 ∷ length e.msg_type ∷ (e.msg_type ++ e.code)

-- What the client keeps of a reply.
pub data Value : Type 0 where
  plain : Text → Value
  auths : AuthOk → Value
  resumes : ResumeOk → Value
  fails : Text → Text → Value

abbrev value : Reply → Value
value (hello_ack n) = plain (codes "HELLO_ACK")
value (auth_ok id token n) =
    auths (record { session_id = id; resume_token = token; resume_token_expires_in_seconds = n })
value (attach_ok id) = plain (codes "ATTACH_OK")
value (resume_ok id n) = resumes (record { session_id = id; replay_bytes = n })
value (pong nonce) = plain (codes "PONG")
value (error_reply e) = fails e.msg_type e.code

abbrev auth_value : Bytes → Result Text Value
auth_value (id ∷ n ∷ token) = ok (value (auth_ok id token n))
auth_value _ = err []

abbrev resume_value : Bytes → Result Text Value
resume_value (id ∷ n ∷ _) = ok (value (resume_ok id n))
resume_value _ = err []

abbrev error_value : Bytes → Result Text Value
error_value (n ∷ text) = ok (fails (take n text) (drop n text))
error_value _ = err []

abbrev from_slice : Bytes → Result Text Value
from_slice [] = err []
from_slice (n ∷ rest) =
    if n == 1
    then ok (plain (codes "HELLO_ACK"))
    else if n == 2
    then auth_value rest
    else if n == 3
    then ok (plain (codes "ATTACH_OK"))
    else if n == 4
    then resume_value rest
    else if n == 5
    then ok (plain (codes "PONG"))
    else error_value rest

abbrev type_of : Value → Text
type_of (plain t) = t
type_of (auths a) = codes "AUTH_OK"
type_of (resumes r) = codes "RESUME_OK"
type_of (fails t c) = t

abbrev code_of : Value → Option Text
code_of (fails t c) = some c
code_of _ = none

abbrev auth_of : Value → Result Text AuthOk
auth_of (auths a) = ok a
auth_of _ = err []

abbrev resume_of : Value → Result Text ResumeOk
resume_of (resumes r) = ok r
resume_of _ = err []

abbrev pub client : Serde Value
client = record {
  to_vec = λ m. ok (up m);
  from_slice = from_slice;
  type_of = λ v. some (type_of v);
  code_of = code_of;
  session_of = λ v. none;
  auth_ok = auth_of;
  resume_ok = resume_of;
  shown = λ v. codes "value";
}

abbrev envelope : Bytes → Option ControlEnvelope
envelope [] = none
envelope (n ∷ rest) = some (record { msg_type = kind_word n })

abbrev pub daemon : Json
daemon = record {
  envelope = envelope;
  auth_req = λ p. ok (record { token = drop 1 p });
  attach_req = λ p. elim p [ n ∷ id ∷ rest ↦ ok (record { session_id = id }) | _ ↦ err [] ];
  resume_req = λ p. elim p [
    | n ∷ id ∷ rest ↦ ok (record { session_id = id; resume_token = rest })
    | _ ↦ err []
  ];
  resize_req = λ p. elim p [
    | n ∷ rows ∷ cols ∷ rest ↦ ok (record { rows = rows; cols = cols })
    | _ ↦ err []
  ];
  nonce = λ p. some (drop 1 p);
  to_vec = λ r. ok (down r);
}

pub reads_fields : (m : Message) → ReadsFields daemon (up m) m
reads_fields Message.hello = tt
reads_fields Message.detach = tt
reads_fields (Message.close id) = tt
reads_fields _ = refl

pub reads_value : (r : Reply) → from_slice (down r) ≡ ok (value r)
reads_value (error_reply e) = rw (take-append e.msg_type e.code, drop-append e.msg_type e.code) refl
reads_value (hello_ack n) = refl
reads_value _ = refl

pub value_fields : (r : Reply) → ReadsValue client (value r) r
value_fields (hello_ack n) = tt
value_fields (attach_ok id) = tt
value_fields (pong nonce) = tt
value_fields _ = refl

pub reads_type :
    (m : Message)
    → envelope (up m)
      ≡ some (record { msg_type = neosh.Protocol.Messages.type_of_kind (kind_of m) })
unfolding neosh.Protocol.Messages.type_of_kind
reads_type Message.hello = refl
reads_type _ = refl

pub value_type : (r : Reply) → some (type_of (value r)) ≡ some (type_of_reply r)
value_type (hello_ack n) = refl
value_type _ = refl

unfoldable pub agrees : Agrees client daemon
agrees = record {
  up = up;
  down = down;
  value = value;
  writes_up = λ m. refl;
  reads_type = reads_type;
  reads_fields = reads_fields;
  writes_down = λ r. refl;
  reads_value = reads_value;
  value_type = value_type;
  value_fields = value_fields;
}
