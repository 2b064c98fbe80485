-- ===== src/Tests/Link.antt =====
-- Examples for the client's side of a connection: src/client/ and `run_session` of src/bin/neosh.rs.
use neosh.Prelude.{
  ℕ, ◌%◌, true, false, Option, none, some, List, [], ◌∷◌, ◌++◌, Text, Bytes, Uuid, codes, Result,
  ok, err, ◌≡◌, refl, ◌≢◌, decimal, arith, ◌==◌, if◌then◌else◌,
}
use neosh.Protocol.Framing.{encode_frame}
use neosh.Client.Bootstrap.{BootstrapPayload}
use neosh.Client.Transport.{Network, sha256_fingerprint, connect_and_verify}
use neosh.Client.Transport.Pinning.{HasBytes, connect_and_verify-Pins}
use neosh.Client.Reconnect.{attach}
use neosh.Client.Control.{AuthOk, Serde}
use neosh.Client.Session.{stream_closed, signalled, Env, run_session}
use neosh.Client.Session.Phases.{Ordered}
use neosh.Client.Session.Order.{run_session-Ordered}
use neosh.Client.Session.Errors.{ErrorMeans, run_session-ErrorMeans}
use neosh.Client.Session.Ipc.{is_valid_detach_request, on_ipc, MayDetach, on_ipc-MayDetach}

-- A digest of 32 bytes, told apart by the first byte of a certificate.
abbrev first_byte : Bytes → ℕ
first_byte [] = 0
first_byte (b ∷ _) = b % 256

abbrev zeros : ℕ → Bytes
zeros ℕ.zero = []
zeros (ℕ.suc n) = 0 ∷ zeros n

abbrev pub digest : Bytes → Bytes
digest cert = first_byte cert ∷ zeros 31

pub digest-HasBytes : (c : Bytes) → HasBytes digest c
digest-HasBytes [] = (refl, refl)
digest-HasBytes (b ∷ c) = (refl, ground arith)

abbrev cert : Bytes
cert = 17 ∷ 4 ∷ []

abbrev net : Network digest
net = record {
  parses = true;
  client = ok tt;
  config = ok tt;
  idle_timeout = ok tt;
  connects = ok tt;
  handshake = ok tt;
  identity = some (cert ∷ []);
}

net_verifies : connect_and_verify digest net (sha256_fingerprint digest cert) ≡ ok tt
unfolding connect_and_verify neosh.Prelude.text_eq
net_verifies = refl

connect_and_verify-Pins_example :
    (net.parses ≡ true)
    × (net.handshake ≡ ok tt)
    × (c : Bytes) × (rest : List Bytes) × (net.identity ≡ some (c ∷ rest))
    × (digest c ≡ digest cert)
connect_and_verify-Pins_example =
    connect_and_verify-Pins digest net cert digest-HasBytes net_verifies

abbrev payload : BootstrapPayload
payload = record {
  session_id = 5;
  auth_token = codes "tok";
  auth_token_expires_in_seconds = 60;
  quic_addr = codes "10.0.0.1" ++ b':' ∷ decimal 30000;
  cert_fingerprint = sha256_fingerprint digest cert;
}

-- Values that are numbers: 1, 2 and 3 for the answers of the daemon, 4 for CLOSE, 5 for PONG, 6 for a
-- request to detach.
abbrev type_of : ℕ → Option Text
type_of v =
    if v == 1
    then some (codes "HELLO_ACK")
    else if v == 2
    then some (codes "AUTH_OK")
    else if v == 3
    then some (codes "ATTACH_OK")
    else if v == 4
    then some (codes "CLOSE")
    else if v == 5
    then some (codes "PONG")
    else if v == 6
    then some (codes "DETACH")
    else none

abbrev from_slice : Bytes → Result Text ℕ
from_slice (n ∷ []) = ok n
from_slice _ = err (codes "no value")

abbrev ann : AuthOk
ann = record { session_id = 5; resume_token = codes "r"; resume_token_expires_in_seconds = 9 }

abbrev json : Serde ℕ
json = record {
  to_vec = λ m. ok (0 ∷ []);
  from_slice = from_slice;
  type_of = type_of;
  code_of = λ v. none;
  session_of = λ v. some (codes "5");
  auth_ok = λ v. ok ann;
  resume_ok = λ v. err (codes "no resumption");
  shown = λ v. codes "value";
}

abbrev answers : Bytes
answers = encode_frame (1 ∷ []) ++ (encode_frame (2 ∷ []) ++ (encode_frame (3 ∷ []) ++ []))

abbrev env : Env ℕ
env = record {
  verified = ok tt;
  open_bi = ok answers;
  write_all = λ bytes. ok tt;
  expires_now = 100;
  updated_now = 100;
  put = ok tt;
  tty_size = some (24, 80);
  ipc_dir = ok tt;
  ipc_bind = ok tt;
  ipc_permissions = ok tt;
  accept_uni = ok tt;
  open_uni = ok tt;
  wake = signalled stream_closed;
  ipc_at_wake = false;
  ipc_before_sleep = false;
  ipc_after_sleep = false;
}

run_session-Ordered_example : Ordered (run_session json env (codes "host") payload attach).0
run_session-Ordered_example = run_session-Ordered json env (codes "host") payload attach

run_session-ErrorMeans_example :
    ErrorMeans json env (run_session json env (codes "host") payload attach)
run_session-ErrorMeans_example = run_session-ErrorMeans json env (codes "host") payload attach

abbrev show : Uuid → Text
show id = codes "5"

detached : (on_ipc json show 5 false true (some (6 ∷ [])) (some tt)).detach_sent ≡ true
unfolding on_ipc is_valid_detach_request neosh.Prelude.text_eq
detached = refl

on_ipc-MayDetach_example : MayDetach json show 5 true (some (6 ∷ [])) (some tt)
on_ipc-MayDetach_example =
    on_ipc-MayDetach json show 5 false true (some (6 ∷ [])) (some tt) detached
