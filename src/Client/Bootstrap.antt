-- ===== src/Client/Bootstrap.antt =====
-- src/client/bootstrap.rs: what the client takes from the daemon's first line of output, over ssh.
-- The `ssh` process and `serde_json` are not this repository's code: their answers are arguments.
-- Texts are compared by their code points here and by their bytes there, which is the same where only
-- ASCII is accepted.
pub mod Offers
use neosh.Prelude.{
  ◌||◌, leb, ◌==◌, if◌then◌else◌, is_some, length, is_empty, all, Result, ok, err, ◌>>=◌, ◌>>◌,
  guard, map_err, Text, codes, trim, Uuid, rsplit_once, strip_prefix, split_once, parse_u16, ℕ,
  Bool, false, not, ◌&&◌, Option, none, some, ◌∷◌, ◌++◌, [],
}

pub record BootstrapPayload : Type 0 where
  pub session_id : Uuid
  pub auth_token : Text
  pub auth_token_expires_in_seconds : ℕ
  pub quic_addr : Text
  pub cert_fingerprint : Text

pub data BootstrapError : Type 0 where
  ssh_command invalid_json invalid_payload : Text → BootstrapError

-- The `#[error(…)]` texts.
unfoldable pub to_string : BootstrapError → Text
to_string (ssh_command e) = codes "ssh command failed: " ++ e
to_string (invalid_json e) = codes "invalid bootstrap json: " ++ e
to_string (invalid_payload e) = codes "invalid bootstrap payload: " ++ e

-- `Output` of the `ssh` process, its streams decoded.
pub record Output : Type 0 where
  pub success : Bool
  pub stdout : Text
  pub stderr : Text

unfoldable pub run_remote_command : Result Text Output → Result BootstrapError Text
run_remote_command output = do
  out ← map_err ssh_command output
  guard out.success (ssh_command (trim out.stderr))
  ok (trim out.stdout)

unfoldable pub resolve_remote_working_directory : Result Text Output → Result BootstrapError Text
unfolding run_remote_command
resolve_remote_working_directory output = do
  pwd ← run_remote_command output
  guard (not (is_empty pwd)) (ssh_command (codes "remote working directory is empty"))
  ok pwd

-- `char::is_ascii_hexdigit`.
abbrev pub is_hexdigit : ℕ → Bool
is_hexdigit c =
    (leb b'0' c && leb c b'9') || (leb b'a' c && leb c b'f') || (leb b'A' c && leb c b'F')

-- A host and a port, once they are split.
unfoldable pub is_host_port : Option (Text × Text) → Bool
is_host_port none = false
is_host_port (some (host, port)) = not (is_empty host) && is_some (parse_u16 port)

unfoldable pub is_valid_host_port : Text → Bool
unfolding is_host_port
is_valid_host_port [] = false
is_valid_host_port (c ∷ s) =
    if c == b'['
    then is_host_port (split_once (codes "]:") s)
    else is_host_port (rsplit_once b':' (c ∷ s))

unfoldable pub is_fingerprint : Text → Result BootstrapError (Unit {0})
is_fingerprint fingerprint = elim (strip_prefix (codes "sha256:") fingerprint) [
  | none ↦ err (invalid_payload (codes "cert_fingerprint must start with sha256:"))
  | some hex ↦
      guard (not (not (length hex == 64) || not (all is_hexdigit hex)))
        (invalid_payload (codes "cert_fingerprint hex is invalid"))
]

unfoldable pub validate_bootstrap_payload : BootstrapPayload → Result BootstrapError (Unit {0})
unfolding is_valid_host_port is_fingerprint
validate_bootstrap_payload payload = do
  guard (not (is_empty payload.auth_token)) (invalid_payload (codes "auth_token is empty"))
  guard (not (payload.auth_token_expires_in_seconds == 0))
      (invalid_payload (codes "auth_token_expires_in_seconds must be > 0"))
  guard (is_valid_host_port payload.quic_addr)
      (invalid_payload (codes "quic_addr is not host:port"))
  is_fingerprint payload.cert_fingerprint

-- `from_str` is what `serde_json` reads.
unfoldable pub parse_bootstrap_payload :
    (Text → Result Text BootstrapPayload) → Text → Result BootstrapError BootstrapPayload
unfolding validate_bootstrap_payload
parse_bootstrap_payload from_str raw = do
  payload ← map_err invalid_json (from_str raw)
  validate_bootstrap_payload payload
  ok payload

unfoldable pub run_ssh_bootstrap :
    (Text → Result Text BootstrapPayload)
    → Result Text Output
    → Result BootstrapError BootstrapPayload
unfolding run_remote_command parse_bootstrap_payload
run_ssh_bootstrap from_str output = do
  stdout ← run_remote_command output
  parse_bootstrap_payload from_str stdout
