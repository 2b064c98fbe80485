-- ===== src/Server/Tls.antt =====
-- How the daemon of src/bin/neoshd.rs gets its certificate and where it binds: load_cert_key_pair,
-- build_server_tls and resolve_bind_addrs. The files, the TLS and QUIC libraries and the resolver of names
-- are not this repository's code: what they answer is an argument.
use neosh.Prelude.{
  if◌then◌else◌, is_empty, Result, ok, err, ◌>>=◌, ◌>>◌, ok_or, map_err, Text, Bytes, codes,
  text_eq, is_whitespace, ℕ, Option, none, some, List, [], ◌∷◌, ◌++◌,
}
use neosh.Server.Errors.{NeoshdError, config, io, internal}
use neosh.Client.Transport.{hex_byte}
use neosh.Server.State.{NewArgs}

-- `fs::read`, and the readers of PEM files: the certificates and the keys in a file, in order.
pub record Pem : Type 0 where
  pub read : Text → Result Text Bytes
  pub certs : Bytes → Result Text (List Bytes)
  pub pkcs8_private_keys : Bytes → Result Text (List Bytes)

-- A self-signed certificate with its key, and what the libraries say to a certificate with a key, to
-- the whole TLS configuration, and to an idle timeout in seconds.
pub record Tls : Type 0 where
  pub pem : Pem
  pub generate_simple_self_signed : Result Text (Bytes × Bytes)
  pub with_single_cert : Bytes → Bytes → Result Text (Unit {0})
  pub quic_config : Result Text (Unit {0})
  pub idle_timeout : ℕ → Result Text (Unit {0})

pub record ServerConfig : Type 0 where
  pub certificate : Bytes
  pub key : Bytes
  pub alpn : Text
  pub max_idle_timeout : ℕ
  pub max_concurrent_bidi_streams : ℕ
  pub max_concurrent_uni_streams : ℕ

-- `first()` and `pop()`.
abbrev pub first : List Bytes → Option Bytes
first [] = none
first (b ∷ bs) = some b

abbrev pub pop : List Bytes → Option Bytes
pop [] = none
pop (b ∷ []) = some b
pop (b ∷ c ∷ bs) = pop (c ∷ bs)

unfoldable pub load_cert_key_pair : Pem → Text → Text → Result NeoshdError (Bytes × Bytes)
load_cert_key_pair pem cert_path key_path = do
  cert_pem ← map_err io (pem.read cert_path)
  key_pem ← map_err io (pem.read key_path)
  certs ← map_err (λ e. config (codes "read cert failed: " ++ e)) (pem.certs cert_pem)
  cert ← ok_or (first certs) (config (codes "empty cert file"))
  keys ← map_err (λ e. config (codes "read key failed: " ++ e)) (pem.pkcs8_private_keys key_pem)
  key ← ok_or (pop keys) (config (codes "empty key file"))
  ok (cert, key)

-- The certificate and the key, as the libraries take them.
unfoldable pub tls_identity : Tls → NewArgs → Result NeoshdError (Bytes × Bytes)
unfolding load_cert_key_pair
tls_identity tls args = do
  (cert_der, key_der) ←
      if is_empty args.tls_cert
      then map_err (λ e. internal (codes "generate cert failed: " ++ e))
          tls.generate_simple_self_signed
      else load_cert_key_pair tls.pem args.tls_cert args.tls_key
  map_err (λ e. config (codes "invalid TLS config: " ++ e)) (tls.with_single_cert cert_der key_der)
  map_err (λ e. config (codes "quic rustls config failed: " ++ e)) tls.quic_config
  ok (cert_der, key_der)

abbrev pub server_config : NewArgs → Bytes × Bytes → ServerConfig
server_config args (cert_der, key_der) = record {
  certificate = cert_der;
  key = key_der;
  alpn = codes "neosh/1";
  max_idle_timeout = args.quic_idle_timeout_seconds;
  max_concurrent_bidi_streams = 1;
  max_concurrent_uni_streams = 8;
}

-- The loop of the daemon's own `sha256_fingerprint`.
abbrev pub push_bytes : Text → Bytes → Text
push_bytes out [] = out
push_bytes out (b ∷ digest) = push_bytes (out ++ hex_byte b) digest

unfoldable pub sha256_fingerprint : (Bytes → Bytes) → Bytes → Text
sha256_fingerprint sha256 cert_der = push_bytes (codes "sha256:") (sha256 cert_der)

-- `none` is the panic of `expect`; `sha256` is the digest.
unfoldable pub build_server_tls :
    (Bytes → Bytes) → Tls → NewArgs → Option (Result NeoshdError (ServerConfig × Text))
unfolding tls_identity sha256_fingerprint
build_server_tls sha256 tls args = elim (tls_identity tls args) [
  | err e ↦ some (err e)
  | ok identity ↦ elim (tls.idle_timeout args.quic_idle_timeout_seconds) [
    | err e ↦ none
    | ok _ ↦ some (ok (server_config args identity, sha256_fingerprint sha256 identity.0))
  ]
]

-- `str::split_whitespace`.
abbrev pub words_from : Text → Text → List Text
words_from word [] = if is_empty word then [] else word ∷ []
words_from word (c ∷ s) =
    let rest = words_from [] s in
    let longer = words_from (word ++ c ∷ []) s in
    if is_whitespace c then (if is_empty word then rest else word ∷ rest) else longer

-- What the standard library knows of addresses.
pub record Resolver (Addr : Type 0) : Type 0 where
  pub parse : Text → Option Addr
  pub localhost : Addr
  pub unspecified : Addr
  pub to_socket_addrs : Text → Result Text (List Addr)

-- The third of at least four fields: the address of this end of the SSH connection.
abbrev pub ssh_server : List Text → Option Text
ssh_server (client ∷ client_port ∷ server ∷ server_port ∷ more) = some server
ssh_server _ = none

module _ {Addr : Type 0} (net : Resolver Addr) where
  unfoldable pub ssh_address : Option Text → Option Addr
  ssh_address none = none
  ssh_address (some raw) = elim (ssh_server (words_from [] raw)) [
    | none ↦ none
    | some server ↦ net.parse server
  ]

  abbrev pub resolved : List Addr → Result NeoshdError (List Addr)
  resolved [] = err (config (codes "--bind-server resolved no addresses"))
  resolved (a ∷ addrs) = ok (a ∷ addrs)

  abbrev pub looked_up : Text → Result NeoshdError (List Addr)
  looked_up other = do
    addrs ←
        map_err (λ e. config (codes "resolve --bind-server failed: " ++ e))
          (net.to_socket_addrs other)
    resolved addrs

  -- `ssh_connection` is the variable `SSH_CONNECTION`.
  unfoldable pub resolve_bind_addrs : Option Text → NewArgs → Result NeoshdError (List Addr)
  unfolding ssh_address
  resolve_bind_addrs ssh_connection args =
      if text_eq args.bind_server (codes "ssh")
      then (elim (ssh_address ssh_connection) [
        | some ip ↦ ok (ip ∷ [])
        | none ↦ ok (net.localhost ∷ [])
      ])
      else if text_eq args.bind_server (codes "any")
      then ok (net.unspecified ∷ [])
      else (elim (net.parse args.bind_server) [
        | some ip ↦ ok (ip ∷ [])
        | none ↦ looked_up args.bind_server
      ])
