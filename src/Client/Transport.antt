-- ===== src/Client/Transport.antt =====
-- src/client/quic_client.rs: the client trusts a daemon by the fingerprint of its certificate. TLS and
-- QUIC are not this repository's code: their answers are arguments, and SHA-256 is the parameter
-- `digest`.
pub mod Pinning
use neosh.Prelude.{
  ltb, if◌then◌else◌, concat, Result, ◌>>=◌, ◌>>◌, guard, ok_or, map_err, Text, Bytes, codes,
  text_eq, ℕ, ◌+◌, ◌/◌, ◌%◌, Bool, Option, none, some, List, [], ◌∷◌, ◌++◌, map,
}

pub data QuicClientError : Type 0 where
  connect invalid_idle_timeout : Text → QuicClientError
  missing_peer_certificate fingerprint_mismatch invalid_addr : QuicClientError

-- The `#[error(…)]` texts.
unfoldable pub to_string : QuicClientError → Text
to_string (connect e) = codes "connect error: " ++ e
to_string missing_peer_certificate = codes "peer certificate missing"
to_string fingerprint_mismatch = codes "fingerprint mismatch"
to_string invalid_addr = codes "invalid quic addr"
to_string (invalid_idle_timeout e) = codes "invalid idle timeout: " ++ e

-- `{:02x}` of a byte.
abbrev pub hex_digit : ℕ → ℕ
hex_digit d = if ltb d 10 then d + 48 else d + 87

abbrev pub hex_byte : ℕ → Text
hex_byte b = hex_digit (b / 16) ∷ hex_digit (b % 16) ∷ []

module _ (digest : Bytes → Bytes) where
  unfoldable pub sha256_fingerprint : Bytes → Text
  sha256_fingerprint cert_der = codes "sha256:" ++ concat (map hex_byte (digest cert_der))

  -- `identity` is the list of certificates that the connection gives, if there is one.
  unfoldable pub peer_cert_fingerprint : Option (List Bytes) → Option Text
  unfolding sha256_fingerprint
  peer_cert_fingerprint none = none
  peer_cert_fingerprint (some []) = none
  peer_cert_fingerprint (some (cert ∷ certs)) = some (sha256_fingerprint cert)

  unfoldable pub verify_peer_fingerprint :
      Option (List Bytes) → Text → Result QuicClientError (Unit {0})
  unfolding peer_cert_fingerprint
  verify_peer_fingerprint identity expected = do
    actual ← ok_or (peer_cert_fingerprint identity) missing_peer_certificate
    guard (text_eq actual expected) fingerprint_mismatch

  -- What the library answers to the calls of `connect_and_verify`, in their order.
  pub record Network : Type 0 where
    pub parses : Bool
    pub client : Result Text (Unit {0})
    pub config : Result Text (Unit {0})
    pub idle_timeout : Result Text (Unit {0})
    pub connects : Result Text (Unit {0})
    pub handshake : Result Text (Unit {0})
    pub identity : Option (List Bytes)

  unfoldable pub connect_and_verify : Network → Text → Result QuicClientError (Unit {0})
  unfolding verify_peer_fingerprint
  connect_and_verify net expected_fingerprint = do
    guard net.parses invalid_addr
    map_err connect net.client
    map_err connect net.config
    map_err invalid_idle_timeout net.idle_timeout
    map_err connect net.connects
    map_err connect net.handshake
    verify_peer_fingerprint net.identity expected_fingerprint
