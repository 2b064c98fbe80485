-- ===== src/Client/Bootstrap/Offers.antt =====
-- src/bin/neoshd.rs and src/client/bootstrap.rs: the payload that the daemon prints passes the checks
-- of the client.
use neosh.Prelude.{
  rsplit_once-append, ◌==◌, concat, length, is_empty, all, ok, Text, Bytes, rsplit_once,
  strip_prefix, decimal, parse_u16-decimal, ℕ, ◌*◌, ◌/◌, ◌%◌, ◌<◌, ◌≡◌, refl, ◌≢◌, true, false,
  none, ◌∷◌, ◌++◌, map, arith, [],
}
use neosh.Client.Bootstrap.{
  BootstrapPayload, is_hexdigit, is_valid_host_port, is_fingerprint, validate_bootstrap_payload,
}
use neosh.Client.Transport.{hex_digit, hex_byte, sha256_fingerprint}
use neosh.Client.Transport.Pinning.{is_byte, is_byte-div, all-head, all-tail, HasBytes}

is_hexdigit-hex_digit : (d : ℕ) → d < 16 → is_hexdigit (hex_digit d) ≡ true
is_hexdigit-hex_digit d h = ground (arith, h)

abbrev hex : Bytes → Text
hex bs = concat (map hex_byte bs)

length-hex : (bs : Bytes) → length (hex bs) ≡ 2 * length bs
length-hex [] = omega arith
length-hex (b ∷ bs) = omega (arith, length-hex bs)

all-hex : (bs : Bytes) → all is_byte bs ≡ true → all is_hexdigit (hex bs) ≡ true
all-hex [] h = refl
all-hex (b ∷ bs) h =
    rw
      (
        is_hexdigit-hex_digit (b / 16) (is_byte-div b (all-head b bs h)),
        is_hexdigit-hex_digit (b % 16) (omega arith),
        all-hex bs (all-tail b bs h),
      )
      refl

pub is_fingerprint-sha256_fingerprint :
    (digest : Bytes → Bytes) (cert : Bytes)
    → HasBytes digest cert
    → is_fingerprint (sha256_fingerprint digest cert) ≡ ok tt
unfolding is_fingerprint sha256_fingerprint strip_prefix
is_fingerprint-sha256_fingerprint digest cert (len, bytes) =
    let count : length (hex (digest cert)) ≡ 64 = omega (arith, length-hex (digest cert), len) in
    rw (count, all-hex (digest cert) bytes) refl

rsplit_once-none : (n : ℕ) → n < 65536 → rsplit_once b':' (decimal n) ≡ none
unfolding rsplit_once decimal
rsplit_once-none n h = ground (arith, h)

-- `format!("{}:{}", ip, port)`.
abbrev pub addr_text : Text → ℕ → Text
addr_text ip port = ip ++ b':' ∷ decimal port

pub is_valid_host_port-addr_text :
    (c : ℕ) (ip : Text) (port : ℕ)
    → c ≢ b'['
    → port < 65536
    → is_valid_host_port (addr_text (c ∷ ip) port) ≡ true
unfolding is_valid_host_port
is_valid_host_port-addr_text c ip port n b =
    let plain : (c == b'[') ≡ false = ground (arith, n) in
    rw
      (
        plain,
        rsplit_once-append b':' (c ∷ ip) (decimal port) (rsplit_once-none port b),
        parse_u16-decimal port b,
      )
      refl

-- A payload whose token is not empty and lasts, whose address is that of the daemon for a port of
-- 16 bits and an IP address that does not begin with a bracket, and whose fingerprint is that of a
-- certificate with a digest of 32 bytes, passes the checks of the client.
pub validate_bootstrap_payload-offer :
    (digest : Bytes → Bytes) (cert : Bytes) (c : ℕ) (ip : Text) (port : ℕ) (p : BootstrapPayload)
    → HasBytes digest cert
    → c ≢ b'['
    → port < 65536
    → is_empty p.auth_token ≡ false
    → p.auth_token_expires_in_seconds ≢ 0
    → p.quic_addr ≡ addr_text (c ∷ ip) port
    → p.cert_fingerprint ≡ sha256_fingerprint digest cert
    → validate_bootstrap_payload p ≡ ok tt
unfolding validate_bootstrap_payload
validate_bootstrap_payload-offer digest cert c ip port p hb n b token ttl addr fp =
    let lasts : (p.auth_token_expires_in_seconds == 0) ≡ false = ground (arith, ttl) in
    rw
      (
        token,
        lasts,
        addr,
        fp,
        is_valid_host_port-addr_text c ip port n b,
        is_fingerprint-sha256_fingerprint digest cert hb,
      )
      refl
