-- ===== src/Client/Transport/Pinning.antt =====
-- src/client/quic_client.rs: a fingerprint names one digest, and a connection is kept for it alone.
use neosh.Prelude.{
  ltb, concat, length, all, ok, Text, Bytes, codes, text_eq, text_eq→eq, text_eq_refl, ℕ, ◌/◌, ◌%◌,
  ◌<◌, ◌≡◌, refl, ◌↔◌, Bool, true, Option, none, some, List, [], ◌∷◌, ◌++◌, map, arith,
}
use neosh.Client.Transport.{
  hex_digit, hex_byte, sha256_fingerprint, verify_peer_fingerprint, Network, connect_and_verify,
}

abbrev pub is_byte : ℕ → Bool
is_byte b = ltb b 256

hex_digit-injective : (a b : ℕ) → a < 16 → b < 16 → hex_digit a ≡ hex_digit b → a ≡ b
hex_digit-injective a b p q h = ground arith

byte-eq : (a b : ℕ) → a / 16 ≡ b / 16 → a % 16 ≡ b % 16 → a ≡ b
byte-eq a b p q = omega (arith, p, q)

pub is_byte-div : (b : ℕ) → is_byte b ≡ true → b / 16 < 16
is_byte-div b h = ground (arith, h)

module _ (x : ℕ) (xs : Bytes) where
  pub all-head : all is_byte (x ∷ xs) ≡ true → is_byte x ≡ true
  all-head h = ground (arith, h)

  pub all-tail : all is_byte (x ∷ xs) ≡ true → all is_byte xs ≡ true
  all-tail h = ground (arith, h)

pub hex_injective :
    (xs ys : Bytes)
    → all is_byte xs ≡ true
    → all is_byte ys ≡ true
    → concat (map hex_byte xs) ≡ concat (map hex_byte ys)
    → xs ≡ ys
hex_injective [] [] p q h = refl
hex_injective [] (y ∷ ys) p q h = cc
hex_injective (x ∷ xs) [] p q h = cc
hex_injective (x ∷ xs) (y ∷ ys) p q h = ground (
  arith,
  h,
  byte-eq x y,
  hex_digit-injective (x / 16) (y / 16) (is_byte-div x (all-head x xs p))
      (is_byte-div y (all-head y ys q)),
  hex_digit-injective (x % 16) (y % 16) (omega arith) (omega arith),
  hex_injective xs ys (all-tail x xs p) (all-tail y ys q),
)

prefix_cancels : (s t : Text) → codes "sha256:" ++ s ≡ codes "sha256:" ++ t → s ≡ t
prefix_cancels s t h = cc

module _ (digest : Bytes → Bytes) where
  abbrev pub HasBytes : Bytes → Type 0
  HasBytes cert = (length (digest cert) ≡ 32) × (all is_byte (digest cert) ≡ true)

  module _ (c d : Bytes) (p : HasBytes c) (q : HasBytes d) where
    sha256_fingerprint-injective :
        sha256_fingerprint digest c ≡ sha256_fingerprint digest d → digest c ≡ digest d
    unfolding sha256_fingerprint
    sha256_fingerprint-injective h =
        hex_injective (digest c) (digest d) p.1 q.1 (prefix_cancels _ _ h)

    pub verify_peer_fingerprint_iff :
        (rest : List Bytes)
        → (verify_peer_fingerprint digest (some (c ∷ rest)) (sha256_fingerprint digest d) ≡ ok tt)
          ↔ (digest c ≡ digest d)
    unfolding verify_peer_fingerprint text_eq
    verify_peer_fingerprint_iff rest = (
      λ h. sha256_fingerprint-injective (
          text_eq→eq (sha256_fingerprint digest c) (sha256_fingerprint digest d)
            (ground (arith, h))),
      λ e. rw e (rw (text_eq_refl (concat (map hex_byte (digest d)))) refl),
    )

  pinned :
      (identity : Option (List Bytes)) (d : Bytes)
      → ((c : Bytes) → HasBytes c)
      → verify_peer_fingerprint digest identity (sha256_fingerprint digest d) ≡ ok tt
      → (c : Bytes) × (rest : List Bytes) × (identity ≡ some (c ∷ rest)) × (digest c ≡ digest d)
  unfolding verify_peer_fingerprint
  pinned none d hb h = cc
  pinned (some []) d hb h = cc
  pinned (some (c ∷ rest)) d hb h =
      (c, rest, refl, (verify_peer_fingerprint_iff c d (hb c) (hb d) rest).0 h)

  connect_and_verify-steps :
      (net : Network digest) (expected : Text)
      → connect_and_verify digest net expected ≡ ok tt
      → (net.parses ≡ true)
        × (net.handshake ≡ ok tt)
        × (verify_peer_fingerprint digest net.identity expected ≡ ok tt)
  unfolding connect_and_verify
  connect_and_verify-steps net expected h = ground (arith, h)

  -- With a digest of 32 bytes for every certificate: a connection is kept only when the address
  -- was parsed, the handshake succeeded and the daemon showed a certificate, and the digest of the
  -- first one it showed is then the digest of the certificate whose fingerprint the client
  -- expects.
  pub connect_and_verify-Pins :
      (net : Network digest) (d : Bytes)
      → ((c : Bytes) → HasBytes c)
      → connect_and_verify digest net (sha256_fingerprint digest d) ≡ ok tt
      → (net.parses ≡ true)
        × (net.handshake ≡ ok tt)
        × (c : Bytes) × (rest : List Bytes) × (net.identity ≡ some (c ∷ rest))
        × (digest c ≡ digest d)
  unfolding connect_and_verify
  connect_and_verify-Pins net d hb h =
      let (parses, handshake, verified) =
        connect_and_verify-steps net (sha256_fingerprint digest d) h in
      let (c, rest, shown, same) = pinned net.identity d hb verified in
      (parses, handshake, c, rest, shown, same)
