-- ===== src/Protocol/Framing/Codec.antt =====
-- The round trips of src/protocol/framing.rs and the exact domain of each error.
use neosh.Prelude.{
  ℕ, ◌+◌, ◌/◌, ◌%◌, ◌^◌, ◌≤◌, ◌<◌, ◌++◌, ◌≡◌, ◌≢◌, drop, ◌↔◌, [], ◌∷◌, ok, err, Bytes, length,
  arith,
}
use neosh.Protocol.Framing.{
  too_short, length_mismatch, too_large, to_be_bytes, from_be_bytes, encode_frame, decode_frame,
}

-- Every element is a byte.
abbrev pub AreBytes : Bytes → Type 0
AreBytes [] = Unit {0}
AreBytes (b ∷ bs) = (b < 256) × AreBytes bs

pub from_be_bytes-to_be_bytes :
    (n : ℕ)
    → n < 2 ^ 32
    → from_be_bytes (n / 16777216 % 256) (n / 65536 % 256) (n / 256 % 256) (n % 256) ≡ n
unfolding from_be_bytes
from_be_bytes-to_be_bytes n h = omega arith

pub to_be_bytes-from_be_bytes :
    (a b c d : ℕ)
    → a < 256
    → b < 256
    → c < 256
    → d < 256
    → to_be_bytes (from_be_bytes a b c d) ≡ a ∷ b ∷ c ∷ d ∷ []
unfolding to_be_bytes from_be_bytes
to_be_bytes-from_be_bytes a b c d ha hb hc hd = ground arith

decoded_header :
    (a b c d : ℕ) (rest : Bytes)
    → AreBytes (a ∷ b ∷ c ∷ d ∷ rest)
    → length rest ≡ from_be_bytes a b c d
    → to_be_bytes (length rest % 2 ^ 32) ++ rest ≡ a ∷ b ∷ c ∷ d ∷ rest
unfolding to_be_bytes from_be_bytes
decoded_header a b c d rest hb e = ground arith

-- Decoding an encoded payload gives the payload back, if the payload is within the limit and its
-- length fits in 32 bits.
pub decode_frame-encode_frame :
    (payload : Bytes) (max_payload_len : ℕ)
    → length payload ≤ max_payload_len
    → length payload < 2 ^ 32
    → decode_frame (encode_frame payload) max_payload_len ≡ ok payload
unfolding encode_frame decode_frame
decode_frame-encode_frame payload m h w = ground arith

-- A payload whose length wraps at 32 bits does not decode to itself: its frame is refused.
pub decode_frame-encode_frame_wrapped :
    (payload : Bytes) (max_payload_len : ℕ)
    → 2 ^ 32 ≤ length payload
    → decode_frame (encode_frame payload) max_payload_len ≢ ok payload
unfolding encode_frame decode_frame
decode_frame-encode_frame_wrapped payload m w = ground arith

-- A frame of bytes that decodes is the encoding of its payload, and the payload is within the limit.
pub encode_frame-decode_frame :
    (buf payload : Bytes) (max_payload_len : ℕ)
    → AreBytes buf
    → decode_frame buf max_payload_len ≡ ok payload
    → (encode_frame payload ≡ buf) × (length payload ≤ max_payload_len)
unfolding encode_frame decode_frame from_be_bytes
encode_frame-decode_frame (a ∷ b ∷ c ∷ d ∷ rest) payload m hb h =
    ground (arith, decoded_header a b c d rest hb)
encode_frame-decode_frame [] payload m hb h = cc
encode_frame-decode_frame (a ∷ []) payload m hb h = cc
encode_frame-decode_frame (a ∷ b ∷ []) payload m hb h = cc
encode_frame-decode_frame (a ∷ b ∷ c ∷ []) payload m hb h = cc

-- The length that the header of a frame announces, for a frame that has a header.
abbrev pub announced : Bytes → ℕ
announced (a ∷ b ∷ c ∷ d ∷ rest) = from_be_bytes a b c d
announced _ = 0

-- A frame is refused as too short exactly when it has fewer than four bytes; else as too large
-- exactly when it announces more than the limit; else as mismatched exactly when it does not have
-- the announced length; and else it decodes to what follows the header.
pub decode_frame_cases :
    (buf : Bytes) (max_payload_len : ℕ)
    → ((decode_frame buf max_payload_len ≡ err too_short) ↔ (length buf < 4))
      × ((decode_frame buf max_payload_len ≡ err too_large)
          ↔ ((4 ≤ length buf) × (max_payload_len < announced buf)))
      × ((decode_frame buf max_payload_len ≡ err length_mismatch) ↔ (
          (4 ≤ length buf) × (announced buf ≤ max_payload_len) × (length buf ≢ 4 + announced buf)))
      × ((decode_frame buf max_payload_len ≡ ok (drop 4 buf))
          ↔ ((announced buf ≤ max_payload_len) × (length buf ≡ 4 + announced buf)))
unfolding decode_frame
decode_frame_cases (a ∷ b ∷ c ∷ d ∷ rest) m = ground arith
decode_frame_cases [] m = ground arith
decode_frame_cases (a ∷ []) m = ground arith
decode_frame_cases (a ∷ b ∷ []) m = ground arith
decode_frame_cases (a ∷ b ∷ c ∷ []) m = ground arith
