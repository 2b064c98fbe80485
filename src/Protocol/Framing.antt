-- ===== src/Protocol/Framing.antt =====
-- src/protocol/framing.rs: length-prefixed frames. A byte is a number below 256; `usize` has
-- 64 bits, so `4 + payload_len` does not wrap.
pub mod Codec
use neosh.Prelude.{
  ℕ, ◌+◌, ◌*◌, ◌/◌, ◌%◌, ◌^◌, ◌++◌, [], ◌∷◌, Result, ok, err, Bytes, length, ltb, ◌==◌,
  if◌then◌else◌, not,
}

pub data FramingError : Type 0 where
  too_short length_mismatch too_large : FramingError

-- `n.to_be_bytes()` of a `u32`.
unfoldable pub to_be_bytes : ℕ → Bytes
to_be_bytes n = (n / 16777216 % 256) ∷ (n / 65536 % 256) ∷ (n / 256 % 256) ∷ (n % 256) ∷ []

-- `u32::from_be_bytes([a, b, c, d])`.
unfoldable pub from_be_bytes : ℕ → ℕ → ℕ → ℕ → ℕ
from_be_bytes a b c d = a * 16777216 + b * 65536 + c * 256 + d

-- `payload.len() as u32` keeps the low 32 bits.
unfoldable pub encode_frame : Bytes → Bytes
unfolding to_be_bytes
encode_frame payload = to_be_bytes (length payload % 2 ^ 32) ++ payload

unfoldable pub decode_frame : Bytes → ℕ → Result FramingError Bytes
unfolding from_be_bytes
decode_frame (a ∷ b ∷ c ∷ d ∷ rest) max_payload_len =
    let payload_len = from_be_bytes a b c d in
    if ltb max_payload_len payload_len
    then err too_large
    else (if not (length (a ∷ b ∷ c ∷ d ∷ rest) == 4 + payload_len)
        then err length_mismatch
        else ok rest)
decode_frame _ max_payload_len = err too_short
