-- ===== src/Tests/Protocol.antt =====
-- Examples for src/protocol/.
use neosh.Prelude.{length, ok, Bytes, ℕ, zero, suc, ◌≡◌, refl, ap, [], ◌∷◌}
use neosh.Protocol.Framing.{decode_frame}

abbrev payload : Bytes
payload = 7 ∷ 255 ∷ []

abbrev frame : Bytes
frame = 0 ∷ 0 ∷ 0 ∷ 2 ∷ 7 ∷ 255 ∷ []

-- `n` zero bytes.
unfoldable zeros : ℕ → Bytes
zeros zero = []
zeros (suc n) = 0 ∷ zeros n

length-zeros : (n : ℕ) → length (zeros n) ≡ n
unfolding zeros
length-zeros zero = refl
length-zeros (suc n) = ap suc (length-zeros n)

frame_decodes : decode_frame frame 16 ≡ ok payload
unfolding decode_frame
frame_decodes = refl
