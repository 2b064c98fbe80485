-- ===== src/Client/Stdin.antt =====
-- The detach hotkey of src/bin/neosh.rs: Ctrl-a then d in the bytes typed.
pub mod Hotkey
use neosh.Prelude.{
  ◌==◌, if◌then◌else◌, Bytes, ℕ, ◌+◌, Bool, true, false, ◌&&◌, ◌||◌, List, [], ◌∷◌, ◌++◌,
}

unfoldable pub normalize_stdin_byte : ℕ → ℕ
normalize_stdin_byte b = if b == 0x08 then 0x7f else b

abbrev pub is_detach_key : ℕ → Bool
is_detach_key b = (b == b'd') || (b == b'D')

-- The loop of `process_stdin_chunk_for_detach`, over the bytes that are left, with what was written
-- to `out`.
unfoldable pub scan : Bytes → Bytes → Bool → Bool × Bytes × Bool
unfolding normalize_stdin_byte
scan [] out pending = (false, out, pending)
scan (b ∷ bs) out pending =
    let out' = if pending then out ++ 0x01 ∷ [] else out in
    let rest =
      scan bs (if b == 0x01 then out' else out' ++ normalize_stdin_byte b ∷ []) (b == 0x01) in
    if pending && is_detach_key b then (true, out, false) else rest

unfoldable pub process_stdin_chunk_for_detach : Bytes → Bool → Bool × Bytes × Bool
unfolding scan
process_stdin_chunk_for_detach chunk pending_ctrl_a = scan chunk [] pending_ctrl_a

-- The loop of `bridge_terminal` over the chunks that are read, where the stream takes every write:
-- what is sent, and whether the hotkey was seen. At the end of the input a pending Ctrl-a is sent.
unfoldable pub forward : Bool → List Bytes → Bool × Bytes
unfolding process_stdin_chunk_for_detach
forward pending [] = (false, if pending then 0x01 ∷ [] else [])
forward pending (c ∷ cs) =
    let r = process_stdin_chunk_for_detach c pending in
    let rest = forward r.2 cs in if r.0 then (true, []) else (rest.0, r.1 ++ rest.1)
