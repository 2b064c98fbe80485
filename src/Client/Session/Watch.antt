-- ===== src/Client/Session/Watch.antt =====
-- src/bin/neosh.rs: the tasks beside a session. `control_watch_loop` reads the control stream while the
-- session is attached, and the socket takes a request to detach.
use neosh.Prelude.{
  if◌then◌else◌, length, take, drop, length-drop, Result, ok, err, Bytes, codes, ℕ, zero, suc, ◌≤◌,
  ◌<◌, ◌≡◌, refl, ap, ◌∙◌, Option, none, some, List, [], ◌∷◌, ◌++◌, arith,
}
use neosh.Protocol.Framing.{encode_frame}
use neosh.Server.Wire.{read_exact, header_len}
use neosh.Client.Control.{Serde, is_text, message_type, read_json, read_json-encode_frame}
use neosh.Client.Session.{CliError, ControlSignal, close_signal, error_signal}
use neosh.Client.Session.Attach.{Reads}

abbrev or_else : {A : Type 0} → Option A → Option A → Option A
or_else (some a) b = some a
or_else none b = b

module _ {Value : Type 0} (json : Serde Value) (unknown : Value → Value) where
  -- What a frame makes the loop do: end with a signal, or go on. `unknown` is the value that is made
  -- of a frame of another type.
  unfoldable pub on_frame : Value → Option (ControlSignal Value)
  on_frame frame =
      if is_text (message_type json frame) (codes "CLOSE")
      then some close_signal
      else if is_text (message_type json frame) (codes "ERROR")
      then some (error_signal frame)
      else if is_text (message_type json frame) (codes "PONG")
      then none
      else some (error_signal (unknown frame))

  -- What follows a read: the end of the loop, or more of it.
  unfoldable pub watch_next :
      (Bytes → Option (ControlSignal Value))
      → Result CliError (Value × Bytes)
      → Option (ControlSignal Value)
  unfolding on_frame
  watch_next more (err e) = none
  watch_next more (ok (frame, rest)) = or_else (on_frame frame) (more rest)

  -- The loop, on fuel: the signal that it sends, or none when the stream ends or cannot be read.
  unfoldable pub control_watch_loop : ℕ → Bytes → Option (ControlSignal Value)
  unfolding watch_next
  control_watch_loop zero recv = none
  control_watch_loop (suc fuel) recv =
      let more = λ (rest : Bytes). control_watch_loop fuel rest in
      watch_next more (read_json json recv)

  read_json-consumes :
      (recv rest : Bytes) (v : Value)
      → read_json json recv ≡ ok (v, rest)
      → length rest < length recv
  unfolding read_json read_exact
  read_json-consumes recv rest v h =
      ground (arith, h, length-drop 4 recv, length-drop (header_len (take 4 recv)) (drop 4 recv))

  watch_next-same :
      (fuel fuel' : ℕ) (recv : Bytes) (r : Result CliError (Value × Bytes))
      → read_json json recv ≡ r
      → length recv ≤ fuel
      → length recv ≤ fuel'
      → ((rest : Bytes)
          → length rest < fuel
          → length rest < fuel'
          → control_watch_loop fuel rest ≡ control_watch_loop fuel' rest)
      → watch_next (control_watch_loop fuel) r ≡ watch_next (control_watch_loop fuel') r
  unfolding watch_next
  watch_next-same fuel fuel' recv (err e) q h k same = refl
  watch_next-same fuel fuel' recv (ok (frame, rest)) q h k same =
      let shorter = read_json-consumes recv rest frame q in
      ap (or_else (on_frame frame))
        (same rest (omega (arith, shorter, h)) (omega (arith, shorter, k)))

  -- As much fuel as there are bytes is enough: with any more the loop answers the same.
  pub control_watch_loop-enough :
      (fuel fuel' : ℕ) (recv : Bytes)
      → length recv < fuel
      → length recv < fuel'
      → control_watch_loop fuel recv ≡ control_watch_loop fuel' recv
  unfolding control_watch_loop watch_next
  control_watch_loop-enough zero fuel' recv h k = ground (arith, h)
  control_watch_loop-enough (suc fuel) zero recv h k = ground (arith, k)
  control_watch_loop-enough (suc fuel) (suc fuel') recv h k =
      watch_next-same fuel fuel' recv (read_json json recv) refl (omega (arith, h))
        (omega (arith, k)) (control_watch_loop-enough fuel fuel')

  abbrev pub frames : List Bytes → Bytes → Bytes
  frames [] rest = rest
  frames (p ∷ ps) rest = encode_frame p ++ frames ps rest

  -- PONGs, within the limit.
  abbrev pub Quiet : List Bytes → Type 0
  Quiet [] = Unit
  Quiet (p ∷ ps) = ((v : Value) × (Reads json p v) × (on_frame v ≡ none)) × Quiet ps

  -- However many PONGs come first, if the fuel is more than their number and every payload is
  -- within the limit: the first frame that is none of them makes its signal, whatever follows.
  pub control_watch_loop-signals :
      (fuel : ℕ) (ps : List Bytes) (p rest : Bytes) (v : Value) (signal : ControlSignal Value)
      → length ps < fuel
      → Quiet ps
      → Reads json p v
      → on_frame v ≡ some signal
      → control_watch_loop fuel (frames ps (encode_frame p ++ rest)) ≡ some signal
  unfolding control_watch_loop watch_next
  control_watch_loop-signals zero ps p rest v signal h quiet r e = ground (arith, h)
  control_watch_loop-signals (suc fuel) [] p rest v signal h quiet (fits, reads) e =
      ap (watch_next (control_watch_loop fuel)) (read_json-encode_frame json p rest v fits reads)
      ∙ ap (λ o. or_else o (control_watch_loop fuel rest)) e
  control_watch_loop-signals (suc fuel) (q ∷ ps) p rest v signal h
        ((w, (fits, reads), none_yet), quiet) r e =
      let behind = frames ps (encode_frame p ++ rest) in
      ap (watch_next (control_watch_loop fuel)) (read_json-encode_frame json q behind w fits reads)
      ∙ ap (λ o. or_else o (control_watch_loop fuel behind)) none_yet
      ∙ control_watch_loop-signals fuel ps p rest v signal (omega (arith, h)) quiet r e
