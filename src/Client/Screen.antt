-- ===== src/Client/Screen.antt =====
-- src/bin/neosh.rs: the task of bridge_terminal that takes the remote output to the user's terminal.
use neosh.Prelude.{
  concat, Bytes, ◌≡◌, refl, Bool, true, false, Option, none, some, List, [], ◌∷◌, ◌++◌,
}
use neosh.Client.Session.{ControlSignal, stream_closed, disconnected_signal}

-- What a read of the STDOUT stream answers.
pub data StdoutRead : Type 0 where
  chunk : Bytes → StdoutRead
  finished lost : StdoutRead

-- What the user's terminal was written by writes that succeeded, the signal for the session, and
-- whether the task has ended.
pub record Shown (Value : Type 0) : Type 0 where
  pub screen : Bytes
  pub signal : Option (ControlSignal Value)
  pub ended : Bool

module _ {Value : Type 0} where
  abbrev pub ends_with : Option (ControlSignal Value) → Shown Value
  ends_with signal = record { screen = []; signal = signal; ended = true }

  -- The loop, over the reads so far and whether the terminal takes each chunk.
  unfoldable pub show_output : List (StdoutRead × Bool) → Shown Value
  show_output [] = record { screen = []; signal = none; ended = false }
  show_output ((chunk bs, true) ∷ rs) =
      let rest = show_output rs in
      record { screen = bs ++ rest.screen; signal = rest.signal; ended = rest.ended }
  show_output ((chunk bs, false) ∷ rs) = ends_with none
  show_output ((finished, _) ∷ rs) = ends_with (some stream_closed)
  show_output ((lost, _) ∷ rs) = ends_with (some disconnected_signal)

-- The chunks arrive and are taken, and then the end of the stream, if it was finished.
abbrev pub arriving : List Bytes → Bool → List (StdoutRead × Bool)
arriving [] false = []
arriving [] true = (finished, true) ∷ []
arriving (c ∷ cs) f = (chunk c, true) ∷ arriving cs f

abbrev pub signal_at_end : {Value : Type 0} → Bool → Option (ControlSignal Value)
signal_at_end true = some stream_closed
signal_at_end false = none

pub show_output-arriving :
    {Value : Type 0} (cs : List Bytes) (f : Bool)
    → show_output {Value = Value} (arriving cs f)
      ≡ record { screen = concat cs; signal = signal_at_end f; ended = f }
unfolding show_output
show_output-arriving [] true = refl
show_output-arriving [] false = refl
show_output-arriving {Value = Value} (c ∷ cs) f =
    rw (show_output-arriving {Value = Value} cs f) refl
