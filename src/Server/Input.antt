-- ===== src/Server/Input.antt =====
-- src/bin/neoshd.rs: the task of start_data_plane that takes the bytes typed at the client to the terminal.
use neosh.Prelude.{
  concat, Result, ok, err, Text, Bytes, ◌≡◌, refl, Bool, true, false, List, [], ◌∷◌, ◌++◌,
}

-- What a read of the STDIN stream answers.
pub data StdinRead : Type 0 where
  chunk : Bytes → StdinRead
  ended broken : StdinRead

-- What the terminal's writer does with a chunk: it takes it, it fails, or its mutex is poisoned.
pub data Written : Type 0 where
  taken failed poisoned : Written

-- What was written to the terminal by writes that succeeded, and whether the task has ended.
pub record Forwarded : Type 0 where
  pub typed : Bytes
  pub ended : Bool

abbrev pub stops : Forwarded
stops = record { typed = []; ended = true }

-- The loop, over what it meets so far.
unfoldable pub forward_input : List (StdinRead × Written) → Forwarded
forward_input [] = record { typed = []; ended = false }
forward_input ((chunk bs, taken) ∷ rs) =
    let rest = forward_input rs in record { typed = bs ++ rest.typed; ended = rest.ended }
forward_input ((chunk bs, _) ∷ rs) = stops
forward_input ((ended, _) ∷ rs) = stops
forward_input ((broken, _) ∷ rs) = stops

-- From the opening of the stream on, which may fail.
unfoldable pub stdin_task : Result Text (List (StdinRead × Written)) → Forwarded
unfolding forward_input
stdin_task (err e) = stops
stdin_task (ok rs) = forward_input rs

-- Every chunk arrives and is taken.
abbrev pub all_taken : List Bytes → List (StdinRead × Written)
all_taken [] = []
all_taken (c ∷ cs) = (chunk c, taken) ∷ all_taken cs

pub forward_input-all_taken :
    (cs : List Bytes) → forward_input (all_taken cs) ≡ record { typed = concat cs; ended = false }
unfolding forward_input
forward_input-all_taken [] = refl
forward_input-all_taken (c ∷ cs) = rw (forward_input-all_taken cs) refl
