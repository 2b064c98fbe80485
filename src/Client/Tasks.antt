-- ===== src/Client/Tasks.antt =====
-- The tasks of src/bin/neosh.rs that send on the control stream while a session is attached: keepalive_task
-- and resize_watch_task. What wakes them is an argument, and a send that fails is dropped.
use neosh.Prelude.{
  Result, ok, err, Text, codes, show_u128, digits_value, digits_value-show_u128, ◌^◌, ◌<◌, ◌≡◌, ℕ,
  Option, none, some, List, [], ◌∷◌,
}
use neosh.Client.Control.{Message, ping, resize}

-- The detach, or fifteen seconds, with the milliseconds since the epoch, if the clock is not before it.
pub data Beat : Type 0 where
  detached : Beat
  slept : Option ℕ → Beat

abbrev pub nonce_of : Option ℕ → Text
nonce_of none = codes "0"
nonce_of (some millis) = show_u128 millis

-- The nonce reads as the clock, which is a `u128`.
nonce_of-value : (millis : ℕ) → millis < 2 ^ 128 → digits_value 0 (nonce_of (some millis)) ≡ millis
nonce_of-value millis h = digits_value-show_u128 millis h

-- What the loop gives to send_json.
unfoldable pub keepalive_task : List Beat → List Message
keepalive_task [] = []
keepalive_task (detached ∷ beats) = []
keepalive_task (slept now ∷ beats) = ping (nonce_of now) ∷ keepalive_task beats

-- The detach, or the signal of a new size, with what `read_tty_size` answers.
pub data Winch : Type 0 where
  detached : Winch
  changed : Option (ℕ × ℕ) → Winch

unfoldable pub watch_sizes : List Winch → List Message
watch_sizes [] = []
watch_sizes (detached ∷ ws) = []
watch_sizes (changed none ∷ ws) = watch_sizes ws
watch_sizes (changed (some (rows, cols)) ∷ ws) = resize rows cols ∷ watch_sizes ws

-- `signal(…)`, which may fail, and the loop.
unfoldable pub resize_watch_task : Result Text (List Winch) → List Message
unfolding watch_sizes
resize_watch_task (err e) = []
resize_watch_task (ok ws) = watch_sizes ws
