-- ===== src/Server/Output.antt =====
-- src/bin/neoshd.rs: the way of the terminal's output, from the reader thread of ensure_pty_runtime over
-- a broadcast channel to the forwarding task of start_data_plane. The channel is not this repository's
-- code: a receiver gets every chunk that is sent, unless it has fallen too far behind, and then its
-- `recv` answers an error.
pub mod Forwarding
use neosh.Prelude.{[], Bytes, Bool, true, false, List, ◌∷◌, ◌++◌}
use neosh.Server.State.{ServerState, append_replay}

-- What `read` answers; `Ok(n)` brings `n` bytes.
pub data Read : Type 0 where
  got : Bytes → Read
  failed : Read

-- The reader thread, over the answers so far: the chunks sent, and whether it set `pty_exited`, which
-- it does before it sends the empty chunk.
unfoldable pub reader_thread : List Read → List Bytes × Bool
reader_thread [] = ([], false)
reader_thread (failed ∷ rs) = ([] ∷ [], true)
reader_thread (got [] ∷ rs) = ([] ∷ [], true)
reader_thread (got (b ∷ bs) ∷ rs) = let rest = reader_thread rs in ((b ∷ bs) ∷ rest.0, rest.1)

-- What `rx.recv()` answers, and whether the stream takes the chunk.
pub data Receive : Type 0 where
  received : Bytes → Bool → Receive
  lagged channel_closed : Receive

-- The server, what was written to the STDOUT stream by writes that succeeded, and whether the stream
-- was finished.
pub record Forwarded : Type 0 where
  pub server : ServerState
  pub stdout : Bytes
  pub finished : Bool

abbrev pub ends : ServerState → Forwarded
ends st = record { server = st; stdout = []; finished = true }

-- The loop of the forwarding task, and its end, over what it receives so far.
unfoldable pub forward_output : ServerState → List Receive → Forwarded
unfolding append_replay
forward_output st [] = record { server = st; stdout = []; finished = false }
forward_output st (lagged ∷ rs) = ends st
forward_output st (channel_closed ∷ rs) = ends st
forward_output st (received [] written ∷ rs) = ends st
forward_output st (received (b ∷ bs) false ∷ rs) = ends (append_replay st (b ∷ bs))
forward_output st (received (b ∷ bs) true ∷ rs) =
    let rest = forward_output (append_replay st (b ∷ bs)) rs in
    record { server = rest.server; stdout = (b ∷ bs) ++ rest.stdout; finished = rest.finished }
