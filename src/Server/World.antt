-- ===== src/Server/World.antt =====
-- The daemon of src/bin/neoshd.rs with all its tasks: the server's state behind the mutex, and the
-- connections, each at its own point of `handle_connection`. A handler makes its changes of the state
-- in one locked section, so a message is one event, and a schedule is any list of events.
pub mod Invariant
pub mod Ownership
pub mod Serving
pub mod Accepting
use neosh.Prelude.{
  Result, Text, Bytes, Uuid, empty, insert, SystemTime, ℕ, true, Option, none, some, List, [], ◌∷◌,
}
use neosh.Token.Service.{Draw}
use neosh.Server.State.{ServerState, append_replay}
use neosh.Server.Wire.{Json}
use neosh.Server.Exchange.{Conn, opened, Env, Flow, continues, breaks, fails, Outcome}
use neosh.Server.Connection.{handle_message, finish}
use neosh.Server.Loops.{RenewIpcReq, accept_checks, ipc_response, sweep_tick}

-- A connection reads messages, waits for its cleanup, has ended after it, or has returned from
-- `handle_connection` with an error, without a cleanup.
pub data Phase : Type 0 where
  reading cleaning ended aborted : Phase

abbrev pub Peer : Type 0
Peer = Conn × Phase

pub record World : Type 0 where
  pub server : ServerState
  pub peers : Uuid → Option Peer

pub data Event : Type 0 where
  -- A new connection, under an id that no connection had: `Uuid::new_v4()`.
  opens : Uuid → Event
  -- A frame arrives from a connection.
  receives : Uuid → Bytes → Env → Event
  -- The control stream of a connection ends.
  hangs_up : Uuid → Event
  -- A connection runs its cleanup.
  cleans_up : Uuid → SystemTime → Event
  -- The reader thread sees the end of the terminal.
  shell_exits : Event
  -- A forwarding task records a chunk of output.
  outputs : Bytes → Event
  -- The accept loop checks the timeouts.
  checks : SystemTime → SystemTime → Event
  -- The renewal socket answers a request.
  renews : ℕ → Result Text RenewIpcReq → Draw → Event
  -- The sweeper ticks.
  sweeps : SystemTime → Event

abbrev pub next_phase : Flow → Phase
next_phase continues = reading
next_phase breaks = cleaning
next_phase (fails e) = aborted

abbrev pub set_peer : World → ServerState → Uuid → Conn → Phase → World
set_peer w st c conn phase = record { server = st; peers = insert c (conn, phase) w.peers }

abbrev pub after_message : World → Uuid → Outcome → World
after_message w c o = set_peer w o.server c o.conn (next_phase o.flow)

module _ (json : Json) (hash : Text → ℕ) where
  -- What a peer's own event does; an event that does not fit the peer's phase changes nothing.
  unfoldable pub on_open : World → Uuid → Option Peer → World
  on_open w c none = set_peer w w.server c (opened c) reading
  on_open w c (some p) = w

  unfoldable pub on_receive : World → Uuid → Bytes → Env → Option Peer → World
  on_receive w c payload env (some (conn, reading)) =
      after_message w c (handle_message json env hash w.server conn payload)
  on_receive w c payload env _ = w

  unfoldable pub on_hang_up : World → Uuid → Option Peer → World
  on_hang_up w c (some (conn, reading)) = set_peer w w.server c conn cleaning
  on_hang_up w c _ = w

  unfoldable pub on_clean_up : World → Uuid → SystemTime → Option Peer → World
  on_clean_up w c now (some (conn, cleaning)) = set_peer w (finish w.server now conn) c conn ended
  on_clean_up w c now _ = w

  unfoldable pub act : World → Event → World
  unfolding on_open on_receive on_hang_up on_clean_up
  act w (opens c) = on_open w c (w.peers c)
  act w (receives c payload env) = on_receive w c payload env (w.peers c)
  act w (hangs_up c) = on_hang_up w c (w.peers c)
  act w (cleans_up c now) = on_clean_up w c now (w.peers c)
  act w shell_exits = record w { server = record (w.server) { pty_exited = true } }
  act w (outputs chunk) = record w { server = append_replay w.server chunk }
  act w (checks now later) = record w { server = (accept_checks w.server now later).0 }
  act w (renews uid req d) = record w { server = (ipc_response hash w.server uid req d).0 }
  act w (sweeps now) = record w { server = sweep_tick w.server now }

  unfoldable pub run : World → List Event → World
  run w [] = w
  run w (e ∷ es) = run (act w e) es

-- A daemon that nobody has connected to.
unfoldable pub start : ServerState → World
start st = record { server = st; peers = empty }
