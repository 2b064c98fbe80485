-- ===== src/Server/Terminal.antt =====
-- The terminal of the session in src/bin/neoshd.rs: when it is spawned, and what a new data plane
-- takes from it. The reader thread and the forwarding tasks are events of `Server.World`.
use neosh.Prelude.{
  if◌then◌else◌, is_empty, Result, ok, ◌>>=◌, ◌>>◌, ok_or, map_err, Text, Bytes, codes, trim, Bool,
  false, Option, none, some, [], ◌∷◌, ◌++◌,
}
use neosh.Terminal.Pty.{System, spawn, take_reader}
use neosh.Terminal.Pty
use neosh.Server.Errors.{NeoshdError, protocol, internal}
use neosh.Server.State.{ServerState}

-- `env::var("SHELL")` is an argument.
unfoldable pub resolve_login_shell : Option Text → Text
resolve_login_shell none = codes "sh"
resolve_login_shell (some v) = if is_empty (trim v) then codes "sh" else v

-- Spawns the terminal of a session that has none; its reader feeds the output channel.
unfoldable pub ensure_pty_runtime :
    System → Option Text → ServerState → Result NeoshdError ServerState
unfolding resolve_login_shell
ensure_pty_runtime sys shell_variable st = elim st.pty [
  | some pty ↦ ok st
  | none ↦ do
    pty ←
        map_err (λ e. internal (Pty.to_string e))
          (spawn sys 24 80 (resolve_login_shell shell_variable) st.working_directory
            st.startup_command)
    let taken = take_reader pty
    reader ← map_err (λ e. internal (Pty.to_string e)) taken.1
    ok (record st {
      pty_writer = some pty.writer;
      output_tx = some reader;
      pty = some taken.0;
      pty_exited = false;
    })
]

-- What the QUIC library answers when the data plane starts.
pub record Streams : Type 0 where
  pub open_uni : Result Text (Unit {0})
  pub write_replay : Bytes → Result Text (Unit {0})

unfoldable pub send_replay : Streams → Bytes → Result NeoshdError Bytes
send_replay streams [] = ok []
send_replay streams (b ∷ bs) = do
  map_err (λ e. internal (codes "write replay failed: " ++ e)) (streams.write_replay (b ∷ bs))
  ok (b ∷ bs)

-- The bytes that the new STDOUT stream begins with: the replay buffer on a resume.
unfoldable pub start_data_plane : Streams → ServerState → Bool → Result NeoshdError Bytes
unfolding send_replay
start_data_plane streams st resume = do
  map_err (λ e. protocol (codes "open STDOUT stream failed: " ++ e)) streams.open_uni
  writer ← ok_or st.pty_writer (internal (codes "PTY writer missing"))
  tx ← ok_or st.output_tx (internal (codes "PTY output channel missing"))
  let replay = if resume then st.replay else []
  send_replay streams replay
