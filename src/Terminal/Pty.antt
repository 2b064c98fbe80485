-- ===== src/Terminal/Pty.antt =====
-- src/terminal/pty.rs. The pseudo-terminal and the child process are `portable_pty`'s: what its
-- calls answer is an argument, and a handle that it gives is a number.
use neosh.Prelude.{
  ◌>>◌, Result, ok, ◌>>=◌, ok_or, map_err, Text, codes, ℕ, Option, none, some, List, [], ◌∷◌, ◌++◌,
}
use neosh.Terminal.Quote.{shell_single_quote}

pub data PtyError : Type 0 where
  open_failed spawn_failed read_failed write_failed resize_failed wait_failed : Text → PtyError
  reader_taken : PtyError

-- The `#[error(…)]` texts.
unfoldable pub to_string : PtyError → Text
to_string (open_failed e) = codes "open pty failed: " ++ e
to_string (spawn_failed e) = codes "spawn command failed: " ++ e
to_string (read_failed e) = codes "read output failed: " ++ e
to_string (write_failed e) = codes "write input failed: " ++ e
to_string (resize_failed e) = codes "resize failed: " ++ e
to_string (wait_failed e) = codes "wait command failed: " ++ e
to_string reader_taken = codes "pty reader already taken"

pub record LivePty : Type 0 where
  pub master : ℕ
  pub writer : ℕ
  pub reader : Option ℕ
  pub child : ℕ

pub record PtySize : Type 0 where
  pub rows : ℕ
  pub cols : ℕ
  pub pixel_width : ℕ
  pub pixel_height : ℕ

-- A `CommandBuilder`: what it runs, where, with what arguments, and the variable TERM if it is set.
pub record Command : Type 0 where
  pub program : Text
  pub cwd : Option Text
  pub args : List Text
  pub term : Option Text

-- What `portable_pty` answers: a handle, or the text of its error.
pub record System : Type 0 where
  pub openpty : PtySize → Result Text ℕ
  pub spawn_command : ℕ → Command → Result Text ℕ
  pub take_writer : ℕ → Result Text ℕ
  pub try_clone_reader : ℕ → Result Text ℕ
  pub resize_master : ℕ → PtySize → Result Text (Unit {0})
  pub wait_child : ℕ → Result Text (Unit {0})
  pub term_variable : Option Text

abbrev pub size_of : ℕ → ℕ → PtySize
size_of rows cols = record { rows = rows; cols = cols; pixel_width = 0; pixel_height = 0 }

-- `unwrap_or`.
abbrev pub unwrap_or {ℓ} : {A : Type ℓ} → Option A → A → A
unwrap_or none d = d
unwrap_or (some a) d = a

unfoldable pub shell_args : Text → Option Text → List Text
unfolding shell_single_quote
shell_args shell none = codes "-li" ∷ []
shell_args shell (some command) =
    codes "-lc" ∷ (command ++ (codes "; exec " ++ (shell_single_quote shell ++ codes " -li"))) ∷ []

unfoldable pub shell_command : Option Text → Text → Option Text → Option Text → Command
unfolding shell_args
shell_command term_variable shell working_directory startup_command = record {
  program = shell;
  cwd = working_directory;
  args = shell_args shell startup_command;
  term = some (unwrap_or term_variable (codes "xterm-256color"));
}

unfoldable pub spawn : System → ℕ → ℕ → Text → Option Text → Option Text → Result PtyError LivePty
unfolding shell_command
spawn sys rows cols shell working_directory startup_command = do
  master ← map_err open_failed (sys.openpty (size_of rows cols))
  child ← map_err spawn_failed (
      sys.spawn_command master
        (shell_command sys.term_variable shell working_directory startup_command))
  writer ← map_err write_failed (sys.take_writer master)
  reader ← map_err read_failed (sys.try_clone_reader master)
  ok (record { master = master; writer = writer; reader = some reader; child = child })

unfoldable pub take_reader : LivePty → LivePty × Result PtyError ℕ
take_reader pty = (record pty { reader = none }, ok_or pty.reader reader_taken)

unfoldable pub resize : System → LivePty → ℕ → ℕ → Result PtyError (Unit {0})
resize sys pty rows cols = map_err resize_failed (sys.resize_master pty.master (size_of rows cols))

unfoldable pub wait : System → LivePty → Result PtyError (Unit {0})
wait sys pty = map_err wait_failed (sys.wait_child pty.child)

-- The helper that captures what a script prints. `read_to_string` is what the library answers for a
-- reader.
pub record PtyRuntime : Type 0 where
  pub rows : ℕ
  pub cols : ℕ

unfoldable pub new : ℕ → ℕ → Result PtyError PtyRuntime
new rows cols = ok (record { rows = rows; cols = cols })

unfoldable pub capture_command : Text → Command
capture_command script = record {
  program = codes "sh";
  cwd = none;
  args = codes "-lc" ∷ script ∷ [];
  term = none;
}

unfoldable pub run_shell_capture :
    System → (ℕ → Result Text Text) → PtyRuntime → Text → Result PtyError Text
unfolding capture_command
run_shell_capture sys read_to_string rt script = do
  master ← map_err open_failed (sys.openpty (size_of rt.rows rt.cols))
  child ← map_err spawn_failed (sys.spawn_command master (capture_command script))
  reader ← map_err read_failed (sys.try_clone_reader master)
  output ← map_err read_failed (read_to_string reader)
  map_err wait_failed (sys.wait_child child)
  ok output
