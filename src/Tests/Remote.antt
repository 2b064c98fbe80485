-- ===== src/Tests/Remote.antt =====
-- Examples for the remote command and the data streams of src/bin/neosh.rs.
use neosh.Prelude.{
  concat, Text, Bytes, codes, ◌≡◌, refl, ◌↔◌, none, some, List, [], ◌∷◌, ◌++◌, map, arith,
}
use neosh.Server.State.{ServerState, new}
use neosh.Server.Output.{Read, got, failed, reader_thread, forward_output}
use neosh.Server.Output.Forwarding.{keeping_up, output}
use neosh.Server.Input.{forward_input, all_taken}
use neosh.Terminal.Quote.{quoted, read_word}
use neosh.Client.Stdin.{forward, normalize_stdin_byte}
use neosh.Client.Screen.{show_output, arriving, signal_at_end}
use neosh.Client.Remote.{script, shell_double_quote}
use neosh.Client.Remote.Quoting
use neosh.Client.Remote.Quoting.{read_double, read_double-shell_double_quote}
use neosh.Client.Remote.Script.{apostrophes, given, given_file, script-arrives_iff}
use neosh.Link.Streams.{typed_bytes_arrive, output_reaches_user}
use neosh.Tests.Server.{args}

read_double-shell_double_quote_example :
    read_double Quoting.bare (shell_double_quote (codes "a \"$HOME\" `b` \\c"))
    ≡ some (codes "a \"$HOME\" `b` \\c")
read_double-shell_double_quote_example =
    read_double-shell_double_quote (codes "a \"$HOME\" `b` \\c")

script-arrives_iff_example :
    let s = script (some (codes "/tmp")) (some (codes "echo it's")) (codes "neoshd") none in
    (read_word quoted (s ++ codes "'") ≡ some s) ↔ (
      (apostrophes (given_file none) ≡ 0)
      × (apostrophes (codes "neoshd") ≡ 0)
      × (apostrophes (given (some (codes "/tmp"))) ≡ 0)
      × (apostrophes (given (some (codes "echo it's"))) ≡ 0))
script-arrives_iff_example =
    script-arrives_iff (some (codes "/tmp")) (some (codes "echo it's")) (codes "neoshd") none

typed_bytes_arrive_example :
    (forward_input (all_taken (codes "l" ∷ (codes "s" ++ 0x7f ∷ []) ∷ []))).typed
    ≡ map normalize_stdin_byte (concat (codes "ls" ∷ (0x08 ∷ []) ∷ []))
unfolding forward neosh.Client.Stdin.process_stdin_chunk_for_detach neosh.Client.Stdin.scan
    normalize_stdin_byte
typed_bytes_arrive_example =
    typed_bytes_arrive (codes "ls" ∷ (0x08 ∷ []) ∷ []) (codes "l" ∷ (codes "s" ++ 0x7f ∷ []) ∷ [])
      refl refl

abbrev server : ServerState
server = new 100 1 (codes "ann") 1000 (codes "h:1") (codes "SHA256:aa") args

abbrev reads : List Read
reads = got (codes "abc") ∷ got (codes "def") ∷ failed ∷ []

abbrev cut : List Bytes
cut = codes "oldab" ∷ codes "cdef" ∷ []

output_reaches_user_example :
    let f = forward_output server (keeping_up (reader_thread reads).0) in
    let s = show_output {Value = Text} (arriving cut f.finished) in
    (s.screen ≡ codes "old" ++ concat (output reads))
    × (s.signal ≡ signal_at_end (reader_thread reads).1)
unfolding new forward_output reader_thread neosh.Server.State.append_replay
output_reaches_user_example = output_reaches_user server reads (codes "old") cut (omega arith) refl
