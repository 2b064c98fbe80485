-- ===== src/Link/Streams.antt =====
-- The data streams between src/bin/neosh.rs and src/bin/neoshd.rs. A stream is not this repository's code: what
-- was written is read in order, cut into chunks anyhow.
use neosh.Prelude.{concat, length, Bytes, ◌≤◌, ◌≡◌, ap, ◌∙◌, false, List, ◌++◌, map}
use neosh.Server.State.{ServerState}
use neosh.Server.Output.{Read, reader_thread, forward_output}
use neosh.Server.Output.Forwarding.{keeping_up, output, forward_output-output}
use neosh.Server.Input.{forward_input, all_taken, forward_input-all_taken, Forwarded}
use neosh.Client.Stdin.{forward, normalize_stdin_byte}
use neosh.Client.Stdin.Hotkey.{has_hotkey_after, forward-concat}
use neosh.Client.Screen.{Shown, show_output, arriving, signal_at_end, show_output-arriving}

-- What is typed without the hotkey reaches the remote terminal whole and in order, with backspaces
-- normalised, however it is cut into chunks at the client and on the way, if both ends take every
-- chunk.
pub typed_bytes_arrive :
    (chunks cut : List Bytes)
    → has_hotkey_after false (concat chunks) ≡ false
    → concat cut ≡ (forward false chunks).1
    → (forward_input (all_taken cut)).typed ≡ map normalize_stdin_byte (concat chunks)
typed_bytes_arrive chunks cut h e =
    ap (λ (f : Forwarded). f.typed) (forward_input-all_taken cut)
    ∙ (e ∙ (forward-concat chunks false).1 h)

-- A connection that keeps up and whose streams and terminal take every chunk shows the user what its
-- STDOUT stream began with, and then all that was read from the remote terminal, in order, however
-- it is cut on the way; and the session is told of the end of the stream exactly when the remote
-- terminal has exited.
pub output_reaches_user :
    {Value : Type 0} (st : ServerState) (reads : List Read) (first : Bytes) (cut : List Bytes)
    → length st.replay ≤ st.replay_cap
    → concat cut ≡ first ++ (forward_output st (keeping_up (reader_thread reads).0)).stdout
    → let f = forward_output st (keeping_up (reader_thread reads).0) in
      let s = show_output {Value = Value} (arriving cut f.finished) in
      (s.screen ≡ first ++ concat (output reads))
      × (s.signal ≡ signal_at_end (reader_thread reads).1)
output_reaches_user {Value = Value} st reads first cut h e =
    let f = forward_output st (keeping_up (reader_thread reads).0) in
    let o = forward_output-output st reads h in
    let shown = show_output-arriving {Value = Value} cut f.finished in
    (
      ap (λ (s : Shown Value). s.screen) shown ∙ (e ∙ ap (λ t. first ++ t) o.0),
      ap (λ (s : Shown Value). s.signal) shown ∙ ap signal_at_end o.1,
    )
