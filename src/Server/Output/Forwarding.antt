-- ===== src/Server/Output/Forwarding.antt =====
-- src/bin/neoshd.rs: what a connection is given of the terminal's output.
use neosh.Prelude.{
  concat, length, Bytes, ◌≤◌, ◌≡◌, refl, sym, ap, subst, ◌∙◌, true, List, [], ◌∷◌, ◌++◌,
}
use neosh.Server.State.{ServerState, append_replay}
use neosh.Server.State.Replay.{last, append_all, append_all-last}
use neosh.Server.Output.{
  Read, got, failed, reader_thread, Receive, received, Forwarded, forward_output,
}

-- A receiver that never falls behind, with a stream that takes every chunk.
abbrev pub keeping_up : List Bytes → List Receive
keeping_up [] = []
keeping_up (c ∷ cs) = received c true ∷ keeping_up cs

-- The output so far: the bytes that were read before the first read that has none.
unfoldable pub output : List Read → List Bytes
output [] = []
output (failed ∷ rs) = []
output (got [] ∷ rs) = []
output (got (b ∷ bs) ∷ rs) = (b ∷ bs) ∷ output rs

forward_output-reader_thread :
    (st : ServerState) (rs : List Read)
    → forward_output st (keeping_up (reader_thread rs).0) ≡ record {
      server = append_all st (output rs);
      stdout = concat (output rs);
      finished = (reader_thread rs).1;
    }
unfolding forward_output reader_thread output append_all
forward_output-reader_thread st [] = refl
forward_output-reader_thread st (failed ∷ rs) = refl
forward_output-reader_thread st (got [] ∷ rs) = refl
forward_output-reader_thread st (got (b ∷ bs) ∷ rs) =
    rw (forward_output-reader_thread (append_replay st (b ∷ bs)) rs) refl

-- A connection that keeps up: it is written all that was read from the terminal, in order; its STDOUT
-- is finished if and only if the terminal has exited; and a replay buffer that was within its capacity
-- holds the last bytes of what it held and of that output, within its capacity.
pub forward_output-output :
    (st : ServerState) (rs : List Read)
    → length st.replay ≤ st.replay_cap
    → let f = forward_output st (keeping_up (reader_thread rs).0) in
      (f.stdout ≡ concat (output rs))
      × (f.finished ≡ (reader_thread rs).1)
      × (f.server.replay ≡ last st.replay_cap (st.replay ++ concat (output rs)))
      × (length f.server.replay ≤ st.replay_cap)
forward_output-output st rs h =
    let whole = forward_output-reader_thread st rs in
    let kept = append_all-last st (output rs) h in
    (
      ap (λ (f : Forwarded). f.stdout) whole,
      ap (λ (f : Forwarded). f.finished) whole,
      ap (λ (f : Forwarded). f.server.replay) whole ∙ kept.0,
      subst (λ (f : Forwarded). length f.server.replay ≤ st.replay_cap) (sym whole) kept.1,
    )

-- Chunks that are not empty.
abbrev pub Full : List Bytes → Type 0
Full [] = Unit
Full ([] ∷ cs) = ⊥
Full ((b ∷ bs) ∷ cs) = Full cs

abbrev pub followed_by : List Bytes → List Receive → List Receive
followed_by [] rs = rs
followed_by (c ∷ cs) rs = received c true ∷ followed_by cs rs
