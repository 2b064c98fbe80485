-- ===== src/Client/State.antt =====
-- src/client/state.rs: the client's view of its connection.
use neosh.Prelude.{
  length, Result, ok, err, ◌>>=◌, Result-cases, ℕ, ◌+◌, ◌≤◌, ◌<◌, ◌≡◌, ◌≢◌, ◌⊎◌, inl, inr, List, [],
  ◌∷◌, arith,
}

pub data ClientState : Type 0 where
  init connected hello_done authenticated attached detached closed : ClientState

pub data ClientEvent : Type 0 where
  quic_connected hello_ack auth_ok attach_ok resume_ok detaches closes fails : ClientEvent

pub data StateError : Type 0 where
  invalid_transition : StateError

unfoldable pub transition : ClientState → ClientEvent → Result StateError ClientState
transition init quic_connected = ok connected
transition connected hello_ack = ok hello_done
transition hello_done auth_ok = ok authenticated
transition authenticated attach_ok = ok attached
transition authenticated resume_ok = ok attached
transition attached detaches = ok detached
transition attached closes = ok closed
transition detached closes = ok closed
transition _ fails = ok closed
transition _ _ = err invalid_transition

-- The state after a list of events, up to the first that is refused.
unfoldable pub run : ClientState → List ClientEvent → Result StateError ClientState
run s [] = ok s
run s (e ∷ es) = let rest = λ (t : ClientState). run t es in transition s e >>= rest

-- How far a state is from the start.
abbrev pub rank : ClientState → ℕ
rank init = 0
rank connected = 1
rank hello_done = 2
rank authenticated = 3
rank attached = 4
rank detached = 5
rank closed = 6

transition-rank :
    (s t : ClientState) (e : ClientEvent)
    → transition s e ≡ ok t
    → (rank s < rank t) ⊎ ((s ≡ closed) × (t ≡ closed))
unfolding transition
transition-rank s t e h = ground arith

-- Error events aside, no event moves the client backwards: a run that is accepted and ends before
-- `closed` is no longer than the way from its start to its end.
pub run-rank :
    (s t : ClientState) (es : List ClientEvent)
    → run s es ≡ ok t
    → t ≢ closed
    → rank s + length es ≤ rank t
unfolding run
run-rank s t [] h n = ground (arith, h)
run-rank s t (e ∷ es) h n = elim (Result-cases (transition s e)) [
  | inr (x, q) ↦ ground (arith, q, h)
  | inl (u, q) ↦
      let later = run-rank u t es (rw (q, run) at h) n in
      ground (arith, later, transition-rank s u e q)
]
