-- ===== src/Server/World/Accepting.antt =====
-- `run_quic_accept_loop` of src/bin/neoshd.rs, among the other tasks of the daemon.
use neosh.Server.World.Ownership.{act-IsOk, run-IsOk, start-IsOk}
use neosh.Server.World.Invariant.{IsOk}
use neosh.Server.State.{
  new, NewArgs, ServerState, AcceptLoopStopReason, endpoint_closed, current, server_stop_reason,
  expire_if_initial_attach_timeout, expire_if_detached_timeout,
}
use neosh.Server.World
use neosh.Prelude.{
  Option-cases, is_some, Text, Uuid, SystemTime, ℕ, ◌≡◌, refl, sym, ap, ◌∙◌, ◌⊎◌, inl, inr, true,
  Option, none, some, List, [], ◌∷◌, ◌++◌, arith,
}
use neosh.Session.Manager.{is_over, Session}
use neosh.Session.Manager
use neosh.Server.State.Soundness.{IsSound}
use neosh.Server.Wire.{Json}
use neosh.Server.Loops.{accept_checks}
use neosh.Server.World.{
  Phase, reading, cleaning, ended, aborted, Peer, World, Event, opens, receives, hangs_up,
  cleans_up, shell_exits, outputs, checks, renews, sweeps, next_phase, set_peer, after_message,
  on_open, on_receive, on_hang_up, on_clean_up, act, run,
}

-- What `endpoint.accept()` brings within a second: a connection, under the id that its task draws if its
-- handshake completes, or the end of the endpoint, or nothing.
pub data Incoming : Type 0 where
  arrives : Option Uuid → Incoming
  closed timed_out : Incoming

-- One round: what the other tasks do before it takes the lock, the two readings of the clock, and
-- what arrives.
pub record Round : Type 0 where
  pub meanwhile : List Event
  pub now : SystemTime
  pub later : SystemTime
  pub incoming : Incoming

-- The session is over: it has expired or was terminated.
abbrev pub IsOver : Option Session → Type 0
IsOver none = ⊥
IsOver (some s) = is_over s.state ≡ true

-- Why a round stops, in the daemon that it leaves.
abbrev pub StopsWell : World × Option AcceptLoopStopReason → Type 0
StopsWell (w, none) = Unit {0}
StopsWell (w, some reason) = (reason ≡ endpoint_closed) ⊎ IsOver (current w.server)

module _ (json : Json) (hash : Text → ℕ) where
  abbrev pub let_in : World → Option Uuid → World
  let_in w none = w
  let_in w (some c) = act json hash w (opens c)

  -- A round whose checks let the loop go on: whether it stops, and the daemon after it.
  abbrev pub after_accept : World → Incoming → World × Option AcceptLoopStopReason
  after_accept w (arrives c) = (let_in w c, none)
  after_accept w closed = (w, some endpoint_closed)
  after_accept w timed_out = (w, none)

  abbrev pub after_checks :
      World → Incoming → Option AcceptLoopStopReason → World × Option AcceptLoopStopReason
  after_checks w incoming (some reason) = (w, some reason)
  after_checks w incoming none = after_accept w incoming

  unfoldable pub round : World → Round → World × Option AcceptLoopStopReason
  unfolding run act accept_checks
  round w r =
      let w' = run json hash w r.meanwhile in
      after_checks (act json hash w' (checks r.now r.later)) r.incoming
        (accept_checks w'.server r.now r.later).1

  -- The loop, over the rounds so far.
  unfoldable pub accept_loop : World → List Round → World × Option AcceptLoopStopReason
  unfolding round
  accept_loop w [] = (w, none)
  accept_loop w (r ∷ rs) = elim (round w r).1 [
    | some reason ↦ round w r
    | none ↦ accept_loop (round w r).0 rs
  ]

  accept_checks-IsOver :
      (st : ServerState) (now later : SystemTime) (reason : AcceptLoopStopReason)
      → IsSound st
      → (accept_checks st now later).1 ≡ some reason
      → IsOver (current (accept_checks st now later).0)
  unfolding accept_checks server_stop_reason expire_if_initial_attach_timeout
      expire_if_detached_timeout Manager.expire
  accept_checks-IsOver st now later reason v h = ground (arith, h)

  accept_checks_over :
      (st : ServerState) (now later : SystemTime)
      → IsOver (current st)
      → is_some (accept_checks st now later).1 ≡ true
  unfolding accept_checks server_stop_reason expire_if_initial_attach_timeout
      expire_if_detached_timeout Manager.expire
  accept_checks_over st now later h = ground (arith, h)

  after_checks-stops :
      (w : World) (incoming : Incoming) (o : Option AcceptLoopStopReason)
      → is_some o ≡ true
      → is_some (after_checks w incoming o).1 ≡ true
  after_checks-stops w incoming none h = absurd (cc)
  after_checks-stops w incoming (some reason) h = refl

  round-stops :
      (w : World) (r : Round)
      → IsOver (current (run json hash w r.meanwhile).server)
      → is_some (round w r).1 ≡ true
  unfolding round
  round-stops w r h =
      after_checks-stops _ r.incoming _
        (accept_checks_over (run json hash w r.meanwhile).server r.now r.later h)

  abbrev Leaves : World × Option AcceptLoopStopReason → Type 0
  Leaves p = IsOk p.0 × StopsWell p

  after_accept-Leaves :
      (w : World) (incoming : Incoming) → IsOk w → Leaves (after_accept w incoming)
  after_accept-Leaves w (arrives none) h = (h, tt)
  after_accept-Leaves w (arrives (some c)) h = (act-IsOk json hash w (opens c) h, tt)
  after_accept-Leaves w closed h = (h, inl refl)
  after_accept-Leaves w timed_out h = (h, tt)

  after_checks-Leaves :
      (w : World) (incoming : Incoming) (o : Option AcceptLoopStopReason)
      → IsOk w
      → ((reason : AcceptLoopStopReason) → o ≡ some reason → IsOver (current w.server))
      → Leaves (after_checks w incoming o)
  after_checks-Leaves w incoming none h over = after_accept-Leaves w incoming h
  after_checks-Leaves w incoming (some reason) h over = (h, inr (over reason refl))

  round-Leaves : (w : World) (r : Round) → IsOk w → Leaves (round w r)
  unfolding round act
  round-Leaves w r h =
      let h' = run-IsOk json hash w r.meanwhile h in
      after_checks-Leaves _ r.incoming _ (act-IsOk json hash _ (checks r.now r.later) h')
        (λ reason e. accept_checks-IsOver _ r.now r.later reason h'.sound e)

  accept_loop-Leaves : (w : World) (rs : List Round) → IsOk w → Leaves (accept_loop w rs)
  unfolding accept_loop
  accept_loop-Leaves w [] h = (h, tt)
  accept_loop-Leaves w (r ∷ rs) h = elim (Option-cases (round w r).1) [
    | inl e ↦ rw (e, accept_loop) (accept_loop-Leaves (round w r).0 rs (round-Leaves w r h).0)
    | inr (reason, e) ↦ rw (e, accept_loop) (round-Leaves w r h)
  ]

  accept_loop-goes_on :
      (w : World) (r : Round) (rs : List Round)
      → (round w r).1 ≡ none
      → accept_loop w (r ∷ rs) ≡ accept_loop (round w r).0 rs
  unfolding accept_loop
  accept_loop-goes_on w r rs e = rw (e, accept_loop) refl

  accept_loop-stops :
      (w : World) (r : Round) (rs : List Round) (reason : AcceptLoopStopReason)
      → (round w r).1 ≡ some reason
      → accept_loop w (r ∷ rs) ≡ round w r
  unfolding accept_loop
  accept_loop-stops w r rs reason e = rw (e, accept_loop) refl

  accept_loop-last : (w : World) (r : Round) → (accept_loop w (r ∷ [])).1 ≡ (round w r).1
  unfolding accept_loop
  accept_loop-last w r = elim (Option-cases (round w r).1) [
    | inl e ↦
        ap (λ (p : World × Option AcceptLoopStopReason). p.1) (accept_loop-goes_on w r [] e) ∙ sym e
    | inr (reason, e) ↦
        ap (λ (p : World × Option AcceptLoopStopReason). p.1) (accept_loop-stops w r [] reason e)
  ]

  accept_loop-append :
      (w : World) (rs : List Round) (r : Round)
      → (accept_loop w rs).1 ≡ none
      → (accept_loop w (rs ++ r ∷ [])).1 ≡ (round (accept_loop w rs).0 r).1
  accept_loop-append w [] r h = unfold accept_loop in accept_loop-last w r
  accept_loop-append w (q ∷ rs) r h = elim (Option-cases (round w q).1) [
    | inl e ↦
        rw (accept_loop-goes_on w q rs e, accept_loop-goes_on w q (rs ++ r ∷ []) e)
          (accept_loop-append (round w q).0 rs r (rw (← accept_loop-goes_on w q rs e) h))
    | inr (reason, e) ↦ absurd (
        none_some reason (
          sym h
          ∙ (ap (λ (p : World × Option AcceptLoopStopReason). p.1)
                (accept_loop-stops w q rs reason e)
              ∙ e)))
  ]
    where
      none_some : (reason : AcceptLoopStopReason) → ¬ (none ≡ some reason)
      none_some reason = λ e. cc

-- Over every interleaving with the other tasks of a daemon that has started: if the accept loop stops,
-- the endpoint was closed or the session is over, expired or terminated.
pub accept_loop-StopsWell :
    (json : Json) (hash : Text → ℕ) (now : SystemTime) (sid : Uuid) (owner : Text) (uid : ℕ)
    (addr fp : Text) (cfg : NewArgs) (rs : List Round)
    → StopsWell (accept_loop json hash (World.start (new now sid owner uid addr fp cfg)) rs)
accept_loop-StopsWell json hash now sid owner uid addr fp cfg rs =
    (accept_loop-Leaves json hash _ rs (start-IsOk now sid owner uid addr fp cfg)).1

-- If the accept loop has not stopped after some rounds, and the session is expired or terminated when
-- the next round takes the lock, then that round stops it.
pub accept_loop-ends :
    (json : Json) (hash : Text → ℕ) (w : World) (rs : List Round) (r : Round)
    → (accept_loop json hash w rs).1 ≡ none
    → IsOver (current (run json hash (accept_loop json hash w rs).0 r.meanwhile).server)
    → is_some (accept_loop json hash w (rs ++ r ∷ [])).1 ≡ true
accept_loop-ends json hash w rs r h over =
    rw (accept_loop-append json hash w rs r h)
      (round-stops json hash (accept_loop json hash w rs).0 r over)
