-- ===== src/Client/Reconnect/Connecting.antt =====
-- How often and how long connect_cmd of src/bin/neosh.rs tries.
use neosh.Client.Bootstrap.{BootstrapPayload}
use neosh.Prelude.{
  ◌==◌, Result, err, Duration, ℕ, suc, ◌+◌, ◌≤◌, ◌≡◌, refl, ◌≢◌, Bool, false, List, ◌∷◌, arith,
}
use neosh.Client.Reconnect.{
  CliError, auth_failed, Attempt, Effect, sleeps, ssh_bootstrap_with_retry, doubled,
  resume_with_backoff, Next, gives, retries, hands_over, after_connect, connect_round, connect_loop,
  connect_cmd,
}
use neosh.Client.Reconnect.Bounds.{
  time_slept, sessions, time_slept-append, sessions-append, resume_with_backoff-Within,
}

-- At most the time `t` slept and `n` sessions.
abbrev pub AtMost : Duration → ℕ → List Effect × Result CliError (Unit {0}) → Type 0
AtMost t n r = (time_slept r.0 ≤ t) × (sessions r.0 ≤ n)

connect_round-once :
    (a : Attempt) (first tty : Bool) (p : Result CliError BootstrapPayload)
    → AtMost 0 1 ((connect_round a first tty p).0, err auth_failed)
unfolding connect_round
connect_round-once a first tty p = ground arith

connect_round-last :
    (a : Attempt) (tty : Bool) (p : Result CliError BootstrapPayload)
    → (connect_round a false tty p).1 ≢ retries
unfolding connect_round after_connect
connect_round-last a tty p h = ground arith

module _ (rounds later : ℕ → Attempt) (tty : Bool) (left k : ℕ) (b : Duration) where
  abbrev round : List Effect × Next
  round = connect_round (rounds k) (k == 0) tty (ssh_bootstrap_with_retry (rounds k))

  abbrev again : List Effect × Result CliError (Unit {0})
  again = connect_loop rounds later tty left (k + 1) (doubled b)

  -- A round that goes on to another one adds its session and its sleep.
  connect_loop-step :
      (next : Next)
      → round.1 ≡ next
      → (next ≡ retries → AtMost 300000000 4 again)
      → AtMost (b + 300000000) 5 (connect_loop rounds later tty (suc left) k b)
  unfolding connect_loop
  connect_loop-step (gives x) e w =
      let once = connect_round-once (rounds k) (k == 0) tty (ssh_bootstrap_with_retry (rounds k)) in
      rw (e, connect_loop) (ground (arith, once), ground (arith, once))
  connect_loop-step retries e w =
      let once = connect_round-once (rounds k) (k == 0) tty (ssh_bootstrap_with_retry (rounds k)) in
      let rest = w refl in
      rw (e, connect_loop)
        (
          ground (arith, once, rest, time_slept-append round.0 (sleeps b ∷ again.0)),
          ground (arith, once, rest, sessions-append round.0 (sleeps b ∷ again.0)),
        )
  connect_loop-step (hands_over s) e w =
      let once = connect_round-once (rounds k) (k == 0) tty (ssh_bootstrap_with_retry (rounds k)) in
      let rest = resume_with_backoff-Within later s in
      rw (e, connect_loop)
        (
          ground (arith, once, rest.0, time_slept-append round.0 (resume_with_backoff later s).0),
          ground (arith, once, rest.1, sessions-append round.0 (resume_with_backoff later s).0),
        )

  -- A round that does not go on to another one leads to three more sessions at most.
  connect_loop-ends :
      (next : Next)
      → round.1 ≡ next
      → next ≢ retries
      → AtMost 300000000 4 (connect_loop rounds later tty (suc left) k b)
  unfolding connect_loop
  connect_loop-ends (gives x) e n =
      let once = connect_round-once (rounds k) (k == 0) tty (ssh_bootstrap_with_retry (rounds k)) in
      rw (e, connect_loop) (ground (arith, once), ground (arith, once))
  connect_loop-ends retries e n = absurd (n refl)
  connect_loop-ends (hands_over s) e n =
      let once = connect_round-once (rounds k) (k == 0) tty (ssh_bootstrap_with_retry (rounds k)) in
      let rest = resume_with_backoff-Within later s in
      rw (e, connect_loop)
        (
          ground (arith, once, rest.0, time_slept-append round.0 (resume_with_backoff later s).0),
          ground (arith, once, rest.1, sessions-append round.0 (resume_with_backoff later s).0),
        )

-- Whatever the rounds meet, connect_cmd runs five sessions and sleeps 400 milliseconds at most, the
-- resumption that it may end in included.
pub connect_cmd-AtMost :
    (rounds later : ℕ → Attempt) (tty : Bool) → AtMost 400000000 5 (connect_cmd rounds later tty)
unfolding connect_cmd
connect_cmd-AtMost rounds later tty = connect_loop-step rounds later tty 1 0 100000000 _ refl λ _.
    connect_loop-ends rounds later tty 0 1 200000000 _ refl
      (connect_round-last (rounds 1) tty (ssh_bootstrap_with_retry (rounds 1)))
