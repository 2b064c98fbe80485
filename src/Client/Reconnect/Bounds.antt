-- ===== src/Client/Reconnect/Bounds.antt =====
-- How often and how long connect_cmd and resume_with_backoff of src/bin/neosh.rs try.
use neosh.Prelude.{
  ltb, Option-cases, is_some, Result, Uuid, Duration, ℕ, suc, ◌+◌, ◌≤◌, ◌<◌, ◌≡◌, refl, sym, subst,
  inl, inr, Bool, true, false, none, some, List, [], ◌∷◌, ◌++◌, arith,
}
use neosh.Client.Reconnect.{
  CliError, Attempt, Effect, runs, sleeps, after_resume, resume_saved, resume_validated,
  resume_bootstrapped, resume_cached, resume_round, doubled, resume_loop, resume_with_backoff,
}

-- The time slept, and the number of sessions that run.
abbrev pub time_slept : List Effect → Duration
time_slept [] = 0
time_slept (sleeps d ∷ es) = d + time_slept es
time_slept (_ ∷ es) = time_slept es

abbrev pub sessions : List Effect → ℕ
sessions [] = 0
sessions (runs p m ∷ es) = 1 + sessions es
sessions (_ ∷ es) = sessions es

pub time_slept-append :
    (xs ys : List Effect) → time_slept (xs ++ ys) ≡ time_slept xs + time_slept ys
time_slept-append [] ys = omega arith
time_slept-append (sleeps d ∷ xs) ys = ground (arith, time_slept-append xs ys)
time_slept-append (_ ∷ xs) ys = time_slept-append xs ys

pub sessions-append : (xs ys : List Effect) → sessions (xs ++ ys) ≡ sessions xs + sessions ys
sessions-append [] ys = omega arith
sessions-append (runs p m ∷ xs) ys = ground (arith, sessions-append xs ys)
sessions-append (_ ∷ xs) ys = sessions-append xs ys

-- A round sleeps not at all and runs one session at most.
resume_round-once :
    (a : Attempt) (sid : Uuid) (more : Bool)
    → (time_slept (resume_round a sid more).0 ≡ 0) × (sessions (resume_round a sid more).0 ≤ 1)
unfolding resume_round resume_cached resume_bootstrapped resume_validated resume_saved
resume_round-once a sid more = ground arith

-- The last round always answers.
resume_round-answers : (a : Attempt) (sid : Uuid) → is_some (resume_round a sid false).1 ≡ true
unfolding resume_round resume_cached resume_bootstrapped resume_validated resume_saved after_resume
resume_round-answers a sid = ground arith

resume_loop-stops :
    (rounds : ℕ → Attempt) (sid left k : ℕ) (b : Duration) (x : Result CliError (Unit {0}))
    → (resume_round (rounds k) sid (ltb k 2)).1 ≡ some x
    → resume_loop rounds sid (suc left) k b ≡ ((resume_round (rounds k) sid (ltb k 2)).0, x)
unfolding resume_loop
resume_loop-stops rounds sid left k b x e = rw (e, resume_loop) refl

resume_loop-retries :
    (rounds : ℕ → Attempt) (sid left k : ℕ) (b : Duration)
    → (resume_round (rounds k) sid (ltb k 2)).1 ≡ none
    → resume_loop rounds sid (suc left) k b ≡ (
      (resume_round (rounds k) sid (ltb k 2)).0
          ++ sleeps b ∷ (resume_loop rounds sid left (k + 1) (doubled b)).0,
      (resume_loop rounds sid left (k + 1) (doubled b)).1,
    )
unfolding resume_loop
resume_loop-retries rounds sid left k b e = rw (e, resume_loop) refl

-- At most the time `t` slept and `n` sessions, with the answer of one of three rounds.
abbrev pub Within :
    (ℕ → Attempt) → Uuid → Duration → ℕ → List Effect × Result CliError (Unit {0}) → Type 0
Within rounds sid t n r =
    (time_slept r.0 ≤ t)
    × (sessions r.0 ≤ n)
    × ((k : ℕ) × (k < 3) × ((resume_round (rounds k) sid (ltb k 2)).1 ≡ some r.1))

resume_loop-last :
    (rounds : ℕ → Attempt) (sid : Uuid) (b : Duration)
    → Within rounds sid 0 1 (resume_loop rounds sid 1 2 b)
resume_loop-last rounds sid b = elim (Option-cases (resume_round (rounds 2) sid false).1) [
  | inl e ↦ ground (arith, e, resume_round-answers (rounds 2) sid)
  | inr (x, e) ↦
      let once = resume_round-once (rounds 2) sid false in
      subst (Within rounds sid 0 1) (sym (resume_loop-stops rounds sid 0 2 b x e))
        (ground (arith, once), once.1, (2, omega arith, e))
]

resume_loop-step :
    (rounds : ℕ → Attempt) (sid left k : ℕ) (b t : Duration) (n : ℕ)
    → k < 3
    → Within rounds sid t n (resume_loop rounds sid left (k + 1) (doubled b))
    → Within rounds sid (b + t) (n + 1) (resume_loop rounds sid (suc left) k b)
resume_loop-step rounds sid left k b t n h w =
    let once = resume_round-once (rounds k) sid (ltb k 2) in
    let first = (resume_round (rounds k) sid (ltb k 2)).0 in
    let rest = sleeps b ∷ (resume_loop rounds sid left (k + 1) (doubled b)).0 in
    elim (Option-cases (resume_round (rounds k) sid (ltb k 2)).1) [
      | inl e ↦
          subst (Within rounds sid (b + t) (n + 1))
            (sym (resume_loop-retries rounds sid left k b e))
            (
              ground (arith, once, w.0, time_slept-append first rest),
              ground (arith, once, w.1, sessions-append first rest),
              w.2,
            )
      | inr (x, e) ↦
          subst (Within rounds sid (b + t) (n + 1))
            (sym (resume_loop-stops rounds sid left k b x e))
            (ground (arith, once), ground (arith, once), (k, h, e))
    ]

-- Whatever the rounds meet, resume_with_backoff runs three sessions and sleeps 300 milliseconds at
-- most, and what it returns is the answer of one of its three rounds, so never the error after the
-- loop.
pub resume_with_backoff-Within :
    (rounds : ℕ → Attempt) (sid : Uuid)
    → Within rounds sid 300000000 3 (resume_with_backoff rounds sid)
unfolding resume_with_backoff
resume_with_backoff-Within rounds sid =
    resume_loop-step rounds sid 2 0 100000000 200000000 2 (omega arith) (
      resume_loop-step rounds sid 1 1 200000000 0 1 (omega arith)
        (resume_loop-last rounds sid 400000000))
