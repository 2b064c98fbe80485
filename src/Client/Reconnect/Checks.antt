-- ===== src/Client/Reconnect/Checks.antt =====
-- What resume_with_backoff of src/bin/neosh.rs checks before a session runs.
use neosh.Client.Bootstrap.{BootstrapPayload}
use neosh.Prelude.{
  ltb, Bool-cases, Option-cases, Result, ok, err, Text, text_eq, text_eq_iff, Uuid, Duration, ℕ,
  zero, suc, ◌+◌, ◌<◌, ◌≡◌, refl, inl, inr, Bool, true, false, List, [], ◌∷◌, ◌++◌, arith,
}
use neosh.Client.Reconnect.{
  CliError, SessionCacheEntry, resume, Attempt, Effect, deletes, puts, runs, sleeps,
  resume_entry_expired, validate_renew_payload, updates, resume_saved, resume_validated,
  resume_bootstrapped, resume_cached, resume_round, doubled, resume_loop, resume_with_backoff,
}

-- An effect on the cache or the clock; or a session that runs with the fingerprint and the token
-- that the cache holds in some round, not expired then, and the id that was asked for.
pub data Checked (answers : ℕ → Attempt) (session_id : Uuid) : Effect → Type 0 where
  forgotten : Checked answers session_id (deletes session_id)
  saved : {e : SessionCacheEntry} → Checked answers session_id (puts e)
  slept : {d : Duration} → Checked answers session_id (sleeps d)
  checked :
      (n : ℕ) (cached : SessionCacheEntry) {p : BootstrapPayload}
      → (answers n).get ≡ ok cached
      → (answers n).now < cached.resume_token_expires_at
      → p.session_id ≡ session_id
      → p.cert_fingerprint ≡ cached.cert_fingerprint
      → Checked answers session_id (runs p (resume session_id cached.resume_token))

abbrev pub AllChecked : (ℕ → Attempt) → Uuid → List Effect → Type 0
AllChecked answers session_id [] = Unit {0}
AllChecked answers session_id (e ∷ es) =
    Checked answers session_id e × AllChecked answers session_id es

AllChecked-append :
    (answers : ℕ → Attempt) (sid : Uuid) (xs ys : List Effect)
    → AllChecked answers sid xs
    → AllChecked answers sid ys
    → AllChecked answers sid (xs ++ ys)
AllChecked-append answers sid [] ys h k = k
AllChecked-append answers sid (x ∷ xs) ys h k = (h.0, AllChecked-append answers sid xs ys h.1 k)

updates-AllChecked :
    (answers : ℕ → Attempt) (sid : Uuid) (a : Attempt) (cached : SessionCacheEntry)
    (payload : BootstrapPayload)
    → AllChecked answers sid (updates a cached payload)
updates-AllChecked answers sid a cached payload =
    elim (Bool-cases (text_eq payload.quic_addr cached.quic_addr)) [
      | inl e ↦ rw (e, AllChecked) tt
      | inr e ↦ rw (e, AllChecked) (saved, tt)
    ]

module _ (answers : ℕ → Attempt) (sid n : ℕ) (again : Bool) (cached : SessionCacheEntry)
    (g : (answers n).get ≡ ok cached)
    (x : resume_entry_expired cached (answers n).now ≡ false) where
  resume_saved-AllChecked :
      (p : BootstrapPayload) (r : Result Text (Unit {0}))
      → p.session_id ≡ sid
      → p.cert_fingerprint ≡ cached.cert_fingerprint
      → AllChecked answers sid (resume_saved (answers n) sid again cached p r).0
  unfolding resume_saved
  resume_saved-AllChecked p (err e) i f = updates-AllChecked answers sid (answers n) cached p
  resume_saved-AllChecked p (ok _) i f =
      AllChecked-append answers sid (updates (answers n) cached p)
        (runs p (resume sid cached.resume_token) ∷ [])
        (updates-AllChecked answers sid (answers n) cached p)
        (checked n cached g (ground (arith, x)) i f, tt)

  resume_validated-AllChecked :
      (p : BootstrapPayload) (r : Result CliError (Unit {0})) (same : Bool)
      → validate_renew_payload sid p ≡ r
      → text_eq p.cert_fingerprint cached.cert_fingerprint ≡ same
      → AllChecked answers sid (resume_validated (answers n) sid again cached p r same).0
  unfolding resume_validated validate_renew_payload
  resume_validated-AllChecked p (err e) same v f = tt
  resume_validated-AllChecked p (ok u) false v f = tt
  resume_validated-AllChecked p (ok u) true v f =
      resume_saved-AllChecked p _ (ground (arith, v))
        ((text_eq_iff p.cert_fingerprint cached.cert_fingerprint).0 f)

  resume_bootstrapped-AllChecked :
      (r : Result CliError BootstrapPayload)
      → AllChecked answers sid (resume_bootstrapped (answers n) sid again cached r).0
  unfolding resume_bootstrapped
  resume_bootstrapped-AllChecked (err e) = tt
  resume_bootstrapped-AllChecked (ok p) =
      resume_validated-AllChecked p (validate_renew_payload sid p)
        (text_eq p.cert_fingerprint cached.cert_fingerprint) refl refl

resume_cached-AllChecked :
    (answers : ℕ → Attempt) (sid n : ℕ) (again : Bool) (r : Result Text SessionCacheEntry)
    → (answers n).get ≡ r
    → AllChecked answers sid (resume_cached (answers n) sid again r).0
unfolding resume_cached
resume_cached-AllChecked answers sid n again (err e) g = tt
resume_cached-AllChecked answers sid n again (ok cached) g =
    elim (Bool-cases (resume_entry_expired cached (answers n).now)) [
      | inl x ↦ rw (x, AllChecked) (forgotten, tt)
      | inr x ↦ rw (x, AllChecked) (resume_bootstrapped-AllChecked answers sid n again cached g x _)
    ]

resume_loop-AllChecked :
    (answers : ℕ → Attempt) (sid left attempt : ℕ) (backoff : Duration)
    → AllChecked answers sid (resume_loop answers sid left attempt backoff).0
unfolding resume_loop resume_round
resume_loop-AllChecked answers sid zero attempt backoff = tt
resume_loop-AllChecked answers sid (suc left) attempt backoff =
    let again = ltb attempt 2 in
    let first = resume_cached-AllChecked answers sid attempt again (answers attempt).get refl in
    let rest = resume_loop-AllChecked answers sid left (attempt + 1) (doubled backoff) in
    elim (Option-cases (resume_round (answers attempt) sid again).1) [
      | inr (r, e) ↦ rw (e, AllChecked) first
      | inl e ↦ rw (e, AllChecked) (AllChecked-append answers sid _ _ first (slept, rest))
    ]

-- Whatever the rounds meet, every session that resume_with_backoff runs is for the id that was asked
-- for, with a daemon whose fingerprint is the one in the cache, and with a resume token from the
-- cache that had not expired.
pub resume_with_backoff-AllChecked :
    (answers : ℕ → Attempt) (sid : Uuid)
    → AllChecked answers sid (resume_with_backoff answers sid).0
unfolding resume_with_backoff
resume_with_backoff-AllChecked answers sid = resume_loop-AllChecked answers sid 3 0 100000000
