-- ===== src/Client/Reconnect.antt =====
-- How the client of src/bin/neosh.rs connects and resumes: connect_cmd, resume_with_backoff and
-- ssh_bootstrap_with_retry. What they meet outside, the files of the cache, the clock, ssh and the
-- session itself (`run_session`), answers through `Attempt`, one for each round of a loop; what they
-- do to it is a list of effects.
pub mod Checks
pub mod Bounds
pub mod Connecting
use neosh.Client.Bootstrap.{BootstrapPayload}
use neosh.Prelude.{
  ltb, leb, ◌==◌, if◌then◌else◌, Result, ok, err, map_err, Text, codes, text_eq, Uuid, Duration, ℕ,
  zero, suc, ◌+◌, ◌-◌, ◌*◌, ◌/◌, ◌^◌, min, Bool, true, false, not, Option, none, some, List, [],
  ◌∷◌, ◌++◌,
}

pub data CliError : Type 0 where
  bootstrap quic protocol cache io : Text → CliError
  auth_failed closed : CliError
  disconnected : Uuid → CliError

pub record SessionCacheEntry : Type 0 where
  pub session_id : Uuid
  pub ssh_target : Text
  pub resume_token : Text
  pub resume_token_expires_at : ℕ
  pub quic_addr : Text
  pub cert_fingerprint : Text
  pub updated_at : ℕ

pub data SessionMode : Type 0 where
  attach : SessionMode
  resume : Uuid → Text → SessionMode

-- What one round meets: the cache's answers to `get` and `put`, the clock at both of its readings,
-- the two tries of ssh, and the result of the session.
pub record Attempt : Type 0 where
  pub get : Result Text SessionCacheEntry
  pub now : ℕ
  pub first_try : Result Text BootstrapPayload
  pub second_try : Result Text BootstrapPayload
  pub updated_now : ℕ
  pub put : Result Text (Unit {0})
  pub session : BootstrapPayload → SessionMode → Result CliError (Unit {0})

pub data Effect : Type 0 where
  deletes : Uuid → Effect
  puts : SessionCacheEntry → Effect
  runs : BootstrapPayload → SessionMode → Effect
  sleeps : Duration → Effect

-- The loop over the two tries.
unfoldable pub ssh_bootstrap_with_retry : Attempt → Result CliError BootstrapPayload
ssh_bootstrap_with_retry a = elim a.first_try [
  | ok p ↦ ok p
  | err _ ↦ map_err bootstrap a.second_try
]

abbrev pub resume_entry_expired : SessionCacheEntry → ℕ → Bool
resume_entry_expired entry now = leb entry.resume_token_expires_at now

unfoldable pub validate_renew_payload : Uuid → BootstrapPayload → Result CliError (Unit {0})
validate_renew_payload expected payload =
    if not (payload.session_id == expected)
    then err (protocol (codes "renew-auth returned mismatched session_id"))
    else ok tt

-- The match on the session's result in a loop: `none` goes round again.
unfoldable pub after_resume :
    Bool → Result CliError (Unit {0}) → Option (Result CliError (Unit {0}))
after_resume again (ok _) = some (ok tt)
after_resume again (err closed) = some (ok tt)
after_resume again (err auth_failed) = if again then none else some (err auth_failed)
after_resume again (err (disconnected s)) = if again then none else some (err (disconnected s))
after_resume again (err e) = some (err e)

abbrev pub updates : Attempt → SessionCacheEntry → BootstrapPayload → List Effect
updates a cached payload =
    if text_eq payload.quic_addr cached.quic_addr
    then []
    else puts (record cached { quic_addr = payload.quic_addr; updated_at = a.updated_now }) ∷ []

-- The round once the cache has answered to the new address: the session runs.
unfoldable pub resume_saved :
    Attempt
    → Uuid
    → Bool
    → SessionCacheEntry
    → BootstrapPayload
    → Result Text (Unit {0})
    → List Effect × Option (Result CliError (Unit {0}))
unfolding after_resume
resume_saved a session_id again cached payload (err e) =
    (updates a cached payload, some (err (cache e)))
resume_saved a session_id again cached payload (ok _) = (
  updates a cached payload ++ runs payload (resume session_id cached.resume_token) ∷ [],
  after_resume again (a.session payload (resume session_id cached.resume_token)),
)

-- The round once the payload was validated and its fingerprint compared with the cache's.
unfoldable pub resume_validated :
    Attempt
    → Uuid
    → Bool
    → SessionCacheEntry
    → BootstrapPayload
    → Result CliError (Unit {0})
    → Bool
    → List Effect × Option (Result CliError (Unit {0}))
unfolding resume_saved
resume_validated a session_id again cached payload (err e) same = ([], some (err e))
resume_validated a session_id again cached payload (ok _) false =
    ([], some (err (protocol (codes "cert_fingerprint changed for existing session_id"))))
resume_validated a session_id again cached payload (ok _) true =
    resume_saved a session_id again cached payload
      (if text_eq payload.quic_addr cached.quic_addr then ok tt else a.put)

-- The round from ssh's answer on.
unfoldable pub resume_bootstrapped :
    Attempt
    → Uuid
    → Bool
    → SessionCacheEntry
    → Result CliError BootstrapPayload
    → List Effect × Option (Result CliError (Unit {0}))
unfolding validate_renew_payload resume_validated
resume_bootstrapped a session_id again cached (err e) = ([], some (err e))
resume_bootstrapped a session_id again cached (ok payload) =
    resume_validated a session_id again cached payload (validate_renew_payload session_id payload)
      (text_eq payload.cert_fingerprint cached.cert_fingerprint)

-- The round from the cache's answer on.
unfoldable pub resume_cached :
    Attempt
    → Uuid
    → Bool
    → Result Text SessionCacheEntry
    → List Effect × Option (Result CliError (Unit {0}))
unfolding resume_bootstrapped ssh_bootstrap_with_retry
resume_cached a session_id again (err e) = ([], some (err (cache e)))
resume_cached a session_id again (ok cached) =
    let rest = resume_bootstrapped a session_id again cached (ssh_bootstrap_with_retry a) in
    if resume_entry_expired cached a.now
    then (
      deletes session_id ∷ [],
      some (err (cache (codes "resume token expired; start a new connect"))),
    )
    else rest

-- A round of resume_with_backoff, up to the sleep.
unfoldable pub resume_round :
    Attempt → Uuid → Bool → List Effect × Option (Result CliError (Unit {0}))
unfolding resume_cached
resume_round a session_id again = resume_cached a session_id again a.get

-- `backoff.saturating_mul(2)`, of a number of nanoseconds.
abbrev pub doubled : Duration → Duration
doubled d = min (d * 2) (2 ^ 64 * 1000000000 - 1)

-- The loop, with `left` rounds to go, the next of them the round `attempt`.
unfoldable pub resume_loop :
    (ℕ → Attempt) → Uuid → ℕ → ℕ → Duration → List Effect × Result CliError (Unit {0})
unfolding resume_round
resume_loop answers session_id zero attempt backoff =
    ([], err (protocol (codes "resume attempts exhausted after connection/auth failures")))
resume_loop answers session_id (suc left) attempt backoff =
    let r = resume_round (answers attempt) session_id (ltb attempt 2) in
    let rest = resume_loop answers session_id left (attempt + 1) (doubled backoff) in
    elim r.1 [ some result ↦ (r.0, result) | none ↦ (r.0 ++ sleeps backoff ∷ rest.0, rest.1) ]

unfoldable pub resume_with_backoff : (ℕ → Attempt) → Uuid → List Effect × Result CliError (Unit {0})
unfolding resume_loop
resume_with_backoff answers session_id = resume_loop answers session_id 3 0 100000000

-- The match of connect_cmd on the session's result, in its first round or in its second: an answer,
-- another round, or the loop of resume_with_backoff for a session.
pub data Next : Type 0 where
  gives : Result CliError (Unit {0}) → Next
  retries : Next
  hands_over : Uuid → Next

unfoldable pub after_connect : Bool → Bool → Result CliError (Unit {0}) → Next
after_connect first is_terminal (ok _) = gives (ok tt)
after_connect first is_terminal (err closed) = gives (ok tt)
after_connect first is_terminal (err auth_failed) =
    if first then retries else gives (err auth_failed)
after_connect first is_terminal (err (disconnected s)) =
    if not is_terminal then gives (ok tt) else hands_over s
after_connect first is_terminal (err e) = gives (err e)

-- A round of connect_cmd, from ssh's answer on.
unfoldable pub connect_round :
    Attempt → Bool → Bool → Result CliError BootstrapPayload → List Effect × Next
unfolding after_connect
connect_round a first is_terminal (err e) = ([], gives (err e))
connect_round a first is_terminal (ok payload) =
    (runs payload attach ∷ [], after_connect first is_terminal (a.session payload attach))

-- The loop of connect_cmd over its `left` rounds; `later` gives the rounds of a resumption.
unfoldable pub connect_loop :
    (ℕ → Attempt)
    → (ℕ → Attempt)
    → Bool
    → ℕ
    → ℕ
    → Duration
    → List Effect × Result CliError (Unit {0})
unfolding ssh_bootstrap_with_retry connect_round resume_with_backoff
connect_loop now_answers later is_terminal zero attempt backoff = ([], err auth_failed)
connect_loop now_answers later is_terminal (suc left) attempt backoff =
    let a = now_answers attempt in
    let r = connect_round a (attempt == 0) is_terminal (ssh_bootstrap_with_retry a) in
    let rest = connect_loop now_answers later is_terminal left (attempt + 1) (doubled backoff) in
    elim r.1 [
      | gives result ↦ (r.0, result)
      | retries ↦ (r.0 ++ sleeps backoff ∷ rest.0, rest.1)
      | hands_over s ↦
          let resumption = resume_with_backoff later s in (r.0 ++ resumption.0, resumption.1)
    ]

unfoldable pub connect_cmd :
    (ℕ → Attempt) → (ℕ → Attempt) → Bool → List Effect × Result CliError (Unit {0})
unfolding connect_loop
connect_cmd now_answers later is_terminal = connect_loop now_answers later is_terminal 2 0 100000000
