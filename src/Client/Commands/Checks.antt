-- ===== src/Client/Commands/Checks.antt =====
-- What the subcommand `resume` of src/bin/neosh.rs checks before a session runs.
use neosh.Prelude.{Bool-cases, is_empty, Result, ok, err, Text, Uuid, ℕ, inl, inr, Option}
use neosh.Client.Reconnect.{SessionCacheEntry, Attempt, resume_entry_expired}
use neosh.Client.Reconnect.Checks.{AllChecked, forgotten, resume_with_backoff-AllChecked}
use neosh.Client.Commands.{target_of, resume_cmd}

-- Whatever the cache, the clock, ssh and the sessions answer, and whatever target is given: what
-- `resume` does is to remove the entry of its session, to save entries, to sleep, and to run sessions,
-- each of them with the id that was asked for and the fingerprint and the resume token that the cache
-- held in that round, where the token had not expired.
pub resume_cmd-AllChecked :
    (answers : ℕ → Attempt) (sid : Uuid) (target : Option Text)
    (cached : Result Text SessionCacheEntry) (now : ℕ)
    → AllChecked answers sid (resume_cmd answers sid target cached now).0
unfolding resume_cmd
resume_cmd-AllChecked answers sid target (err e) now = tt
resume_cmd-AllChecked answers sid target (ok cached) now =
    elim (Bool-cases (resume_entry_expired cached now)) [
      | inl x ↦ rw (x, AllChecked) (forgotten, tt)
      | inr x ↦ elim (Bool-cases (is_empty (target_of target cached))) [
        | inl t ↦ rw (x, t, AllChecked) tt
        | inr t ↦ rw (x, t) (resume_with_backoff-AllChecked answers sid)
      ]
    ]
