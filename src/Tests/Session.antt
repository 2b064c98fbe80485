-- ===== src/Tests/Session.antt =====
-- Examples for src/session/manager.rs.
use neosh.Prelude.{ok, err, codes, ◌≡◌, refl, false, List, [], ◌∷◌, arith}
use neosh.Session.Manager.{
  attach_denied, SessionManager, default, create_session_with_id, attach_exclusive,
  conditional_stale_cleanup,
}
use neosh.Session.Manager.Refinement.{answers, lock_answers, lock_of, answers_refine}
use neosh.Session.Manager.Ops.{
  Op, creates, creates_with_id, attaches, detaches, cleans, terminates, step, run,
}
use neosh.Session.Manager.Invariant.{IsValid, default-IsValid, create-IsValid, run-IsValid}
use neosh.Session.Manager.Exclusion.{attach_exclusive_denies, stale_cleanup_harmless}

abbrev one_session : SessionManager
one_session = create_session_with_id default 1 (codes "ann") (codes "h:1") (codes "SHA256:aa")

one_session-IsValid : IsValid one_session
one_session-IsValid =
    create-IsValid default 1 (codes "ann") (codes "h:1") (codes "SHA256:aa") default-IsValid

first_attach : (attach_exclusive one_session 1 7).1 ≡ ok 1
unfolding attach_exclusive create_session_with_id default
first_attach = refl

abbrev taken : SessionManager
taken = (attach_exclusive one_session 1 7).0

abbrev drops : List Op
drops = cleans 1 7 1 ∷ []

second_attach : (attach_exclusive (run taken drops) 1 8).1 ≡ ok 2
unfolding attach_exclusive create_session_with_id default run conditional_stale_cleanup step
second_attach = refl

run-IsValid_example : IsValid (run one_session (attaches 1 7 ∷ terminates 1 ∷ []))
run-IsValid_example = run-IsValid one_session (attaches 1 7 ∷ terminates 1 ∷ []) one_session-IsValid

attach_exclusive_denies_example : attach_exclusive taken 1 8 ≡ (taken, err attach_denied)
attach_exclusive_denies_example = attach_exclusive_denies one_session 1 7 8 1 first_attach

-- Another session is created in between.
abbrev others : List Op
others = creates 2 (codes "bob") (codes "h:2") (codes "SHA256:bb") ∷ detaches 1 9 ∷ []

stale_cleanup_harmless_example :
    let n = run (attach_exclusive (run taken drops) 1 8).0 others in
    conditional_stale_cleanup n 1 7 1 ≡ (n, false)
stale_cleanup_harmless_example =
    stale_cleanup_harmless one_session 1 7 8 1 2 drops others (tt, tt)
      ((λ e. omega (arith, e)), (tt, tt)) (omega arith) first_attach second_attach

-- A creation under the same id frees the session.
abbrev sequence : List Op
sequence =
    attaches 1 7
    ∷ attaches 1 8
    ∷ creates_with_id 1 (codes "ann") (codes "h:1") (codes "SHA256:aa")
    ∷ attaches 1 8
    ∷ cleans 1 7 1
    ∷ terminates 1
    ∷ []

answers_refine_example :
    answers one_session 1 sequence ≡ lock_answers (lock_of (one_session.sessions 1)) 1 sequence
answers_refine_example = answers_refine one_session 1 sequence one_session-IsValid
