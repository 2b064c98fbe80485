-- ===== src/Session/Manager/Exclusion.antt =====
-- Exclusive attachment and stale cleanup in src/session/manager.rs.
use neosh.Prelude.{
  Result, ok, err, Uuid, ℕ, ◌+◌, ◌-◌, ◌^◌, ◌<◌, min, ◌≡◌, ◌↔◌, true, false, Option, none, some,
  List, arith,
}
use neosh.Session.Manager.{
  created, attached, detached, expired, terminated, Session, SessionError, not_found, attach_denied,
  invalid_state, SessionManager, attach_exclusive, detach, conditional_stale_cleanup,
}
use neosh.Session.Manager.Ops.{Op, run, AllSpare, EpochFrom, run-EpochFrom}
use neosh.Session.Manager.Invariant.{IsValid}

-- After a connection has attached to a session, every attempt to attach, by any connection, is
-- denied and changes nothing.
pub attach_exclusive_denies :
    (m : SessionManager) (sid c d : Uuid) (e : ℕ)
    → (attach_exclusive m sid c).1 ≡ ok e
    → attach_exclusive (attach_exclusive m sid c).0 sid d
      ≡ ((attach_exclusive m sid c).0, err attach_denied)
unfolding attach_exclusive
attach_exclusive_denies m sid c d e h = ground arith

-- What `attach_exclusive` answers, in terms of the state of the session alone.
abbrev pub answer : Option Session → Result SessionError ℕ
answer none = err not_found
answer (some s) = elim s.state [
  | created ↦ ok (min (s.attach_epoch + 1) (2 ^ 64 - 1))
  | detached ↦ ok (min (s.attach_epoch + 1) (2 ^ 64 - 1))
  | attached ↦ err attach_denied
  | expired ↦ err invalid_state
  | terminated ↦ err invalid_state
]

-- In a valid manager the state of the session decides what `attach_exclusive` answers: an expired or
-- terminated session is refused, an attached one denied, and a created or detached one granted with
-- the next epoch, at most 2 ^ 64 - 1.
pub attach_exclusive-answer :
    (m : SessionManager) (sid c : Uuid)
    → IsValid m
    → (attach_exclusive m sid c).1 ≡ answer (m.sessions sid)
unfolding attach_exclusive
attach_exclusive-answer m sid c v = ground (arith, v.each sid)

-- After an attachment only the connection that attached can detach, and after that any connection
-- attaches, in a later epoch if the counter has not reached its end.
pub detach-attach_exclusive :
    (m : SessionManager) (sid c d : Uuid) (e : ℕ)
    → (attach_exclusive m sid c).1 ≡ ok e
    → e < 2 ^ 64 - 1
    → (((detach (attach_exclusive m sid c).0 sid d).1 ≡ ok tt) ↔ (d ≡ c))
      × ((attach_exclusive (detach (attach_exclusive m sid c).0 sid c).0 sid d).1 ≡ ok (e + 1))
unfolding attach_exclusive detach
detach-attach_exclusive m sid c d e h b = ground arith

attach_exclusive-EpochFrom :
    (m : SessionManager) (sid c : Uuid) (n e : ℕ)
    → EpochFrom n (m.sessions sid)
    → n < 2 ^ 64 - 1
    → (attach_exclusive m sid c).1 ≡ ok e
    → EpochFrom (n + 1) ((attach_exclusive m sid c).0.sessions sid)
unfolding attach_exclusive
attach_exclusive-EpochFrom m sid c n e f b h = ground arith

attach_exclusive_epoch :
    (m : SessionManager) (sid c : Uuid) (e : ℕ)
    → (attach_exclusive m sid c).1 ≡ ok e
    → EpochFrom e ((attach_exclusive m sid c).0.sessions sid)
unfolding attach_exclusive
attach_exclusive_epoch m sid c e h = ground arith

cleanup_of_older :
    (m : SessionManager) (sid c : Uuid) (e : ℕ)
    → EpochFrom (e + 1) (m.sessions sid)
    → conditional_stale_cleanup m sid c e ≡ (m, false)
unfolding conditional_stale_cleanup
cleanup_of_older m sid c e f = ground arith

-- Once a connection attached in epoch `e1`, whatever operations follow, and another attachment
-- succeeded, and whatever operations follow again, the first connection's stale cleanup with its
-- epoch does nothing, if no session is created under the same id in between and the epoch counter
-- had not reached its end.
pub stale_cleanup_harmless :
    (m : SessionManager) (sid c1 c2 : Uuid) (e1 e2 : ℕ) (before after : List Op)
    → AllSpare sid before
    → AllSpare sid after
    → e1 < 2 ^ 64 - 1
    → (attach_exclusive m sid c1).1 ≡ ok e1
    → (attach_exclusive (run (attach_exclusive m sid c1).0 before) sid c2).1 ≡ ok e2
    → let n = run (attach_exclusive (run (attach_exclusive m sid c1).0 before) sid c2).0 after in
      conditional_stale_cleanup n sid c1 e1 ≡ (n, false)
stale_cleanup_harmless m sid c1 c2 e1 e2 before after p q b h1 h2 =
    let first = run-EpochFrom _ before sid e1 p (attach_exclusive_epoch m sid c1 e1 h1) in
    let second = attach_exclusive-EpochFrom _ sid c2 e1 e2 first b h2 in
    cleanup_of_older _ sid c1 e1 (run-EpochFrom _ after sid (e1 + 1) q second)

-- The cleanup of the connection that is still attached, with its epoch, frees the session, and a
-- wrong connection or a wrong epoch leaves the manager alone.
pub stale_cleanup_exact :
    (m : SessionManager) (sid c d : Uuid) (e n : ℕ)
    → (attach_exclusive m sid c).1 ≡ ok e
    → let m' = (attach_exclusive m sid c).0 in
      (((conditional_stale_cleanup m' sid d n).1 ≡ true) ↔ ((d ≡ c) × (n ≡ e)))
      × ((conditional_stale_cleanup m' sid d n).1 ≡ false
          → (conditional_stale_cleanup m' sid d n).0 ≡ m')
      × ((conditional_stale_cleanup m' sid c e).0 ≡ (detach m' sid c).0)
unfolding attach_exclusive conditional_stale_cleanup detach
stale_cleanup_exact m sid c d e n h = ground arith
