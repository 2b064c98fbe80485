-- ===== src/Token/Service/Sweep.antt =====
-- What `cleanup_expired` of src/token/service.rs forgets.
use neosh.Prelude.{
  ok, Text, Uuid, SystemTime, Duration, ℕ, ◌+◌, ◌≤◌, ◌<◌, ◌≡◌, ◌↔◌, ◌⊎◌, Option, none, some, arith,
}
use neosh.Token.Service.{
  TokenRecord, TokenService, find_record, retains, cleanup_expired, validate_and_consume_auth,
  validate_resume,
}
use neosh.Token.Service.Records.{AreDistinct, find_record-retain}

-- A time that lies in the past, by at most the retention.
abbrev pub Recent : SystemTime → Duration → Option SystemTime → Type 0
Recent now retention none = ⊥
Recent now retention (some t) = (t ≤ now) × (now ≤ t + retention)

module _ (hash : Text → ℕ) where
  -- A sweep is invisible to whoever presents a token at its time or later, if no two records carry
  -- one hash: every validation, of either kind, accepts after the sweep exactly what it accepted
  -- before.
  pub cleanup_expired_invisible :
      (svc : TokenService) (raw user : Text) (sid : Uuid) (now later : SystemTime)
      (retention : Duration)
      → AreDistinct svc.records
      → now ≤ later
      → let swept = cleanup_expired svc now retention in
        (((validate_and_consume_auth hash swept raw sid user later).1 ≡ ok tt)
          ↔ ((validate_and_consume_auth hash svc raw sid user later).1 ≡ ok tt))
        × ((validate_resume hash swept raw sid user later ≡ ok tt)
            ↔ (validate_resume hash svc raw sid user later ≡ ok tt))
  unfolding cleanup_expired validate_and_consume_auth validate_resume retains
  cleanup_expired_invisible svc raw user sid now later retention dis le =
      let kept = find_record-retain (retains now retention) (hash raw) svc.records dis in
      (ground (arith, kept), ground (arith, kept))

  -- If no two records carry one hash, a sweep keeps the record of a token exactly when the token
  -- has not expired, or was consumed or revoked no longer ago than the retention.
  pub cleanup_expired_keeps :
      (svc : TokenService) (now : SystemTime) (retention : Duration) (h : ℕ) (r : TokenRecord)
      → AreDistinct svc.records
      → find_record h svc.records ≡ some r
      → (find_record h (cleanup_expired svc now retention).records ≡ some r) ↔ (
          (now < r.expires_at)
          ⊎ Recent now retention r.revoked_at
          ⊎ Recent now retention r.consumed_at)
  unfolding cleanup_expired retains
  cleanup_expired_keeps svc now retention h r dis e =
      ground (arith, find_record-retain (retains now retention) h svc.records dis)
