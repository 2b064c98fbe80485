-- ===== src/Token/Service/Calls.antt =====
-- The calls of src/token/service.rs as data, and runs of them.
use neosh.Prelude.{Text, Uuid, SystemTime, Duration, ℕ, refl, ◌≢◌, List, [], ◌∷◌, arith}
use neosh.Token.Service.{
  TokenType, TokenService, mark_consumed, mark_revoked, retains, cleanup_expired, Draw, issue_token,
  validate_and_consume_auth, revoke_token,
}
use neosh.Token.Service.Records.{
  Absent, AreDistinct, retain-AreDistinct, write_record-AreDistinct, append-AreDistinct,
}

-- The calls of the service.
pub data Op : Type 0 where
  issues : Draw → TokenType → Uuid → Text → Duration → Op
  consumes : Text → Uuid → Text → SystemTime → Op
  revokes : Text → SystemTime → Op
  sweeps : SystemTime → Duration → Op

module _ (hash : Text → ℕ) where
  unfoldable pub step : TokenService → Op → TokenService
  unfolding issue_token validate_and_consume_auth revoke_token cleanup_expired
  step svc (issues d t sid user ttl) = (issue_token hash svc d t sid user ttl).0
  step svc (consumes raw sid user now) = (validate_and_consume_auth hash svc raw sid user now).0
  step svc (revokes raw now) = (revoke_token hash svc raw now).0
  step svc (sweeps now retention) = cleanup_expired svc now retention

  unfoldable pub run : TokenService → List Op → TokenService
  run svc [] = svc
  run svc (op ∷ ops) = run (step svc op) ops

  -- An issue draws a token whose hash no record carries.
  abbrev pub IsFresh : TokenService → Op → Type 0
  IsFresh svc (issues d t sid user ttl) = Absent (hash d.raw) svc.records
  IsFresh svc _ = Unit {0}

  abbrev pub AreFresh : TokenService → List Op → Type 0
  AreFresh svc [] = Unit {0}
  AreFresh svc (op ∷ ops) = IsFresh svc op × AreFresh (step svc op) ops

  -- No issue draws a token with the hash `h`.
  abbrev pub Avoids : ℕ → List Op → Type 0
  Avoids h [] = Unit {0}
  Avoids h (issues d t sid user ttl ∷ ops) = (hash d.raw ≢ h) × Avoids h ops
  Avoids h (_ ∷ ops) = Avoids h ops

  pub Avoids-head : (h : ℕ) (op : Op) (ops : List Op) → Avoids h (op ∷ ops) → Avoids h (op ∷ [])
  Avoids-head h (issues d t sid user ttl) ops a = (a.0, tt)
  Avoids-head h (revokes raw now) ops a = tt
  Avoids-head h _ ops a = tt

  pub Avoids-tail : (h : ℕ) (op : Op) (ops : List Op) → Avoids h (op ∷ ops) → Avoids h ops
  Avoids-tail h (issues d t sid user ttl) ops a = a.1
  Avoids-tail h (revokes raw now) ops a = a
  Avoids-tail h _ ops a = a

  -- Every call keeps the hashes distinct, if an issue draws a fresh token.
  pub step-AreDistinct :
      (svc : TokenService) (op : Op)
      → IsFresh svc op
      → AreDistinct svc.records
      → AreDistinct (step svc op).records
  unfolding step
  step-AreDistinct svc (issues d t sid user ttl) f h = append-AreDistinct svc.records _ f h
  step-AreDistinct svc (consumes raw sid user now) f h =
      ground
        (arith, write_record-AreDistinct (mark_consumed now) (λ r. refl) (hash raw) svc.records h)
  step-AreDistinct svc (revokes raw now) f h =
      ground
        (arith, write_record-AreDistinct (mark_revoked now) (λ r. refl) (hash raw) svc.records h)
  step-AreDistinct svc (sweeps now retention) f h =
      retain-AreDistinct (retains now retention) svc.records h
