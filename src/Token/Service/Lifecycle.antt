-- ===== src/Token/Service/Lifecycle.antt =====
-- What becomes of a token of src/token/service.rs over the calls of the service.
use neosh.Prelude.{
  is_some, ok, Text, Uuid, SystemTime, ℕ, ◌≡◌, refl, ◌≢◌, true, List, [], ◌∷◌, arith,
}
use neosh.Token.Service.{
  TokenRecord, TokenService, find_record, write_record, mark_consumed, mark_revoked,
  validate_and_consume_auth, validate_resume, revoke_token,
}
use neosh.Token.Service.Records.{
  AreDistinct, find_record-retain, find_record-write_record, find_record-append, AtRecord,
  AtRecord-map, AtRecord-keep_if, AtRecord-or_last,
}
use neosh.Token.Service.Calls.{
  Op, issues, consumes, revokes, sweeps, step, run, AreFresh, Avoids, Avoids-head, Avoids-tail,
  step-AreDistinct,
}

module _ (hash : Text → ℕ) where
  abbrev pub IsConsumed : TokenRecord → Type 0
  IsConsumed r = is_some r.consumed_at ≡ true

  abbrev pub IsRevoked : TokenRecord → Type 0
  IsRevoked r = is_some r.revoked_at ≡ true

  -- A validation and a revocation either leave the records alone or write a mark.
  consume_cases :
      (P : TokenService → Type 0) (svc : TokenService) (raw : Text) (sid : Uuid) (user : Text)
      (now : SystemTime)
      → P svc
      → P (record { records = write_record (hash raw) (mark_consumed now) svc.records })
      → P (validate_and_consume_auth hash svc raw sid user now).0
  unfolding validate_and_consume_auth
  consume_cases P svc raw sid user now alone marked = ground arith

  revoke_cases :
      (P : TokenService → Type 0) (svc : TokenService) (raw : Text) (now : SystemTime)
      → P svc
      → P (record { records = write_record (hash raw) (mark_revoked now) svc.records })
      → P (revoke_token hash svc raw now).0
  unfolding revoke_token
  revoke_cases P svc raw now alone marked = ground arith

  -- What a consumption and a revocation keep true of a record stays true of the record of a token,
  -- for as long as the record is there.
  step-AtRecord :
      (P : TokenRecord → Type 0)
      → ((now : SystemTime) (r : TokenRecord) → P r → P (mark_consumed now r))
      → ((now : SystemTime) (r : TokenRecord) → P r → P (mark_revoked now r))
      → (svc : TokenService) (op : Op) (h : ℕ) → Avoids hash h (op ∷ [])
      → AreDistinct svc.records
      → AtRecord P (find_record h svc.records)
      → AtRecord P (find_record h (step hash svc op).records)
  unfolding step
  step-AtRecord P kc kr svc (issues d t sid user ttl) h a dis at =
      rw find_record-append (AtRecord-or_last P h _ _ a.0 at)
  step-AtRecord P kc kr svc (consumes raw sid user now) h a dis at =
      consume_cases (λ s. AtRecord P (find_record h s.records)) svc raw sid user now at
        (rw (find_record-write_record (mark_consumed now) (λ r. refl))
          (AtRecord-map P _ (kc now) _ _ at))
  step-AtRecord P kc kr svc (revokes raw now) h a dis at =
      revoke_cases (λ s. AtRecord P (find_record h s.records)) svc raw now at
        (rw (find_record-write_record (mark_revoked now) (λ r. refl))
          (AtRecord-map P _ (kr now) _ _ at))
  step-AtRecord P kc kr svc (sweeps now retention) h a dis at =
      rw (find_record-retain _ h _ dis) (AtRecord-keep_if P _ _ at)

  -- A mark that a record bears stays, over any run of calls that issue fresh tokens only.
  run-AtRecord :
      (P : TokenRecord → Type 0)
      → ((now : SystemTime) (r : TokenRecord) → P r → P (mark_consumed now r))
      → ((now : SystemTime) (r : TokenRecord) → P r → P (mark_revoked now r))
      → (svc : TokenService) (ops : List Op) (h : ℕ) → Avoids hash h ops
      → AreFresh hash svc ops
      → AreDistinct svc.records
      → AtRecord P (find_record h svc.records)
      → AtRecord P (find_record h (run hash svc ops).records)
  unfolding run
  run-AtRecord P kc kr svc [] h a f dis at = at
  run-AtRecord P kc kr svc (op ∷ ops) h a f dis at =
      run-AtRecord P kc kr (step hash svc op) ops h (Avoids-tail hash h op ops a) f.1
        (step-AreDistinct hash svc op f.0 dis)
        (step-AtRecord P kc kr svc op h (Avoids-head hash h op ops a) dis at)

  consume_marks :
      (svc : TokenService) (raw : Text) (sid : Uuid) (user : Text) (now : SystemTime)
      → (validate_and_consume_auth hash svc raw sid user now).1 ≡ ok tt
      → AtRecord IsConsumed
          (find_record (hash raw) (validate_and_consume_auth hash svc raw sid user now).0.records)
  unfolding validate_and_consume_auth
  consume_marks svc raw sid user now h = ground (
    arith,
    find_record-write_record (mark_consumed now) (λ r. refl) (hash raw) (hash raw) svc.records,
  )

  consumed_refused :
      (svc : TokenService) (raw : Text) (sid : Uuid) (user : Text) (now : SystemTime)
      → AtRecord IsConsumed (find_record (hash raw) svc.records)
      → (validate_and_consume_auth hash svc raw sid user now).1 ≢ ok tt
  unfolding validate_and_consume_auth
  consumed_refused svc raw sid user now c = ground arith

  -- An auth token is good for one validation: in a service where no two records carry one hash,
  -- once it was accepted, no later validation accepts it as an auth token, for any session, user
  -- or time, whatever calls come in between, if the tokens that they issue are fresh and do not
  -- share its hash.
  pub auth_token_single_use :
      (svc : TokenService) (raw user user' : Text) (sid sid' : Uuid) (now later : SystemTime)
      (ops : List Op)
      → (validate_and_consume_auth hash svc raw sid user now).1 ≡ ok tt
      → AreDistinct svc.records
      → Avoids hash (hash raw) ops
      → AreFresh hash (validate_and_consume_auth hash svc raw sid user now).0 ops
      → (validate_and_consume_auth hash
          (run hash (validate_and_consume_auth hash svc raw sid user now).0 ops)
          raw
          sid'
          user'
          later).1
        ≢ ok tt
  auth_token_single_use svc raw user user' sid sid' now later ops h dis a f =
      consumed_refused _ raw sid' user' later (
        run-AtRecord IsConsumed (λ t r c. refl) (λ t r c. c) _ ops (hash raw) a f
          (unfold step in step-AreDistinct hash svc (consumes raw sid user now) tt dis)
          (consume_marks svc raw sid user now h))

  revoke_marks :
      (svc : TokenService) (raw : Text) (now : SystemTime)
      → (revoke_token hash svc raw now).1 ≡ ok tt
      → AtRecord IsRevoked (find_record (hash raw) (revoke_token hash svc raw now).0.records)
  unfolding revoke_token
  revoke_marks svc raw now h = ground (
    arith,
    find_record-write_record (mark_revoked now) (λ r. refl) (hash raw) (hash raw) svc.records,
  )

  revoked_refused :
      (svc : TokenService) (raw : Text) (sid : Uuid) (user : Text) (now : SystemTime)
      → AtRecord IsRevoked (find_record (hash raw) svc.records)
      → ((validate_and_consume_auth hash svc raw sid user now).1 ≢ ok tt)
        × (validate_resume hash svc raw sid user now ≢ ok tt)
  unfolding validate_and_consume_auth validate_resume
  revoked_refused svc raw sid user now c = (ground arith, ground arith)

  -- A revocation is final: in a service where no two records carry one hash, once a token was
  -- revoked, no later validation accepts it, neither as an auth token nor as a resume token,
  -- whatever calls come in between, if the tokens that they issue are fresh and do not share its
  -- hash.
  pub revoke_token_final :
      (svc : TokenService) (raw user : Text) (sid : Uuid) (now later : SystemTime) (ops : List Op)
      → (revoke_token hash svc raw now).1 ≡ ok tt
      → AreDistinct svc.records
      → Avoids hash (hash raw) ops
      → AreFresh hash (revoke_token hash svc raw now).0 ops
      → let after = run hash (revoke_token hash svc raw now).0 ops in
        ((validate_and_consume_auth hash after raw sid user later).1 ≢ ok tt)
        × (validate_resume hash after raw sid user later ≢ ok tt)
  revoke_token_final svc raw user sid now later ops h dis a f =
      revoked_refused _ raw sid user later (
        run-AtRecord IsRevoked (λ t r c. c) (λ t r c. refl) _ ops (hash raw) a f
          (unfold step in step-AreDistinct hash svc (revokes raw now) tt dis)
          (revoke_marks svc raw now h))
