-- ===== src/Token/Service/Issue.antt =====
-- What a token of src/token/service.rs is good for when it is issued.
use neosh.Prelude.{
  ok, err, Text, text_eq_iff, Uuid, SystemTime, Duration, ℕ, ◌+◌, ◌<◌, ◌≡◌, ◌↔◌, some, [], ◌∷◌,
  ◌++◌, arith,
}
use neosh.Token.Service.{
  TokenType, auth_token, resume_token, type_mismatch, TokenService, find_record, new_record, Draw,
  issue_auth_token, issue_resume_token, validate_and_consume_auth, validate_resume,
}
use neosh.Token.Service.Records.{Absent, find_record-Absent, find_record-append}

module _ (hash : Text → ℕ) where
  find_record-new :
      (svc : TokenService) (d : Draw) (t : TokenType) (sid : Uuid) (user : Text) (ttl : Duration)
      → Absent (hash d.raw) svc.records
      → find_record
          (hash d.raw)
          (svc.records ++ new_record (hash d.raw) t sid user d.jti d.now ttl ∷ [])
        ≡ some (new_record (hash d.raw) t sid user d.jti d.now ttl)
  find_record-new svc d t sid user ttl a = ground (
    arith,
    find_record-append (hash d.raw) svc.records
        (new_record (hash d.raw) t sid user d.jti d.now ttl),
    find_record-Absent (hash d.raw) svc.records a,
  )

  -- A token whose hash no record carries is, once issued, accepted for the session and the user it
  -- was issued to, in its own role, until its lifetime ends, and refused for any other session or
  -- user, in the other role, and from the end of its lifetime on.
  pub validate-issue :
      (svc : TokenService) (d : Draw) (sid sid' : Uuid) (user user' : Text) (ttl : Duration)
      (later : SystemTime)
      → Absent (hash d.raw) svc.records
      → (((validate_and_consume_auth hash
              (issue_auth_token hash svc d sid user ttl).0
              d.raw
              sid'
              user'
              later).1
            ≡ ok tt)
          ↔ ((sid ≡ sid') × (user ≡ user') × (later < d.now + ttl)))
        × ((validate_resume hash
                (issue_resume_token hash svc d sid user ttl).0
                d.raw
                sid'
                user'
                later
              ≡ ok tt)
            ↔ ((sid ≡ sid') × (user ≡ user') × (later < d.now + ttl)))
        × (validate_resume hash (issue_auth_token hash svc d sid user ttl).0 d.raw sid' user' later
            ≡ err type_mismatch)
        × ((validate_and_consume_auth hash
              (issue_resume_token hash svc d sid user ttl).0
              d.raw
              sid'
              user'
              later).1
            ≡ err type_mismatch)
  unfolding validate_and_consume_auth validate_resume issue_auth_token issue_resume_token
  validate-issue svc d sid sid' user user' ttl later a =
      let found_auth = find_record-new svc d auth_token sid user ttl a in
      let found_resume = find_record-new svc d resume_token sid user ttl a in
      (
        ground (arith, found_auth, text_eq_iff user user'),
        ground (arith, found_resume, text_eq_iff user user'),
        ground (arith, found_auth),
        ground (arith, found_resume),
      )
