-- ===== src/Tests/Token.antt =====
-- Examples for src/token/service.rs, with the length of a token in the place of its hash.
use neosh.Prelude.{
  length, ok, err, Text, codes, text_eq, ℕ, ◌+◌, ◌<◌, ◌≡◌, refl, ◌≢◌, ◌↔◌, some, List, [], ◌∷◌,
  arith,
}
use neosh.Token.Service.{
  auth_token, TokenRecord, type_mismatch, TokenService, default, find_record, write_record,
  cleanup_expired, new_record, Draw, issue_auth_token, issue_resume_token,
  validate_and_consume_auth, validate_resume, revoke_token,
}
use neosh.Token.Service.Records.{Absent, AreDistinct}
use neosh.Token.Service.Calls.{Op, issues, sweeps, run, AreFresh, Avoids}
use neosh.Token.Service.Issue.{validate-issue}
use neosh.Token.Service.Lifecycle.{auth_token_single_use, revoke_token_final}
use neosh.Token.Service.Sweep.{cleanup_expired_invisible}

abbrev hash : Text → ℕ
hash = length

abbrev raw : Text
raw = codes "abc"

abbrev first_draw : Draw
first_draw = record { raw = raw; now = 100; jti = 1 }

abbrev second_draw : Draw
second_draw = record { raw = codes "wxyz"; now = 110; jti = 2 }

abbrev kept : TokenRecord
kept = new_record 3 auth_token 1 (codes "ann") 1 100 50

abbrev issued : TokenService
issued = record { records = kept ∷ [] }

abbrev between : List Op
between = issues second_draw auth_token 1 (codes "ann") 50 ∷ sweeps 115 10 ∷ []

issued_AreDistinct : AreDistinct issued.records
issued_AreDistinct = ground arith

accepted : (validate_and_consume_auth hash issued raw 1 (codes "ann") 105).1 ≡ ok tt
unfolding validate_and_consume_auth find_record text_eq
accepted = refl

between-Avoids : Avoids hash 3 between
between-Avoids = (ground arith, tt)

fresh_after_consume :
    AreFresh hash (validate_and_consume_auth hash issued raw 1 (codes "ann") 105).0 between
unfolding validate_and_consume_auth find_record text_eq write_record
fresh_after_consume = ((ground arith, tt), (tt, tt))

auth_token_single_use_example :
    (validate_and_consume_auth hash
      (run hash (validate_and_consume_auth hash issued raw 1 (codes "ann") 105).0 between)
      raw
      1
      (codes "ann")
      120).1
    ≢ ok tt
auth_token_single_use_example =
    auth_token_single_use hash issued raw (codes "ann") (codes "ann") 1 1 105 120 between accepted
      issued_AreDistinct between-Avoids fresh_after_consume

revoked_now : (revoke_token hash issued raw 105).1 ≡ ok tt
unfolding revoke_token find_record
revoked_now = refl

fresh_after_revoke : AreFresh hash (revoke_token hash issued raw 105).0 between
unfolding revoke_token find_record write_record
fresh_after_revoke = ((ground arith, tt), (tt, tt))

revoke_token_final_example :
    let after = run hash (revoke_token hash issued raw 105).0 between in
    ((validate_and_consume_auth hash after raw 1 (codes "ann") 120).1 ≢ ok tt)
    × (validate_resume hash after raw 1 (codes "ann") 120 ≢ ok tt)
revoke_token_final_example =
    revoke_token_final hash issued raw (codes "ann") 1 105 120 between revoked_now
      issued_AreDistinct between-Avoids fresh_after_revoke

nothing_issued : Absent (hash raw) default.records
unfolding default
nothing_issued = tt

validate-issue_example :
    (((validate_and_consume_auth hash
          (issue_auth_token hash default first_draw 1 (codes "ann") 50).0
          raw
          1
          (codes "ann")
          120).1
        ≡ ok tt)
      ↔ (◌≡◌ {A = ℕ} 1 1 × (codes "ann" ≡ codes "ann") × (120 < 100 + 50)))
    × ((validate_resume hash
            (issue_resume_token hash default first_draw 1 (codes "ann") 50).0
            raw
            1
            (codes "ann")
            120
          ≡ ok tt)
        ↔ (◌≡◌ {A = ℕ} 1 1 × (codes "ann" ≡ codes "ann") × (120 < 100 + 50)))
    × (validate_resume hash
          (issue_auth_token hash default first_draw 1 (codes "ann") 50).0
          raw
          1
          (codes "ann")
          120
        ≡ err type_mismatch)
    × ((validate_and_consume_auth hash
          (issue_resume_token hash default first_draw 1 (codes "ann") 50).0
          raw
          1
          (codes "ann")
          120).1
        ≡ err type_mismatch)
validate-issue_example =
    validate-issue hash default first_draw 1 1 (codes "ann") (codes "ann") 50 120 nothing_issued

cleanup_expired_invisible_example :
    (((validate_and_consume_auth hash (cleanup_expired issued 160 10) raw 1 (codes "ann") 170).1
        ≡ ok tt)
      ↔ ((validate_and_consume_auth hash issued raw 1 (codes "ann") 170).1 ≡ ok tt))
    × ((validate_resume hash (cleanup_expired issued 160 10) raw 1 (codes "ann") 170 ≡ ok tt)
        ↔ (validate_resume hash issued raw 1 (codes "ann") 170 ≡ ok tt))
cleanup_expired_invisible_example =
    cleanup_expired_invisible hash issued raw (codes "ann") 1 160 170 10 issued_AreDistinct
      (omega arith)

finds_kept : find_record 3 issued.records ≡ some kept
unfolding find_record
finds_kept = refl
