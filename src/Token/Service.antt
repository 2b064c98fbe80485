-- ===== src/Token/Service.antt =====
-- src/token/service.rs: single-use auth tokens and resume tokens, stored by their hash. SHA-256, the
-- system's random bytes with their Base64 text, the clock and `Uuid::new_v4()` are not this
-- repository's code: the hash of a token is the parameter `hash`, and the raw token, the time and
-- the `jti` are arguments. Adding a lifetime to a time does not overflow.
pub mod Records
pub mod Calls
pub mod Issue
pub mod Lifecycle
pub mod Sweep
use neosh.Prelude.{
  ltb, leb, ◌==◌, if◌then◌else◌, is_some, Result, ok, err, ◌>>=◌, ◌>>◌, guard, ok_or, Text, text_eq,
  Uuid, SystemTime, Duration, duration_since, ℕ, ◌+◌, Bool, true, false, not, ◌&&◌, ◌||◌, Option,
  none, some, List, [], ◌∷◌, ◌++◌,
}

pub data TokenType : Type 0 where
  auth_token resume_token : TokenType

pub record TokenRecord : Type 0 where
  pub token_hash : ℕ
  pub token_type : TokenType
  pub session_id : Uuid
  pub user_id : Text
  pub jti : Uuid
  pub expires_at : SystemTime
  pub consumed_at : Option SystemTime
  pub revoked_at : Option SystemTime
  pub created_at : SystemTime

pub data TokenError : Type 0 where
  not_found expired revoked consumed binding_mismatch type_mismatch : TokenError

pub record TokenService : Type 0 where
  pub records : List TokenRecord

abbrev pub is_auth : TokenType → Bool
is_auth auth_token = true
is_auth resume_token = false

abbrev pub is_resume : TokenType → Bool
is_resume auth_token = false
is_resume resume_token = true

-- `TokenService::default()`.
unfoldable pub default : TokenService
default = record { records = [] }

-- The record that `find_record_mut` gives: the first with the hash, here of a list of records.
unfoldable pub find_record : ℕ → List TokenRecord → Option TokenRecord
find_record h [] = none
find_record h (r ∷ rs) = if r.token_hash == h then some r else find_record h rs

-- The records after a write through `find_record_mut`.
unfoldable pub write_record : ℕ → (TokenRecord → TokenRecord) → List TokenRecord → List TokenRecord
write_record h f [] = []
write_record h f (r ∷ rs) = if r.token_hash == h then f r ∷ rs else r ∷ write_record h f rs

-- `record.consumed_at = Some(now)`.
abbrev pub mark_consumed : SystemTime → TokenRecord → TokenRecord
mark_consumed now r = record r { consumed_at = some now }

-- `record.revoked_at = Some(now)`.
abbrev pub mark_revoked : SystemTime → TokenRecord → TokenRecord
mark_revoked now r = record r { revoked_at = some now }

-- The checks of `validate_and_consume_auth` on the record found.
unfoldable pub check_auth : TokenRecord → Uuid → Text → SystemTime → Result TokenError (Unit {0})
check_auth r session_id user_id now = do
  guard (is_auth r.token_type) type_mismatch
  guard (r.session_id == session_id && text_eq r.user_id user_id) binding_mismatch
  guard (not (leb r.expires_at now)) expired
  guard (not (is_some r.revoked_at)) revoked
  guard (not (is_some r.consumed_at)) consumed

-- The checks of `validate_resume` on the record found.
unfoldable pub check_resume : TokenRecord → Uuid → Text → SystemTime → Result TokenError (Unit {0})
check_resume r session_id user_id now = do
  guard (is_resume r.token_type) type_mismatch
  guard (r.session_id == session_id && text_eq r.user_id user_id) binding_mismatch
  guard (not (leb r.expires_at now)) expired
  guard (not (is_some r.revoked_at)) revoked

-- `now.duration_since(t).ok()` is there and at most the retention.
unfoldable pub too_recent : SystemTime → Duration → Option SystemTime → Bool
too_recent now retention none = false
too_recent now retention (some t) = elim (duration_since now t) [
  | none ↦ false
  | some elapsed ↦ leb elapsed retention
]

-- The closure of `cleanup_expired`.
unfoldable pub retains : SystemTime → Duration → TokenRecord → Bool
unfolding too_recent
retains now retention r =
    if ltb now r.expires_at
    then true
    else too_recent now retention r.revoked_at || too_recent now retention r.consumed_at

-- `Vec::retain`.
unfoldable pub retain : (TokenRecord → Bool) → List TokenRecord → List TokenRecord
retain p [] = []
retain p (r ∷ rs) = if p r then r ∷ retain p rs else retain p rs

unfoldable pub cleanup_expired : TokenService → SystemTime → Duration → TokenService
cleanup_expired svc now retention = record { records = retain (retains now retention) svc.records }

abbrev pub new_record : ℕ → TokenType → Uuid → Text → Uuid → SystemTime → Duration → TokenRecord
new_record h token_type session_id user_id jti now ttl = record {
  token_hash = h;
  token_type = token_type;
  session_id = session_id;
  user_id = user_id;
  jti = jti;
  expires_at = now + ttl;
  consumed_at = none;
  revoked_at = none;
  created_at = now;
}

-- What one issue draws from outside: the random text, the clock and the `jti`.
pub record Draw : Type 0 where
  pub raw : Text
  pub now : SystemTime
  pub jti : Uuid

module _ (hash : Text → ℕ) where
  unfoldable pub issue_token :
      TokenService → Draw → TokenType → Uuid → Text → Duration → TokenService × Text
  issue_token svc d token_type session_id user_id ttl = (
    record {
      records =
          svc.records ++ new_record (hash d.raw) token_type session_id user_id d.jti d.now ttl ∷ [];
    },
    d.raw,
  )

  unfoldable pub issue_auth_token :
      TokenService → Draw → Uuid → Text → Duration → TokenService × Text
  unfolding issue_token
  issue_auth_token svc d session_id user_id ttl =
      issue_token svc d auth_token session_id user_id ttl

  unfoldable pub issue_resume_token :
      TokenService → Draw → Uuid → Text → Duration → TokenService × Text
  unfolding issue_token
  issue_resume_token svc d session_id user_id ttl =
      issue_token svc d resume_token session_id user_id ttl

  unfoldable pub validate_and_consume_auth :
      TokenService → Text → Uuid → Text → SystemTime → TokenService × Result TokenError (Unit {0})
  unfolding check_auth
  validate_and_consume_auth svc raw_token session_id user_id now =
      elim (find_record (hash raw_token) svc.records) [
        | none ↦ (svc, err not_found)
        | some r ↦ elim (check_auth r session_id user_id now) [
          | err e ↦ (svc, err e)
          | ok _ ↦ (
            record { records = write_record (hash raw_token) (mark_consumed now) svc.records },
            ok tt,
          )
        ]
      ]

  unfoldable pub validate_resume :
      TokenService → Text → Uuid → Text → SystemTime → Result TokenError (Unit {0})
  unfolding check_resume
  validate_resume svc raw_token session_id user_id now = do
    r ← ok_or (find_record (hash raw_token) svc.records) not_found
    check_resume r session_id user_id now

  unfoldable pub revoke_token :
      TokenService → Text → SystemTime → TokenService × Result TokenError (Unit {0})
  revoke_token svc raw_token now = elim (find_record (hash raw_token) svc.records) [
    | none ↦ (svc, err not_found)
    | some r ↦
        (record { records = write_record (hash raw_token) (mark_revoked now) svc.records }, ok tt)
  ]
