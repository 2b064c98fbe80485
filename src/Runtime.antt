-- ===== src/Runtime.antt =====
-- src/runtime.rs: sessions and tokens together, without a network. `Uuid::new_v4()` and what an issue
-- draws are arguments, and the hash of tokens is the parameter `hash`.
use neosh.Prelude.{
  ==_refl, Option-cases, Result, ok, err, ◌>>=◌, ok_or, map_err, is_ok, Text, codes, text_eq_iff,
  Uuid, SystemTime, Duration, from_secs, as_secs, ℕ, ◌+◌, ◌<◌, ◌≡◌, refl, ◌↔◌, inl, inr, true,
  false, Option, none, some, arith,
}
use neosh.Session.Manager.{
  SessionManager, Session, SessionError, create_session, assert_owner, session,
  create_session_with_id,
}
use neosh.Session.Manager
use neosh.Token.Service.{
  TokenService, TokenError, Draw, issue_auth_token, validate_and_consume_auth,
}
use neosh.Token.Service
use neosh.Token.Service.Records.{Absent}
use neosh.Token.Service.Issue.{validate-issue}

pub record RuntimeConfig : Type 0 where
  pub auth_token_ttl : Duration
  pub bind_addr : Text

-- `RuntimeConfig::default()`.
unfoldable pub default_config : RuntimeConfig
default_config = record { auth_token_ttl = from_secs 60; bind_addr = codes "127.0.0.1:30000" }

pub record BootstrapOutput : Type 0 where
  pub session_id : Uuid
  pub auth_token : Text
  pub auth_token_expires_in_seconds : ℕ
  pub quic_addr : Text
  pub cert_fingerprint : Text

pub data RuntimeError : Type 0 where
  session_error : SessionError → RuntimeError
  token_error : TokenError → RuntimeError

pub record NeoshdRuntime : Type 0 where
  pub sessions : SessionManager
  pub tokens : TokenService
  pub config : RuntimeConfig

unfoldable pub with_config : RuntimeConfig → NeoshdRuntime
with_config config = record {
  sessions = Manager.default;
  tokens = Service.default;
  config = config;
}

abbrev pub OwnedBy : Text → Option Session → Type 0
OwnedBy user none = ⊥
OwnedBy user (some s) = s.owner_user_id ≡ user

module _ (hash : Text → ℕ) where
  unfoldable pub issue_bootstrap_for_session :
      NeoshdRuntime → Draw → Uuid → Text → NeoshdRuntime × Result RuntimeError BootstrapOutput
  unfolding session
  issue_bootstrap_for_session rt d session_id user_id =
      let issued = issue_auth_token hash rt.tokens d session_id user_id rt.config.auth_token_ttl in
      (
        record rt { tokens = issued.0 },
        map_err session_error (ok_or (session rt.sessions session_id) SessionError.not_found)
            >>= λ s. ok (record {
              session_id = session_id;
              auth_token = issued.1;
              auth_token_expires_in_seconds = as_secs rt.config.auth_token_ttl;
              quic_addr = s.quic_addr;
              cert_fingerprint = s.cert_fingerprint;
            }),
      )

  -- `none` is the panic of `expect`.
  unfoldable pub new_session :
      NeoshdRuntime → Uuid → Draw → Text → NeoshdRuntime × Option BootstrapOutput
  unfolding create_session issue_bootstrap_for_session
  new_session rt new_id d user_id =
      let created =
        create_session rt.sessions new_id user_id rt.config.bind_addr
          (codes "sha256:local-dev-fingerprint") in
      let issued =
        issue_bootstrap_for_session (record rt { sessions = created.0 }) d created.1 user_id in
      (issued.0, elim issued.1 [ ok out ↦ some out | err _ ↦ none ])

  unfoldable pub renew_auth :
      NeoshdRuntime → Draw → Uuid → Text → NeoshdRuntime × Result RuntimeError BootstrapOutput
  unfolding assert_owner issue_bootstrap_for_session
  renew_auth rt d session_id user_id = elim (assert_owner rt.sessions session_id user_id) [
    | err e ↦ (rt, err (session_error e))
    | ok _ ↦ issue_bootstrap_for_session rt d session_id user_id
  ]

  -- A renewal is granted exactly to the owner of a session that exists, and a refused one changes
  -- nothing.
  pub renew_auth_iff :
      (rt : NeoshdRuntime) (d : Draw) (sid : Uuid) (user : Text)
      → ((is_ok (renew_auth rt d sid user).1 ≡ true) ↔ OwnedBy user (rt.sessions.sessions sid))
        × (is_ok (renew_auth rt d sid user).1 ≡ false → (renew_auth rt d sid user).0 ≡ rt)
  unfolding renew_auth issue_bootstrap_for_session
  renew_auth_iff rt d sid user = elim (Option-cases (rt.sessions.sessions sid)) [
    | inl e ↦ ground (arith, e)
    | inr (s, e) ↦ ground (arith, e, text_eq_iff s.owner_user_id user)
  ]

  -- A new session never panics, and its auth token is accepted for the new session and its user, and
  -- for no other, until its lifetime ends, if its hash is fresh.
  pub new_session-accepts :
      (rt : NeoshdRuntime) (id sid : Uuid) (d : Draw) (user user' : Text) (later : SystemTime)
      → Absent (hash d.raw) rt.tokens.records
      → (out : BootstrapOutput) × ((new_session rt id d user).1 ≡ some out)
        × (out.session_id ≡ id)
        × (((validate_and_consume_auth hash
                (new_session rt id d user).0.tokens
                out.auth_token
                sid
                user'
                later).1
              ≡ ok tt)
            ↔ ((id ≡ sid) × (user ≡ user') × (later < d.now + rt.config.auth_token_ttl)))
  unfolding new_session create_session create_session_with_id issue_bootstrap_for_session session
      issue_auth_token
  new_session-accepts rt id sid d user user' later a = (
    record {
      session_id = id;
      auth_token = d.raw;
      auth_token_expires_in_seconds = as_secs rt.config.auth_token_ttl;
      quic_addr = rt.config.bind_addr;
      cert_fingerprint = codes "sha256:local-dev-fingerprint";
    },
    ground (arith, ==_refl id),
    refl,
    (validate-issue hash rt.tokens d id sid user user' rt.config.auth_token_ttl later a).0,
  )
