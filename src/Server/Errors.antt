-- ===== src/Server/Errors.antt =====
-- The errors of src/bin/neoshd.rs and the error frames that clients get for them.
use neosh.Prelude.{Text, codes, Bool, true, false, ◌++◌}
use neosh.Protocol.Messages.{ErrorMessage}
use neosh.Session.Manager.{SessionError}
use neosh.Token.Service.{TokenError}

pub data NeoshdError : Type 0 where
  config io quinn protocol internal : Text → NeoshdError
  auth_failed session_not_found session_expired attach_denied : NeoshdError

-- The `#[error(…)]` texts; an error of another library is its text.
unfoldable pub to_string : NeoshdError → Text
to_string (config e) = codes "config error: " ++ e
to_string (io e) = codes "io error: " ++ e
to_string (quinn e) = codes "quic error: " ++ e
to_string (protocol e) = codes "protocol error: " ++ e
to_string (internal e) = codes "internal error: " ++ e
to_string auth_failed = codes "auth failed"
to_string session_not_found = codes "session not found"
to_string session_expired = codes "session expired"
to_string attach_denied = codes "attach denied"

unfoldable pub code_of : NeoshdError → Text × Bool
code_of auth_failed = (codes "AUTH_FAILED", false)
code_of session_not_found = (codes "SESSION_NOT_FOUND", false)
code_of session_expired = (codes "SESSION_EXPIRED", false)
code_of attach_denied = (codes "ATTACH_DENIED", false)
code_of (protocol _) = (codes "PROTOCOL_ERROR", false)
code_of (internal _) = (codes "INTERNAL_ERROR", true)
code_of (io _) = (codes "INTERNAL_ERROR", true)
code_of (quinn _) = (codes "INTERNAL_ERROR", true)
code_of (config _) = (codes "INTERNAL_ERROR", true)

unfoldable pub error_frame_for : NeoshdError → ErrorMessage
unfolding code_of to_string
error_frame_for e = record {
  msg_type = codes "ERROR";
  code = (code_of e).0;
  message = to_string e;
  retryable = (code_of e).1;
}

unfoldable pub map_token_auth_error : TokenError → NeoshdError
map_token_auth_error TokenError.binding_mismatch = auth_failed
map_token_auth_error TokenError.consumed = auth_failed
map_token_auth_error TokenError.expired = auth_failed
map_token_auth_error TokenError.not_found = auth_failed
map_token_auth_error TokenError.revoked = auth_failed
map_token_auth_error TokenError.type_mismatch = auth_failed

unfoldable pub map_token_resume_error : TokenError → NeoshdError
map_token_resume_error TokenError.expired = session_expired
map_token_resume_error TokenError.revoked = session_expired
map_token_resume_error TokenError.binding_mismatch = auth_failed
map_token_resume_error TokenError.consumed = auth_failed
map_token_resume_error TokenError.not_found = auth_failed
map_token_resume_error TokenError.type_mismatch = auth_failed

unfoldable pub map_session_error : SessionError → NeoshdError
map_session_error SessionError.not_found = session_not_found
map_session_error SessionError.attach_denied = attach_denied
map_session_error SessionError.invalid_state = session_expired
map_session_error SessionError.permission_denied = auth_failed
