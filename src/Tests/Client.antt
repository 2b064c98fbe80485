-- ===== src/Tests/Client.antt =====
-- Examples for src/client/state.rs and the detach hotkey of src/bin/neosh.rs.
use neosh.Client.Reconnect.{disconnected, SessionCacheEntry, Attempt}
use neosh.Client.Reconnect.Checks.{AllChecked}
use neosh.Client.Commands.{resume_cmd}
use neosh.Client.Commands.Checks.{resume_cmd-AllChecked}
use neosh.Client.Bootstrap.{BootstrapPayload}
use neosh.Prelude.{none, ok, err, codes, ℕ, ◌≡◌, refl, List, [], ◌∷◌}
use neosh.Client.State.{
  init, attached, ClientEvent, quic_connected, hello_ack, auth_ok, attach_ok, transition, run,
}

abbrev greeting : List ClientEvent
greeting = quic_connected ∷ hello_ack ∷ auth_ok ∷ attach_ok ∷ []

greeted : run init greeting ≡ ok attached
unfolding run transition
greeted = refl

abbrev cached : SessionCacheEntry
cached = record {
  session_id = 1;
  ssh_target = codes "ann@h";
  resume_token = codes "abc";
  resume_token_expires_at = 500;
  quic_addr = codes "h:1";
  cert_fingerprint = codes "sha256:aa";
  updated_at = 100;
}

abbrev offered : BootstrapPayload
offered = record {
  session_id = 1;
  auth_token = codes "xyz";
  auth_token_expires_in_seconds = 30;
  quic_addr = codes "h:2";
  cert_fingerprint = codes "sha256:aa";
}

-- A round in which ssh fails once and the session is lost.
abbrev losing : ℕ → Attempt
losing _ = record {
  get = ok cached;
  now = 200;
  first_try = err (codes "timeout");
  second_try = ok offered;
  updated_now = 201;
  put = ok tt;
  session = λ _ _. err (disconnected 1);
}

resume_cmd-AllChecked_example :
    AllChecked losing 1 (resume_cmd losing 1 none (losing 0).get (losing 0).now).0
resume_cmd-AllChecked_example = resume_cmd-AllChecked losing 1 none (losing 0).get (losing 0).now
