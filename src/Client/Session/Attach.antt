-- ===== src/Client/Session/Attach.antt =====
-- src/bin/neosh.rs and src/bin/neoshd.rs: a handshake that the daemon answers.
use neosh.Prelude.{
  length, ok, Text, Bytes, codes, text_eq, text_eq_refl, Uuid, ◌≤◌, ◌≡◌, refl, some, [], ◌∷◌, ◌++◌,
}
use neosh.Protocol.Framing.{encode_frame}
use neosh.Server.Wire.{max_control_frame}
use neosh.Client.Bootstrap.{BootstrapPayload}
use neosh.Client.Reconnect.{attach, resume}
use neosh.Client.Control.{
  Message, hello, auth, attach_msg, resume_msg, AuthOk, ResumeOk, Serde, send_json, expect_type,
  read_json-encode_frame,
}
use neosh.Client.Session.{check_resume, Env, check_auth, entry_for, enter, handshake, sent, puts}

module _ {Value : Type 0} (json : Serde Value) where
  -- A payload within the limit that is read as a value.
  abbrev pub Reads : Bytes → Value → Type 0
  Reads p v = (length p ≤ max_control_frame) × (json.from_slice p ≡ ok v)

  pub expect_type-encode_frame :
      (p rest : Bytes) (v : Value) (t : Text)
      → Reads p v
      → json.type_of v ≡ some t
      → expect_type json (encode_frame p ++ rest) t ≡ ok (v, rest)
  unfolding expect_type
  expect_type-encode_frame p rest v t (fits, reads) h =
      rw (read_json-encode_frame json p rest v fits reads) (rw h (rw (text_eq_refl t) refl))

  check_auth-ok :
      (v : Value) (a : AuthOk)
      → json.type_of v ≡ some (codes "AUTH_OK")
      → json.auth_ok v ≡ ok a
      → check_auth json v ≡ ok a
  unfolding check_auth text_eq
  check_auth-ok v a h k = rw (h, k) refl

  module _ (env : Env Value) where
    -- The daemon answers HELLO_ACK, AUTH_OK and ATTACH_OK, each within the limit of a frame, the
    -- control stream takes every message, and the cache takes the entry: the client sends HELLO,
    -- AUTH and ATTACH, gives the cache the entry for the session before it attaches, and has read
    -- the three answers and nothing behind them.
    pub handshake-attaches :
        (target : Text) (payload : BootstrapPayload) (p1 p2 p3 rest : Bytes) (v1 v2 v3 : Value)
        (a : AuthOk)
        → ((m : Message) → send_json json env.write_all m ≡ ok tt)
        → env.put ≡ ok tt
        → Reads p1 v1
        → Reads p2 v2
        → Reads p3 v3
        → json.type_of v1 ≡ some (codes "HELLO_ACK")
        → json.type_of v2 ≡ some (codes "AUTH_OK")
        → json.auth_ok v2 ≡ ok a
        → json.type_of v3 ≡ some (codes "ATTACH_OK")
        → handshake json env target payload attach (record {
          recv = encode_frame p1 ++ (encode_frame p2 ++ (encode_frame p3 ++ rest));
          acts = [];
        })
          ≡ (
            record {
              recv = rest;
              acts =
                  sent hello
                  ∷ sent (auth payload.auth_token)
                  ∷ puts (entry_for json env target payload a)
                  ∷ sent (attach_msg a.session_id)
                  ∷ [];
            },
            ok a,
          )
    unfolding handshake enter
    handshake-attaches target payload p1 p2 p3 rest v1 v2 v3 a writes put r1 r2 r3 t1 t2 a2 t3 =
        let e1 =
          expect_type-encode_frame p1 (encode_frame p2 ++ (encode_frame p3 ++ rest)) v1
            (codes "HELLO_ACK") r1 t1 in
        let e2 = read_json-encode_frame json p2 (encode_frame p3 ++ rest) v2 r2.0 r2.1 in
        let e3 = expect_type-encode_frame p3 rest v3 (codes "ATTACH_OK") r3 t3 in
        rw (writes hello) (
          rw e1 (
            rw (writes (auth payload.auth_token)) (
              rw e2 (
                rw (check_auth-ok v2 a t2 a2)
                  (rw put (rw (writes (attach_msg a.session_id)) (rw e3 refl)))))))

    -- The daemon answers HELLO_ACK, AUTH_OK and RESUME_OK instead: the client sends HELLO, AUTH and
    -- RESUME with the token that it had, for the session of AUTH_OK, and gives the cache the new entry before it resumes.
    pub handshake-resumes :
        (target : Text) (payload : BootstrapPayload) (session_id : Uuid) (resume_token : Text)
        (p1 p2 p3 rest : Bytes) (v1 v2 v3 : Value) (a : AuthOk) (r : ResumeOk)
        → ((m : Message) → send_json json env.write_all m ≡ ok tt)
        → env.put ≡ ok tt
        → Reads p1 v1
        → Reads p2 v2
        → Reads p3 v3
        → json.type_of v1 ≡ some (codes "HELLO_ACK")
        → json.type_of v2 ≡ some (codes "AUTH_OK")
        → json.auth_ok v2 ≡ ok a
        → json.type_of v3 ≡ some (codes "RESUME_OK")
        → json.resume_ok v3 ≡ ok r
        → handshake json env target payload (resume session_id resume_token) (record {
          recv = encode_frame p1 ++ (encode_frame p2 ++ (encode_frame p3 ++ rest));
          acts = [];
        })
          ≡ (
            record {
              recv = rest;
              acts =
                  sent hello
                  ∷ sent (auth payload.auth_token)
                  ∷ puts (entry_for json env target payload a)
                  ∷ sent (resume_msg a.session_id resume_token)
                  ∷ [];
            },
            ok a,
          )
    unfolding handshake enter check_resume text_eq
    handshake-resumes target payload sid token p1 p2 p3 rest v1 v2 v3 a r writes put r1 r2 r3 t1 t2
          a2 t3 k3 =
        let e1 =
          expect_type-encode_frame p1 (encode_frame p2 ++ (encode_frame p3 ++ rest)) v1
            (codes "HELLO_ACK") r1 t1 in
        let e2 = read_json-encode_frame json p2 (encode_frame p3 ++ rest) v2 r2.0 r2.1 in
        let e3 = read_json-encode_frame json p3 rest v3 r3.0 r3.1 in
        rw (writes hello) (
          rw e1 (
            rw (writes (auth payload.auth_token)) (
              rw e2 (
                rw (check_auth-ok v2 a t2 a2) (
                  rw put
                    (rw (writes (resume_msg a.session_id token)) (rw e3 (rw t3 (rw k3 refl)))))))))
