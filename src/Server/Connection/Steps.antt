-- ===== src/Server/Connection/Steps.antt =====
-- What every message keeps true of the server and of the connection, in `handle_connection` of
-- src/bin/neoshd.rs.
use neosh.Protocol.Messages.{MessageKind, parse_message_kind}
use neosh.Protocol.Dispatcher.{Dispatcher, on_message}
use neosh.Prelude.{
  ◌==◌, Bool-cases, Option-cases, Result, ok, err, Result-cases, Text, Bytes, Uuid, ℕ, ◌≡◌, ◌≢◌,
  inl, inr, Bool, true, false, Option, none, some, arith,
}
use neosh.Session.Manager.{Session, attach_exclusive, terminate}
use neosh.Server.State.{current, ServerState, issue_resume_token}
use neosh.Server.State.Soundness.{IsSound}
use neosh.Server.Wire.{Json, Reply}
use neosh.Server.Errors.{NeoshdError}
use neosh.Server.Terminal.{ensure_pty_runtime}
use neosh.Server.Connection.{
  on_hello, on_attach, on_resize, on_detach, on_close, on_ping, on_auth, on_resume, dispatch,
  handle_message,
}
use neosh.Session.Manager
use neosh.Token.Service
use neosh.Server.Exchange.{
  Conn, Env, Flow, continues, breaks, fails, Outcome, replying, refusing, attaching,
}
use neosh.Terminal.Pty.{System}

-- What the terminal's start leaves alone.
abbrev pub SameSession : ServerState → Result NeoshdError ServerState → Type 0
SameSession st (err e) = Unit {0}
SameSession st (ok st') =
    (st'.session_id ≡ st.session_id)
    × (st'.sessions ≡ st.sessions)
    × (st'.detached_at ≡ st.detached_at)
    × (st'.tokens ≡ st.tokens)

pub ensure_pty_runtime-SameSession :
    (sys : System) (shell : Option Text) (st : ServerState)
    → SameSession st (ensure_pty_runtime sys shell st)
unfolding ensure_pty_runtime
ensure_pty_runtime-SameSession sys shell st = ground arith

-- A connection that owns the session knows the epoch.
abbrev pub Knows : Conn → Option Session → Type 0
Knows c none = ⊥
Knows c (some s) = s.attached_conn_id ≡ some c.conn_id → c.attached_epoch ≡ some s.attach_epoch

abbrev pub KnowsUnlessFailed : Flow → Conn → Option Session → Type 0
KnowsUnlessFailed (fails e) c s = Unit {0}
KnowsUnlessFailed continues c s = Knows c s
KnowsUnlessFailed breaks c s = Knows c s

-- If `x` owns the session afterwards, it owned it before, in the same epoch.
abbrev pub OwnedBefore : Uuid → Option Session → Option Session → Type 0
OwnedBefore x (some s) (some t) =
    t.attached_conn_id ≡ some x → (s.attached_conn_id ≡ some x) × (t.attach_epoch ≡ s.attach_epoch)
OwnedBefore x _ _ = ⊥

-- After a message of `c`: the server is sound, `c` keeps its id and knows the epoch if it owns the
-- session, unless the message failed, and another connection `x` has not become the owner.
pub record Post (x : Uuid) (st : ServerState) (c : Conn) (o : Outcome) : Type 0 where
  pub sound : IsSound o.server
  pub same_session : o.server.session_id ≡ st.session_id
  pub same_id : o.conn.conn_id ≡ c.conn_id
  pub knows : KnowsUnlessFailed o.flow o.conn (current o.server)
  pub owned : OwnedBefore x (current st) (current o.server)

module _ (json : Json) (env : Env) (x : Uuid) (st : ServerState) (c : Conn) (v : IsSound st)
    (k : Knows c (current st)) (n : x ≢ c.conn_id) where
  refusing-Post : (e : NeoshdError) → Post x st c (refusing json env st c e)
  unfolding refusing
  refusing-Post e = ground arith

  replying-Post : (reply : Reply) → Post x st c (replying json env st c reply continues)
  unfolding replying
  replying-Post reply = ground arith

  attaching-Post :
      (reply : ServerState → Reply) (resume : Bool)
      → Post x st c (attaching json env st c reply resume)
  unfolding attaching attach_exclusive
  attaching-Post reply resume = ground (
    arith,
    ensure_pty_runtime-SameSession env.pty_system env.shell (record st {
      sessions = (attach_exclusive st.sessions st.session_id c.conn_id).0;
      detached_at = none;
    }),
  )

  on_detach-Post : Post x st c (on_detach json env st c)
  unfolding on_detach Manager.detach
  on_detach-Post = ground arith

  on_close-Post : Post x st c (on_close json env st c)
  unfolding on_close terminate
  on_close-Post = ground arith

  on_resize-Post : (payload : Bytes) → Post x st c (on_resize json env st c payload)
  unfolding on_resize
  on_resize-Post payload = ground arith

  on_hello-Post : Post x st c (on_hello json env st c)
  unfolding on_hello
  on_hello-Post = ground arith

  on_ping-Post : (payload : Bytes) → Post x st c (on_ping json env st c payload)
  unfolding on_ping
  on_ping-Post payload = ground arith

  -- ATTACH and RESUME refuse, or attach.
  on_attach-Post : (payload : Bytes) → Post x st c (on_attach json env st c payload)
  unfolding on_attach
  on_attach-Post payload = elim (Bool-cases c.authed) [
    | inr e ↦ simp (e) (refusing-Post _)
    | inl e ↦ elim (Result-cases (json.attach_req payload)) [
      | inr (t, q) ↦ simp (e, q) (refusing-Post _)
      | inl (req, q) ↦ elim (Bool-cases (req.session_id == st.session_id)) [
        | inr d ↦ simp (e, q, d) (refusing-Post _)
        | inl d ↦ simp (e, q, d) (attaching-Post _ false)
      ]
    ]
  ]

  module _ (hash : Text → ℕ) where
    on_auth-Post : (payload : Bytes) → Post x st c (on_auth json env hash st c payload)
    unfolding on_auth issue_resume_token
    on_auth-Post payload = ground arith

    on_resume-Post : (payload : Bytes) → Post x st c (on_resume json env hash st c payload)
    unfolding on_resume
    on_resume-Post payload = elim (Bool-cases c.authed) [
      | inr e ↦ simp (e) (refusing-Post _)
      | inl e ↦ elim (Result-cases (json.resume_req payload)) [
        | inr (t, q) ↦ simp (e, q) (refusing-Post _)
        | inl (req, q) ↦ elim (Bool-cases (req.session_id == st.session_id)) [
          | inr d ↦ simp (e, q, d) (refusing-Post _)
          | inl d ↦
              elim (Result-cases (
                Service.validate_resume hash st.tokens req.resume_token st.session_id st.owner_user
                  env.now)) [
                    | inr (t, w) ↦ simp (e, q, d, w) (refusing-Post _)
                    | inl (u, w) ↦ simp (e, q, d, w) (attaching-Post _ true)
                  ]
        ]
      ]
    ]

    dispatch-Post :
        (kind : MessageKind) (payload : Bytes)
        → Post x st c (dispatch json env hash kind st c payload)
    unfolding dispatch
    dispatch-Post MessageKind.hello payload = on_hello-Post
    dispatch-Post MessageKind.auth payload = on_auth-Post payload
    dispatch-Post MessageKind.attach payload = on_attach-Post payload
    dispatch-Post MessageKind.resume payload = on_resume-Post payload
    dispatch-Post MessageKind.resize payload = on_resize-Post payload
    dispatch-Post MessageKind.detach payload = on_detach-Post
    dispatch-Post MessageKind.close payload = on_close-Post
    dispatch-Post MessageKind.ping payload = on_ping-Post payload
    dispatch-Post MessageKind.pong payload = ground arith
    dispatch-Post MessageKind.error payload = ground arith

Post-dispatcher :
    (x : Uuid) (st : ServerState) (c : Conn) (d : Dispatcher) (o : Outcome)
    → Post x st (record c { dispatcher = d }) o
    → Post x st c o
Post-dispatcher x st c d o p = record {
  sound = p.sound;
  same_session = p.same_session;
  same_id = p.same_id;
  knows = p.knows;
  owned = p.owned;
}

-- If the server is sound and the connection knows the epoch if it owns the session, then every
-- message keeps the server sound, keeps the connection its id and, unless the handling failed, its
-- knowledge of the epoch, and makes no other connection the owner.
pub handle_message-Post :
    (json : Json) (env : Env) (hash : Text → ℕ) (x : Uuid) (st : ServerState) (c : Conn)
    (payload : Bytes)
    → IsSound st
    → Knows c (current st)
    → x ≢ c.conn_id
    → Post x st c (handle_message json env hash st c payload)
unfolding handle_message
handle_message-Post json env hash x st c payload v k n =
    elim (Option-cases (parse_message_kind json.envelope payload)) [
      | inl e ↦ rw (e, handle_message) (refusing-Post json env x st c v k n _)
      | inr (kind, e) ↦ elim (Result-cases (on_message c.dispatcher kind).1) [
        | inr (t, q) ↦
            rw (e, handle_message)
              (rw (q, handle_message)
                (Post-dispatcher x st c _ _ (refusing-Post json env x st _ v k n _)))
        | inl (t, q) ↦
            rw (e, handle_message)
              (rw (q, handle_message)
                (Post-dispatcher x st c _ _
                  (dispatch-Post json env x st _ v k n hash kind payload)))
      ]
    ]
