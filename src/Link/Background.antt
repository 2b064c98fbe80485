-- ===== src/Link/Background.antt =====
-- What the background tasks of src/bin/neosh.rs do to a session that is attached: to the daemon of
-- src/bin/neoshd.rs, and to the client's own watcher of the control stream.
use neosh.Server.Exchange.{done, Conn, Env, continues, Outcome}
use neosh.Protocol.Framing.{encode_frame}
use neosh.Client.Control.{read_json, Message, Serde, ping, resize, read_json-encode_frame}
use neosh.Server.Wire.{read_exact, Json, Reply, pong}
use neosh.Prelude.{
  Option-cases, Result, ok, err, Text, Bytes, text_eq, ℕ, zero, suc, ◌≡◌, refl, ap, subst, ◌∙◌, inl,
  inr, Option, none, some, List, [], ◌∷◌, ◌++◌, map, arith,
}
use neosh.Protocol.Messages.{parse_message_kind, parse_message_kind_iff}
use neosh.Protocol.Dispatcher.{attached, on_message}
use neosh.Terminal.Pty
use neosh.Terminal.Pty.{LivePty}
use neosh.Server.State.{ServerState}
use neosh.Server.Connection.{handle_message, dispatch, on_ping, on_resize}
use neosh.Server.Serve.{behind, serve}
use neosh.Client.Session.Watch.{on_frame, watch_next, control_watch_loop}
use neosh.Client.Tasks.{
  Beat, slept, nonce_of, keepalive_task, Winch, changed, watch_sizes, resize_watch_task,
}
use neosh.Link.{kind_of, Agrees, up_frames, down_frames, FitsUp, FitsDown}
use neosh.Link.Daemon.{Writes, replied, replying-Writes, parse_message_kind-up}
use neosh.Link.Handshake.{serve-up}

-- What both tasks send.
pub data IsBackground : Message → Type 0 where
  keeps_alive : (nonce : Text) → IsBackground (ping nonce)
  resizes : (rows cols : ℕ) → IsBackground (resize rows cols)

abbrev pub AreBackground : List Message → Type 0
AreBackground [] = Unit {0}
AreBackground (m ∷ ms) = IsBackground m × AreBackground ms

keepalive_task-AreBackground : (beats : List Beat) → AreBackground (keepalive_task beats)
unfolding keepalive_task
keepalive_task-AreBackground [] = tt
keepalive_task-AreBackground (Beat.detached ∷ beats) = tt
keepalive_task-AreBackground (slept now ∷ beats) =
    (keeps_alive (nonce_of now), keepalive_task-AreBackground beats)

watch_sizes-AreBackground : (ws : List Winch) → AreBackground (watch_sizes ws)
unfolding watch_sizes
watch_sizes-AreBackground [] = tt
watch_sizes-AreBackground (Winch.detached ∷ ws) = tt
watch_sizes-AreBackground (changed none ∷ ws) = watch_sizes-AreBackground ws
watch_sizes-AreBackground (changed (some (rows, cols)) ∷ ws) =
    (resizes rows cols, watch_sizes-AreBackground ws)

-- Both tasks send on the one stream, each under the lock: their messages are merged.
pub data Merges : List Message → List Message → List Message → Type 0 where
  both_end : Merges [] [] []
  first_sends :
      (m : Message) (ls rs ms : List Message) → Merges ls rs ms → Merges (m ∷ ls) rs (m ∷ ms)
  second_sends :
      (m : Message) (ls rs ms : List Message) → Merges ls rs ms → Merges ls (m ∷ rs) (m ∷ ms)

Merges-AreBackground :
    {ls rs ms : List Message}
    → Merges ls rs ms
    → AreBackground ls
    → AreBackground rs
    → AreBackground ms
Merges-AreBackground both_end h k = tt
Merges-AreBackground (first_sends m ls rs ms w) h k = (h.0, Merges-AreBackground w h.1 k)
Merges-AreBackground (second_sends m ls rs ms w) h k = (k.0, Merges-AreBackground w h k.1)

resize_watch_task-AreBackground :
    (r : Result Text (List Winch)) → AreBackground (resize_watch_task r)
unfolding resize_watch_task
resize_watch_task-AreBackground (err e) = tt
resize_watch_task-AreBackground (ok ws) = watch_sizes-AreBackground ws

-- A connection that is attached.
abbrev pub upheld : Conn → Conn
upheld c = record c { dispatcher = record { state = attached } }

-- The terminal, if there is one, takes the size.
abbrev pub TakesSize : Env → Option LivePty → ℕ → ℕ → Type 0
TakesSize env none rows cols = Unit {0}
TakesSize env (some pty) rows cols = Pty.resize env.pty_system pty rows cols ≡ ok tt

abbrev pub replies_to : Message → List Reply
replies_to (ping nonce) = pong nonce ∷ []
replies_to _ = []

abbrev pub all_replies : List Message → List Reply
all_replies [] = []
all_replies (m ∷ ms) = replies_to m ++ all_replies ms

module _ {Value : Type 0} {cl : Serde Value} {json : Json} (a : Agrees cl json)
    (hash : Text → ℕ) where
  -- What a message needs to be served.
  abbrev pub Fares : ServerState → Env × Message → Type 0
  Fares st (env, ping nonce) = Writes json env × FitsUp a (ping nonce) × FitsDown a (pong nonce)
  Fares st (env, resize rows cols) = TakesSize env st.pty rows cols × FitsUp a (resize rows cols)
  Fares st (env, _) = Unit {0}

  abbrev pub AllFare : ServerState → List (Env × Message) → Type 0
  AllFare st [] = Unit {0}
  AllFare st (t ∷ ts) = Fares st t × AllFare st ts

  handle_message-ping :
      (env : Env) (st : ServerState) (c : Conn) (nonce : Text)
      → Writes json env
      → handle_message json env hash st (upheld c) (a.up (ping nonce))
        ≡ replied st (upheld c) (pong nonce)
  unfolding handle_message on_message dispatch on_ping
  handle_message-ping env st c nonce w =
      rw (parse_message_kind-up a env hash w (ping nonce), handle_message)
        (rw (a.reads_fields (ping nonce), on_ping)
          (replying-Writes a env hash w st (upheld c) (pong nonce)))

  on_resize-takes :
      (env : Env) (st : ServerState) (c : Conn) (rows cols : ℕ)
      → TakesSize env st.pty rows cols
      → on_resize json env st c (a.up (resize rows cols)) ≡ done st c continues
  unfolding on_resize
  on_resize-takes env st c rows cols w =
      rw (a.reads_fields (resize rows cols), on_resize)
        (elim (Option-cases st.pty) [
          | inl q ↦ simp (q)
          | inr (pty, q) ↦ let works = subst (λ p. TakesSize env p rows cols) q w in simp (q, works)
        ])

  parse-up : (m : Message) → parse_message_kind json.envelope (a.up m) ≡ some (kind_of m)
  parse-up m = (parse_message_kind_iff json.envelope (a.up m) (kind_of m)).1 (a.reads_type m)

  handle_message-resize :
      (env : Env) (st : ServerState) (c : Conn) (rows cols : ℕ)
      → TakesSize env st.pty rows cols
      → handle_message json env hash st (upheld c) (a.up (resize rows cols))
        ≡ done st (upheld c) continues
  unfolding handle_message on_message dispatch
  handle_message-resize env st c rows cols w =
      rw (parse-up (resize rows cols), handle_message)
        (on_resize-takes env st (upheld c) rows cols w)

  -- What the daemon does with one of them.
  abbrev answered : ServerState → Conn → Message → Outcome
  answered st c m = record {
    server = st;
    conn = upheld c;
    sent = replies_to m;
    plane = none;
    flow = continues;
  }

  handle_message-background :
      (env : Env) (st : ServerState) (c : Conn) (m : Message)
      → IsBackground m
      → Fares st (env, m)
      → FitsUp a m × (handle_message json env hash st (upheld c) (a.up m) ≡ answered st c m)
  handle_message-background env st c _ (keeps_alive nonce) (w, up, down) =
      (up, handle_message-ping env st c nonce w)
  handle_message-background env st c _ (resizes rows cols) (w, up) =
      (up, handle_message-resize env st c rows cols w)

  serve-background :
      (st : ServerState) (c : Conn) (ts : List (Env × Message))
      → AreBackground (map (λ t. t.1) ts)
      → AllFare st ts
      → serve json hash (map (λ t. t.0) ts) st (upheld c) (up_frames a (map (λ t. t.1) ts))
        ≡ record {
          server = st;
          conn = upheld c;
          replies = all_replies (map (λ t. t.1) ts);
          planes = [];
          unread = [];
          result = none;
        }
  unfolding serve
  serve-background st c [] b h = refl
  serve-background st c ((env, m) ∷ ts) (b, bs) (h, hs) =
      let one = handle_message-background env st c m b h in
      serve-up a hash env (map (λ t. t.0) ts) st (upheld c) m (map (λ t. t.1) ts) _ one.0 one.1 refl
      ∙ ap (behind (answered st c m)) (serve-background st c ts bs hs)

  -- The client's watcher reads past an answer.
  watch-pong :
      (unknown : Value → Value) (fuel : ℕ) (nonce : Text) (rest : Bytes)
      → FitsDown a (pong nonce)
      → control_watch_loop cl unknown (suc fuel) (encode_frame (a.down (pong nonce)) ++ rest)
        ≡ control_watch_loop cl unknown fuel rest
  unfolding control_watch_loop watch_next on_frame text_eq
  watch-pong unknown fuel nonce rest fits =
      ap (watch_next cl unknown (control_watch_loop cl unknown fuel)) (
        read_json-encode_frame cl (a.down (pong nonce)) rest (a.value (pong nonce)) fits
          (a.reads_value (pong nonce)))
      ∙ rw (a.value_type (pong nonce), watch_next) refl

  watch-background :
      (unknown : Value → Value) (fuel : ℕ) (st : ServerState) (ts : List (Env × Message))
      → AreBackground (map (λ t. t.1) ts)
      → AllFare st ts
      → control_watch_loop cl unknown fuel (down_frames a (all_replies (map (λ t. t.1) ts))) ≡ none
  unfolding control_watch_loop watch_next read_json read_exact
  watch-background unknown zero st ts b h = refl
  watch-background unknown (suc fuel) st [] b h = ground (arith)
  watch-background unknown (suc fuel) st ((env, _) ∷ ts) (keeps_alive nonce, bs)
        ((w, up, down), hs) =
      watch-pong unknown fuel nonce (down_frames a (all_replies (map (λ t. t.1) ts))) down
      ∙ watch-background unknown fuel st ts bs hs
  watch-background unknown (suc fuel) st ((env, _) ∷ ts) (resizes rows cols, bs) (h, hs) =
      watch-background unknown (suc fuel) st ts bs hs

  -- While the session is attached, whatever wakes the keepalive task and the resize task and in
  -- whatever order their messages reach the daemon, if the messages and the PONGs are within the
  -- limit of a frame, the PONGs can be written and the terminal takes the sizes: the daemon reads
  -- them all, answers each PING with a PONG of its nonce and nothing else, keeps the connection and
  -- its state, and the client's watcher makes no signal of the answers.
  pub background_harmless :
      (beats : List Beat) (winch : Result Text (List Winch)) (st : ServerState) (c : Conn)
      (ts : List (Env × Message)) (unknown : Value → Value) (fuel : ℕ)
      → Merges (keepalive_task beats) (resize_watch_task winch) (map (λ t. t.1) ts)
      → AllFare st ts
      → let r =
          serve json hash (map (λ t. t.0) ts) st (upheld c) (up_frames a (map (λ t. t.1) ts)) in
        (r ≡ record {
          server = st;
          conn = upheld c;
          replies = all_replies (map (λ t. t.1) ts);
          planes = [];
          unread = [];
          result = none;
        })
        × (control_watch_loop cl unknown fuel (down_frames a r.replies) ≡ none)
  background_harmless beats winch st c ts unknown fuel m h =
      let b =
        Merges-AreBackground m (keepalive_task-AreBackground beats)
          (resize_watch_task-AreBackground winch) in
      let served = serve-background st c ts b h in
      (served, rw (served) (watch-background unknown fuel st ts b h))
