-- ===== src/Server/World/Serving.antt =====
-- A connection of src/bin/neoshd.rs that is served to its end takes steps of the daemon with all its tasks.
use neosh.Server.Errors.{NeoshdError}
use neosh.Server.State.{NewArgs, new, current}
use neosh.Server.State.Soundness.{IsSound}
use neosh.Server.World.{start, aborted}
use neosh.Server.World.Invariant.{NotOwner, PeerOk}
use neosh.Server.World.Ownership.{run-IsOk, start-IsOk}
use neosh.Server.Serve.{Served}
use neosh.Prelude.{
  Result, ok, err, Option, none, subst, ◌∙◌, ==_refl, Result-cases, Text, Bytes, Uuid, SystemTime,
  ℕ, ◌≡◌, refl, ap, inl, inr, some, List, [], ◌∷◌,
}
use neosh.Server.State.{ServerState}
use neosh.Server.Wire.{Json, read_control_frame}
use neosh.Server.Exchange.{Outcome, Conn, Env}
use neosh.Server.Connection.{finish, handle_message}
use neosh.Server.Serve.{serve}
use neosh.Server.Serve.Rounds.{Flow-cases}
use neosh.Server.World.{
  Phase, reading, cleaning, ended, World, Event, receives, hangs_up, cleans_up, next_phase,
  set_peer, after_message, on_receive, on_hang_up, on_clean_up, act, run,
}

-- An event of the connection `c`, after it was opened.
abbrev pub IsOwn : Uuid → Event → Type 0
IsOwn c (receives x payload env) = x ≡ c
IsOwn c (hangs_up x) = x ≡ c
IsOwn c (cleans_up x now) = x ≡ c
IsOwn c _ = ⊥

abbrev pub AreOwn : Uuid → List Event → Type 0
AreOwn c [] = Unit {0}
AreOwn c (e ∷ es) = IsOwn c e × AreOwn c es

-- Where a connection stands by what `handle_connection` has returned, if it has.
abbrev pub phase_after : Option (Result NeoshdError (Unit {0})) → Phase
phase_after none = reading
phase_after (some (ok _)) = ended
phase_after (some (err _)) = aborted

-- Some events of `c` alone take the daemon `w` to the server `st`, with `c` as `conn` in that phase.
abbrev pub Reaches : Json → (Text → ℕ) → World → Uuid → ServerState → Conn → Phase → Type 0
Reaches json hash w c st conn phase =
    (es : List Event) × AreOwn c es
    × ((run json hash w es).server ≡ st)
    × ((run json hash w es).peers c ≡ some (conn, phase))

-- What is served is a run of the connection's own events, to its cleanup if the function returned `ok`.
abbrev pub IsRun : Json → (Text → ℕ) → World → Uuid → Served → Type 0
IsRun json hash w c r = Reaches json hash w c r.server r.conn (phase_after r.result)

module _ (json : Json) (hash : Text → ℕ) (c : Uuid) where
  peers-set_peer :
      (w : World) (st : ServerState) (conn : Conn) (phase : Phase)
      → (set_peer w st c conn phase).peers c ≡ some (conn, phase)
  peers-set_peer w st conn phase = rw (==_refl c) refl

  act-hangs_up :
      (w : World) (conn : Conn)
      → w.peers c ≡ some (conn, reading)
      → act json hash w (hangs_up c) ≡ set_peer w w.server c conn cleaning
  unfolding act on_hang_up
  act-hangs_up w conn h = rw h refl

  act-cleans_up :
      (w : World) (conn : Conn) (now : SystemTime)
      → w.peers c ≡ some (conn, cleaning)
      → act json hash w (cleans_up c now) ≡ set_peer w (finish w.server now conn) c conn ended
  unfolding act on_clean_up
  act-cleans_up w conn now h = rw h refl

  act-receives :
      (w : World) (conn : Conn) (payload : Bytes) (env : Env)
      → w.peers c ≡ some (conn, reading)
      → act json hash w (receives c payload env)
        ≡ after_message w c (handle_message json env hash w.server conn payload)
  unfolding act on_receive
  act-receives w conn payload env h = rw h refl

  -- One event of `c`, and then what is reached from there.
  Reaches-first :
      (w w' : World) (e : Event) (st : ServerState) (conn : Conn) (phase : Phase)
      → IsOwn c e
      → act json hash w e ≡ w'
      → Reaches json hash w' c st conn phase
      → Reaches json hash w c st conn phase
  unfolding run
  Reaches-first w w' e st conn phase own step (es, owns, r, at) =
      (e ∷ es, (own, owns), rw (step, run) r, rw (step, run) at)

  Reaches-here :
      (w : World) (conn : Conn) (phase : Phase)
      → w.peers c ≡ some (conn, phase)
      → Reaches json hash w c w.server conn phase
  unfolding run
  Reaches-here w conn phase h = ([], tt, refl, h)

  Reaches-cleanup :
      (w : World) (conn : Conn) (now : SystemTime)
      → w.peers c ≡ some (conn, cleaning)
      → Reaches json hash w c (finish w.server now conn) conn ended
  Reaches-cleanup w conn now h =
      Reaches-first w _ (cleans_up c now) _ conn ended refl (act-cleans_up w conn now h)
        (Reaches-here _ conn ended (peers-set_peer w (finish w.server now conn) conn ended))

  -- What a message leaves, by how its handling lets the loop go on.
  phase-of :
      (o : Outcome) (w : World) (phase : Phase)
      → next_phase o.flow ≡ phase
      → (after_message w c o).peers c ≡ some (o.conn, phase)
  phase-of o w phase h = rw (peers-set_peer w o.server o.conn (next_phase o.flow)) (rw h refl)

  -- The loop of a connection that reads messages, over any bytes and any rounds, is a run of events of
  -- that connection alone, in any daemon: they leave the server that the loop leaves, and the
  -- connection reading if the loop waits, cleaned up if it returned `ok`, and without a cleanup if it
  -- returned an error.
  pub serve-IsRun :
      (envs : List Env) (w : World) (conn : Conn) (recv : Bytes)
      → w.peers c ≡ some (conn, reading)
      → IsRun json hash w c (serve json hash envs w.server conn recv)
  unfolding serve
  serve-IsRun [] w conn recv h = Reaches-here w conn reading h
  serve-IsRun (env ∷ envs) w conn recv h = elim (Result-cases (read_control_frame recv)) [
    | inr (e, q) ↦
        rw (q, serve)
          (Reaches-first w _ (hangs_up c) _ conn ended refl (act-hangs_up w conn h)
            (Reaches-cleanup _ conn env.now (peers-set_peer w w.server conn cleaning)))
    | inl ((payload, rest), q) ↦
        let o = handle_message json env hash w.server conn payload in
        let step = Reaches-first w (after_message w c o) (receives c payload env) in
        let at = act-receives w conn payload env h in
        elim (Flow-cases o.flow) [
          | inl f ↦
              rw (q, serve)
                (rw f (
                  step _ _ _ refl at (
                    serve-IsRun envs (after_message w c o) o.conn rest
                      (phase-of o w reading (ap next_phase f)))))
          | inr (inl f) ↦
              rw (q, serve)
                (rw f (
                  step _ _ _ refl at
                    (Reaches-cleanup _ o.conn env.now (phase-of o w cleaning (ap next_phase f)))))
          | inr (inr (e, f)) ↦
              rw (q, serve)
                (rw f (
                  step _ _ _ refl at
                    (Reaches-here _ o.conn aborted (phase-of o w aborted (ap next_phase f)))))
        ]
  ]

-- After any schedule of the daemon, a connection that reads messages, whatever it sends: if its
-- `handle_connection` returns `ok`, by a detach, a close, the end of the stream or an unreadable frame,
-- it does not own the session any more, and the session is still consistent with its clock.
pub serve-frees :
    (json : Json) (hash : Text → ℕ) (now : SystemTime) (sid : Uuid) (owner : Text) (uid : ℕ)
    (addr fp : Text) (cfg : NewArgs) (es : List Event) (c : Uuid) (conn : Conn) (envs : List Env)
    (recv : Bytes)
    → (run json hash (start (new now sid owner uid addr fp cfg)) es).peers c ≡ some (conn, reading)
    → (serve json hash envs
        (run json hash (start (new now sid owner uid addr fp cfg)) es).server
        conn
        recv).result
      ≡ some (ok tt)
    → let r =
        serve json hash envs
          (run json hash (start (new now sid owner uid addr fp cfg)) es).server
          conn
          recv in
      NotOwner c (current r.server) × IsSound r.server
serve-frees json hash now sid owner uid addr fp cfg es c conn envs recv h k =
    let w = run json hash (start (new now sid owner uid addr fp cfg)) es in
    let r = serve json hash envs w.server conn recv in
    let (own, _, st, at) = serve-IsRun json hash c envs w conn recv h in
    let good =
      run-IsOk json hash w own
        (run-IsOk json hash _ es (start-IsOk now sid owner uid addr fp cfg)) in
    let done : (run json hash w own).peers c ≡ some (r.conn, ended) =
      at ∙ ap (λ x. some (r.conn, phase_after x)) k in
    (
      subst (λ s. NotOwner c (current s)) st
          (subst (λ p. PeerOk c p (current (run json hash w own).server)) done (good.peer c)).1,
      subst (λ s. IsSound s) st good.sound,
    )
