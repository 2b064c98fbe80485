-- ===== src/Server/Serve/Rounds.antt =====
-- The rounds of the loop of `handle_connection` in src/bin/neoshd.rs: what one of them does, and how many
-- there are.
use neosh.Prelude.{
  is_some, length, take, drop, length-drop, ok, Result-cases, Text, Bytes, ℕ, ◌≤◌, ◌<◌, ◌≡◌, refl,
  subst, ◌⊎◌, inl, inr, true, List, [], ◌∷◌, ◌++◌, arith,
}
use neosh.Protocol.Framing.{encode_frame}
use neosh.Server.State.{ServerState}
use neosh.Server.Wire.{
  Json, read_control_frame, read_exact, header_len, max_control_frame,
  read_control_frame-encode_frame,
}
use neosh.Server.Exchange.{Conn, Env, Flow, continues, breaks, fails, Outcome}
use neosh.Server.Connection.{handle_message}
use neosh.Server.Serve.{NeoshdError, leaves, behind, serve}

pub Flow-cases : (f : Flow) → (f ≡ continues) ⊎ ((f ≡ breaks) ⊎ ((e : NeoshdError) × (f ≡ fails e)))
Flow-cases continues = inl refl
Flow-cases breaks = inr (inl refl)
Flow-cases (fails e) = inr (inr (e, refl))

module _ (json : Json) (hash : Text → ℕ) where
  serve-encode_frame_message :
      (env : Env) (envs : List Env) (st : ServerState) (c : Conn) (payload rest : Bytes)
      → length payload ≤ max_control_frame
      → let o = handle_message json env hash st c payload in
        o.flow ≡ continues
        → serve json hash (env ∷ envs) st c (encode_frame payload ++ rest)
          ≡ behind o (serve json hash envs o.server o.conn rest)
  unfolding serve
  serve-encode_frame_message env envs st c payload rest fits f =
      rw (read_control_frame-encode_frame payload rest fits, serve) (rw f refl)

  -- A message whose handling lets the loop go on.
  pub serve-encode_frame :
      (env : Env) (envs : List Env) (st : ServerState) (c : Conn) (payload rest : Bytes)
      (o : Outcome)
      → length payload ≤ max_control_frame
      → handle_message json env hash st c payload ≡ o
      → o.flow ≡ continues
      → serve json hash (env ∷ envs) st c (encode_frame payload ++ rest)
        ≡ behind o (serve json hash envs o.server o.conn rest)
  serve-encode_frame env envs st c payload rest o fits e =
      subst
        (λ (o : Outcome).
          o.flow ≡ continues
          → serve json hash (env ∷ envs) st c (encode_frame payload ++ rest)
            ≡ behind o (serve json hash envs o.server o.conn rest))
        e (serve-encode_frame_message env envs st c payload rest fits)

  -- A message whose handling breaks the loop: the cleanup follows.
  pub serve-encode_frame_breaks :
      (env : Env) (envs : List Env) (st : ServerState) (c : Conn) (payload rest : Bytes)
      → length payload ≤ max_control_frame
      → let o = handle_message json env hash st c payload in
        o.flow ≡ breaks
        → serve json hash (env ∷ envs) st c (encode_frame payload ++ rest)
          ≡ behind o (leaves o.server o.conn env.now rest)
  unfolding serve
  serve-encode_frame_breaks env envs st c payload rest fits f =
      rw (read_control_frame-encode_frame payload rest fits, serve) (rw f refl)

  read_control_frame-shorter :
      (recv payload rest : Bytes)
      → read_control_frame recv ≡ ok (payload, rest)
      → length rest < length recv
  unfolding read_control_frame read_exact
  read_control_frame-shorter recv payload rest h =
      ground (arith, h, length-drop 4 recv, length-drop (header_len (take 4 recv)) (drop 4 recv))

  -- The loop of a connection, on the bytes that arrive before the stream ends, returns, with the cleanup
  -- or with an error, within a round more than there are bytes.
  pub serve-returns :
      (envs : List Env) (st : ServerState) (c : Conn) (recv : Bytes)
      → length recv < length envs
      → is_some (serve json hash envs st c recv).result ≡ true
  unfolding serve
  serve-returns [] st c recv h = absurd (omega arith)
  serve-returns (env ∷ envs) st c recv h = elim (Result-cases (read_control_frame recv)) [
    | inr (e, q) ↦ rw (q, serve) refl
    | inl ((payload, rest), q) ↦
        elim (Flow-cases (handle_message json env hash st c payload).flow) [
          | inl f ↦
              rw (q, serve)
                (rw f (
                  serve-returns envs _ _ rest
                    (omega (arith, read_control_frame-shorter recv payload rest q, h))))
          | inr (inl f) ↦ rw (q, serve) (rw f refl)
          | inr (inr (e, f)) ↦ rw (q, serve) (rw f refl)
        ]
  ]
