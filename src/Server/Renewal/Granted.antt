-- ===== src/Server/Renewal/Granted.antt =====
-- Who gets a renewal from the socket of src/bin/neoshd.rs, and until when the socket answers.
use neosh.Prelude.{
  is_ok, is_some, all, length, ◌&&◌, suc, if◌then◌else◌, Result, ok, err, map_err, Result-cases,
  Text, Bytes, codes, text_eq_iff, Uuid, ℕ, ◌≡◌, refl, ap, ◌↔◌, ◌⊎◌, inl, inr, Bool, true, false,
  Option, none, some, List, [], ◌∷◌, ◌++◌, arith,
}
use neosh.Token.Service.{Draw}
use neosh.Server.Errors.{NeoshdError, internal}
use neosh.Server.State.{bootstrap_output, BootstrapOutput, ServerState}
use neosh.Server.Loops.{IpcResponse, refused, renewed, ipc_response}
use neosh.Server.Renewal.{
  ipc_read, ipc_write, IpcJson, IpcConn, ipc_round, run_ipc_server, run_renew_auth,
}

-- Each side reads what the other wrote, and a refusal is told by its `error`.
abbrev pub is_refusal : IpcResponse → Bool
is_refusal (refused e) = true
is_refusal (renewed out) = false

pub record IpcAgrees {Value : Type 0} (json : IpcJson Value) : Type 0 where
  pub value : IpcResponse → Value
  pub reads_request :
      (id : Uuid) (user : Text)
      → json.read_request (json.request id user) ≡ ok (record { session_id = id; user = user })
  pub reads_value : (r : IpcResponse) → json.read_value (json.response r) ≡ ok (value r)
  pub tells_error : (r : IpcResponse) → json.has_error (value r) ≡ is_refusal r

-- A connection from a process of the user `uid` that sends `buf`, with a socket that works.
abbrev pub working : ℕ → Bytes → Draw → IpcConn
working uid buf d = record {
  accept = ok tt;
  peer_cred = ok uid;
  read_to_end = ok buf;
  draw = d;
  write_all = ok tt;
  shutdown = ok tt;
}

module _ {Value : Type 0} (json : IpcJson Value) (hash : Text → ℕ) (a : IpcAgrees json) where
  -- What the subcommand prints, when its request is answered by one round of the daemon's loop.
  abbrev pub asks : Text → ServerState → ℕ → Uuid → Text → Draw → Result NeoshdError Text
  asks sock st uid session_id user d =
      run_renew_auth json hash sock session_id user (ok tt) (λ bytes. ok tt) (ok tt)
        (map_err (λ e. codes "connection reset")
          (ipc_round json hash st (working uid (json.request session_id user) d)).1)

  abbrev response_of : ServerState → ℕ → Uuid → Text → Draw → IpcResponse
  response_of st uid session_id user d =
      (ipc_response hash st uid (ok (record { session_id = session_id; user = user })) d).1

  abbrev told : IpcResponse → Result NeoshdError Text
  told r =
      if is_refusal r then err (internal (json.shown (a.value r))) else ok (json.shown (a.value r))

  asks-told :
      (sock : Text) (st : ServerState) (uid : ℕ) (session_id : Uuid) (user : Text) (d : Draw)
      → asks sock st uid session_id user d ≡ told (response_of st uid session_id user d)
  unfolding run_renew_auth ipc_round
  asks-told sock st uid session_id user d = rw (a.reads_request session_id user) (
      rw (a.reads_value (response_of st uid session_id user d))
        (rw (a.tells_error (response_of st uid session_id user d)) refl))

  told-ok :
      (r : IpcResponse) (t : Text) → told r ≡ ok t → (out : BootstrapOutput) × (r ≡ renewed out)
  told-ok (refused e) t h = absurd (cc)
  told-ok (renewed out) t h = (out, refl)

  -- `renew-auth` prints the payload of a new token exactly when its process is of the daemon's own
  -- user and it names the session and its owner, if the socket works on both sides and each side
  -- reads what the other wrote; and the server changes only if it prints something.
  pub renew_auth_asks :
      (sock : Text) (st : ServerState) (uid : ℕ) (session_id : Uuid) (user : Text) (d : Draw)
      → ((asks sock st uid session_id user d
            ≡ ok (json.shown (a.value (renewed (bootstrap_output hash st d).1))))
          ↔ ((uid ≡ st.owner_uid) × (session_id ≡ st.session_id) × (user ≡ st.owner_user)))
        × (((ipc_round json hash st (working uid (json.request session_id user) d)).0 ≡ st)
            ⊎ (asks sock st uid session_id user d
                ≡ ok (json.shown (a.value (renewed (bootstrap_output hash st d).1)))))
  unfolding ipc_round ipc_response
  renew_auth_asks sock st uid session_id user d =
      rw (asks-told sock st uid session_id user d)
        (rw (a.reads_request session_id user) (ground (arith, text_eq_iff user st.owner_user)))

-- Nothing fails on a connection: its credentials, its reads and its writes.
abbrev pub works : IpcConn → Bool
works c =
    is_ok c.accept
    && is_ok c.peer_cred
    && is_ok c.read_to_end
    && is_ok c.write_all
    && is_ok c.shutdown

all-cons :
    (b : IpcConn) (cs : List IpcConn)
    → all works (b ∷ cs) ≡ true
    → (works b ≡ true) × (all works cs ≡ true)
all-cons b cs h = ground (arith, h)

module _ {Value : Type 0} (json : IpcJson Value) (hash : Text → ℕ) where
  run_ipc_server-ok :
      (st : ServerState) (c : IpcConn) (cs : List IpcConn) (bytes : Bytes)
      → (ipc_round json hash st c).1 ≡ ok bytes
      → let rest = run_ipc_server json hash (ipc_round json hash st c).0 cs in
        run_ipc_server json hash st (c ∷ cs) ≡ (rest.0, bytes ∷ rest.1, rest.2)
  unfolding run_ipc_server
  run_ipc_server-ok st c cs bytes q = rw (q, run_ipc_server) refl

  run_ipc_server-err :
      (st : ServerState) (c : IpcConn) (cs : List IpcConn) (e : NeoshdError)
      → (ipc_round json hash st c).1 ≡ err e
      → run_ipc_server json hash st (c ∷ cs) ≡ ((ipc_round json hash st c).0, [], some e)
  unfolding run_ipc_server
  run_ipc_server-err st c cs e q = rw (q, run_ipc_server) refl

  -- A round answers exactly a connection on which nothing fails, whatever it asks for.
  ipc_round-works : (st : ServerState) (c : IpcConn) → is_ok (ipc_round json hash st c).1 ≡ works c
  unfolding ipc_round ipc_read ipc_write
  ipc_round-works st c = ground arith

  ipc_round-ok :
      (st : ServerState) (c : IpcConn)
      → works c ≡ true
      → (bytes : Bytes) × ((ipc_round json hash st c).1 ≡ ok bytes)
  ipc_round-ok st c h = elim (Result-cases (ipc_round json hash st c).1) [
    | inl found ↦ found
    | inr (e, q) ↦ absurd (ground (arith, h, q, ipc_round-works st c))
  ]

  ipc_round-err :
      (st : ServerState) (c : IpcConn)
      → works c ≡ false
      → (e : NeoshdError) × ((ipc_round json hash st c).1 ≡ err e)
  ipc_round-err st c h = elim (Result-cases (ipc_round json hash st c).1) [
    | inl (bytes, q) ↦ absurd (ground (arith, h, q, ipc_round-works st c))
    | inr found ↦ found
  ]

  -- Connections on which nothing fails are each answered, and then the first one on which `accept`,
  -- the peer's credentials, the read, the write or the shutdown fails ends the loop with an error:
  -- whatever connections follow, they get no response and change nothing.
  pub run_ipc_server-ends :
      (st : ServerState) (cs ds : List IpcConn) (c : IpcConn)
      → all works cs ≡ true
      → works c ≡ false
      → let before = run_ipc_server json hash st cs in
        let r = run_ipc_server json hash st (cs ++ c ∷ ds) in
        (before.2 ≡ none)
        × (length before.1 ≡ length cs)
        × (r.0 ≡ (ipc_round json hash before.0 c).0)
        × (r.1 ≡ before.1)
        × (is_some r.2 ≡ true)
  unfolding run_ipc_server
  run_ipc_server-ends st [] ds c h k =
      let (e, q) = ipc_round-err st c k in
      let now = run_ipc_server-err st c ds e q in
      (
        refl,
        refl,
        ap (λ (p : ServerState × List Bytes × Option NeoshdError). p.0) now,
        ap (λ (p : ServerState × List Bytes × Option NeoshdError). p.1) now,
        ap (λ (p : ServerState × List Bytes × Option NeoshdError). is_some p.2) now,
      )
  run_ipc_server-ends st (b ∷ cs) ds c h k =
      let (first, others) = all-cons b cs h in
      let (bytes, q) = ipc_round-ok st b first in
      let now = run_ipc_server-ok st b cs bytes q in
      let later = run_ipc_server-ok st b (cs ++ c ∷ ds) bytes q in
      let (lives, answers, server, same, ends) =
        run_ipc_server-ends (ipc_round json hash st b).0 cs ds c others k in
      rw (now, later) (lives, ap suc answers, server, ap (λ t. bytes ∷ t) same, ends)
