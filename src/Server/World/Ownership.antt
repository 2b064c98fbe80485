-- ===== src/Server/World/Ownership.antt =====
-- Who owns the session over every interleaving of the tasks of src/bin/neoshd.rs.
use neosh.Prelude.{
  Text, Bytes, Uuid, SystemTime, ℕ, suc, ◌≡◌, refl, subst, ◌∙◌, ◌≢◌, Option, none, some, List, [],
  ◌∷◌, arith,
}
use neosh.Session.Manager.{Session}
use neosh.Session.Manager
use neosh.Server.State.{append_replay, NewArgs, new, current}
use neosh.Server.State.Soundness.{new-IsSound, IsSound}
use neosh.Server.Exchange.{opened, Env}
use neosh.Server.Connection.{finish}
use neosh.Server.Connection.Steps.{handle_message-Post}
use neosh.Server.Loops.{sweep_tick}
use neosh.Server.World.{
  on_receive, on_open, on_hang_up, on_clean_up, Json, reading, cleaning, ended, aborted, Peer,
  World, Event, opens, receives, hangs_up, cleans_up, shell_exits, outputs, checks, renews, sweeps,
  act, run, start,
}
use neosh.Server.World.Invariant.{
  NotOwner, PeerOk, IsOk, accept_checks-OwnedBefore, ipc_response-OwnedBefore, finish-frees,
  OwnedBefore-refl, set_peer-IsOk, server-IsOk, PhaseOk-next,
}

module _ (json : Json) (hash : Text → ℕ) where
  on_open-IsOk :
      (w : World) (c : Uuid) (p : Option Peer)
      → w.peers c ≡ p
      → IsOk w
      → IsOk (on_open json hash w c p)
  unfolding on_open opened
  on_open-IsOk w c none e h =
      set_peer-IsOk w w.server c _ reading h h.sound (λ x n. OwnedBefore-refl x w.server h.sound)
        refl (ground (arith, h.sound, h.peer c, e))
  on_open-IsOk w c (some p) e h = h

  on_receive-IsOk :
      (w : World) (c : Uuid) (payload : Bytes) (env : Env) (p : Option Peer)
      → w.peers c ≡ p
      → IsOk w
      → IsOk (on_receive json hash w c payload env p)
  unfolding on_receive
  on_receive-IsOk w c payload env none e h = h
  on_receive-IsOk w c payload env (some (conn, reading)) e h =
      let own : PeerOk c (some (conn, reading)) (current w.server) =
        subst (λ q. PeerOk c q (current w.server)) e (h.peer c) in
      let post = λ (x : Uuid) (n : x ≢ conn.conn_id).
        handle_message-Post json env hash x w.server conn payload h.sound own.1 n in
      let first = post (suc c) (λ q. absurd (omega (arith, own.0))) in
      set_peer-IsOk w _ c _ _ h first.sound (λ x n. (post x (λ q. n (q ∙ own.0))).owned)
        (first.same_id ∙ own.0) (PhaseOk-next c _ _ _ first.knows)
  on_receive-IsOk w c payload env (some (conn, _)) e h = h

  on_hang_up-IsOk :
      (w : World) (c : Uuid) (p : Option Peer)
      → w.peers c ≡ p
      → IsOk w
      → IsOk (on_hang_up json hash w c p)
  unfolding on_hang_up
  on_hang_up-IsOk w c none e h = h
  on_hang_up-IsOk w c (some (conn, reading)) e h =
      let own : PeerOk c (some (conn, reading)) (current w.server) =
        subst (λ q. PeerOk c q (current w.server)) e (h.peer c) in
      set_peer-IsOk w w.server c conn cleaning h h.sound
        (λ x n. OwnedBefore-refl x w.server h.sound) own.0 own.1
  on_hang_up-IsOk w c (some (conn, _)) e h = h

  on_clean_up-IsOk :
      (w : World) (c : Uuid) (now : SystemTime) (p : Option Peer)
      → w.peers c ≡ p
      → IsOk w
      → IsOk (on_clean_up json hash w c now p)
  unfolding on_clean_up
  on_clean_up-IsOk w c now none e h = h
  on_clean_up-IsOk w c now (some (conn, cleaning)) e h =
      let own : PeerOk c (some (conn, cleaning)) (current w.server) =
        subst (λ q. PeerOk c q (current w.server)) e (h.peer c) in
      let freed = λ (x : Uuid). finish-frees x w.server now conn h.sound own.1 in
      set_peer-IsOk w _ c conn ended h (freed c).0 (λ x n. (freed x).2) own.0
        (subst (λ y. NotOwner y (current (finish w.server now conn))) own.0 (freed c).1)
  on_clean_up-IsOk w c now (some (conn, _)) e h = h

  pub act-IsOk : (w : World) (e : Event) → IsOk w → IsOk (act json hash w e)
  unfolding act
  act-IsOk w (opens c) h = on_open-IsOk w c (w.peers c) refl h
  act-IsOk w (receives c payload env) h = on_receive-IsOk w c payload env (w.peers c) refl h
  act-IsOk w (hangs_up c) h = on_hang_up-IsOk w c (w.peers c) refl h
  act-IsOk w (cleans_up c now) h = on_clean_up-IsOk w c now (w.peers c) refl h
  act-IsOk w shell_exits h = server-IsOk w _ h h.sound (λ x. OwnedBefore-refl x w.server h.sound)
  act-IsOk w (outputs chunk) h =
      server-IsOk w _ h (unfold append_replay in h.sound)
        (λ x. unfold append_replay in OwnedBefore-refl x w.server h.sound)
  act-IsOk w (checks now later) h =
      let after = λ (x : Uuid). accept_checks-OwnedBefore x w.server now later h.sound in
      server-IsOk w _ h (after 0).0 (λ x. (after x).1)
  act-IsOk w (renews uid req d) h =
      let after = λ (x : Uuid). ipc_response-OwnedBefore x hash w.server uid req d h.sound in
      server-IsOk w _ h (after 0).0 (λ x. (after x).1)
  act-IsOk w (sweeps now) h =
      server-IsOk w _ h (unfold sweep_tick in h.sound)
        (λ x. unfold sweep_tick in OwnedBefore-refl x w.server h.sound)

  pub run-IsOk : (w : World) (es : List Event) → IsOk w → IsOk (run json hash w es)
  unfolding run
  run-IsOk w [] h = h
  run-IsOk w (e ∷ es) h = run-IsOk (act json hash w e) es (act-IsOk w e h)

pub start-IsOk :
    (now : SystemTime) (sid : Uuid) (owner : Text) (uid : ℕ) (addr fp : Text) (cfg : NewArgs)
    → IsOk (start (new now sid owner uid addr fp cfg))
unfolding start new Manager.create_session_with_id
start-IsOk now sid owner uid addr fp cfg = record {
  sound = new-IsSound now sid owner uid addr fp cfg;
  peer = λ c. ground arith;
}

abbrev pub Owner : Uuid → Option Session → Type 0
Owner c none = ⊥
Owner c (some s) = s.attached_conn_id ≡ some c

-- A connection that is open, with the epoch of the session, or that returned with an error.
abbrev pub IsServed : Option Peer → Option Session → Type 0
IsServed (some (conn, reading)) (some s) = conn.attached_epoch ≡ some s.attach_epoch
IsServed (some (conn, cleaning)) (some s) = conn.attached_epoch ≡ some s.attach_epoch
IsServed (some (conn, aborted)) s = Unit {0}
IsServed _ _ = ⊥

PeerOk-IsServed :
    (c : Uuid) (p : Option Peer) (s : Option Session) → PeerOk c p s → Owner c s → IsServed p s
PeerOk-IsServed c none s h o = ground arith
PeerOk-IsServed c (some (conn, reading)) s h o = ground arith
PeerOk-IsServed c (some (conn, cleaning)) s h o = ground arith
PeerOk-IsServed c (some (conn, ended)) s h o = ground arith
PeerOk-IsServed c (some (conn, aborted)) s h o = tt

-- Over every interleaving, from the start of the daemon: a connection that owns the session is one
-- that is still served and holds the epoch of the session, or that returned from its handler with
-- an error. So no connection that ended by its cleanup keeps the session, and the session is never
-- owned by a connection that was never opened.
pub Owner-IsServed :
    (json : Json) (hash : Text → ℕ) (now : SystemTime) (sid : Uuid) (owner : Text) (uid : ℕ)
    (addr fp : Text) (cfg : NewArgs) (es : List Event) (c : Uuid)
    → Owner c (current (run json hash (start (new now sid owner uid addr fp cfg)) es).server)
    → let w = run json hash (start (new now sid owner uid addr fp cfg)) es in
      IsServed (w.peers c) (current w.server)
Owner-IsServed json hash now sid owner uid addr fp cfg es c o =
    let w = run json hash (start (new now sid owner uid addr fp cfg)) es in
    PeerOk-IsServed c (w.peers c) (current w.server)
      ((run-IsOk json hash _ es (start-IsOk now sid owner uid addr fp cfg)).peer c) o

-- Over every interleaving, from the start of the daemon: the session is there, consistent, detached
-- only while its clock runs, and owned by nobody while its clock runs.
pub run-IsSound :
    (json : Json) (hash : Text → ℕ) (now : SystemTime) (sid : Uuid) (owner : Text) (uid : ℕ)
    (addr fp : Text) (cfg : NewArgs) (es : List Event)
    → IsSound (run json hash (start (new now sid owner uid addr fp cfg)) es).server
run-IsSound json hash now sid owner uid addr fp cfg es =
    (run-IsOk json hash _ es (start-IsOk now sid owner uid addr fp cfg)).sound
