-- ===== src/Server/World/Invariant.antt =====
-- The invariant of the daemon of src/bin/neoshd.rs over its schedules, and what its parts keep of it.
use neosh.Prelude.{
  ◌==◌, ==_iff, Bool-cases, all, Result, ok, err, Text, Uuid, SystemTime, ℕ, ◌≡◌, subst, ◌≢◌, ◌⊎◌,
  inl, inr, true, false, Option, none, some, arith,
}
use neosh.Session.Manager.{Session}
use neosh.Session.Manager
use neosh.Token.Service.{Draw}
use neosh.Server.State.{
  ServerState, current, finalize_connection_cleanup, expire_if_initial_attach_timeout,
  expire_if_detached_timeout, bootstrap_output,
}
use neosh.Server.State.Soundness.{IsSound}
use neosh.Server.Exchange.{Conn, Flow, continues, breaks, fails}
use neosh.Server.Connection.{finish}
use neosh.Server.Connection.Steps.{Knows, KnowsUnlessFailed, OwnedBefore}
use neosh.Server.Loops.{RenewIpcReq, accept_checks, ipc_response}
use neosh.Server.World.{Phase, reading, cleaning, ended, aborted, Peer, World, next_phase, set_peer}

abbrev pub NotOwner : Uuid → Option Session → Type 0
NotOwner c none = ⊥
NotOwner c (some s) = s.attached_conn_id ≢ some c

-- What is known of a connection in each phase. One that is still served knows the epoch if it owns
-- the session, and one that has ended, or never was, does not own it.
abbrev pub PhaseOk : Uuid → Phase → Conn → Option Session → Type 0
PhaseOk c reading conn s = Knows conn s
PhaseOk c cleaning conn s = Knows conn s
PhaseOk c ended conn s = NotOwner c s
PhaseOk c aborted conn s = Unit {0}

abbrev pub PeerOk : Uuid → Option Peer → Option Session → Type 0
PeerOk c none s = NotOwner c s
PeerOk c (some (conn, phase)) s = (conn.conn_id ≡ c) × PhaseOk c phase conn s

pub record IsOk (w : World) : Type 0 where
  pub sound : IsSound w.server
  pub peer : (c : Uuid) → PeerOk c (w.peers c) (current w.server)

-- A peer that does nothing stays as it should be, if it has not become the owner.
pub PeerOk-OwnedBefore :
    (x : Uuid) (p : Option Peer) (s t : Option Session)
    → OwnedBefore x s t
    → PeerOk x p s
    → PeerOk x p t
PeerOk-OwnedBefore x none s t o h = ground arith
PeerOk-OwnedBefore x (some (conn, reading)) s t o h = ground arith
PeerOk-OwnedBefore x (some (conn, cleaning)) s t o h = ground arith
PeerOk-OwnedBefore x (some (conn, ended)) s t o h = ground arith
PeerOk-OwnedBefore x (some (conn, aborted)) s t o h = ground arith

-- The steps that are not a message: nobody becomes the owner.
pub accept_checks-OwnedBefore :
    (x : Uuid) (st : ServerState) (now later : SystemTime)
    → IsSound st
    → IsSound (accept_checks st now later).0
      × OwnedBefore x (current st) (current (accept_checks st now later).0)
unfolding accept_checks expire_if_initial_attach_timeout expire_if_detached_timeout Manager.expire
accept_checks-OwnedBefore x st now later v = ground arith

pub ipc_response-OwnedBefore :
    (x : Uuid) (hash : Text → ℕ) (st : ServerState) (uid : ℕ) (req : Result Text RenewIpcReq)
    (d : Draw)
    → IsSound st
    → IsSound (ipc_response hash st uid req d).0
      × OwnedBefore x (current st) (current (ipc_response hash st uid req d).0)
unfolding ipc_response bootstrap_output
ipc_response-OwnedBefore x hash st uid (err e) d v = ground arith
ipc_response-OwnedBefore x hash st uid (ok req) d v = ground arith

pub finish-frees :
    (x : Uuid) (st : ServerState) (now : SystemTime) (c : Conn)
    → IsSound st
    → Knows c (current st)
    → IsSound (finish st now c)
      × NotOwner c.conn_id (current (finish st now c))
      × OwnedBefore x (current st) (current (finish st now c))
unfolding finish finalize_connection_cleanup Manager.conditional_stale_cleanup Manager.terminate
finish-frees x st now c v k = ground arith

pub OwnedBefore-refl :
    (x : Uuid) (st : ServerState) → IsSound st → OwnedBefore x (current st) (current st)
OwnedBefore-refl x st v = ground arith

pub set_peer-IsOk :
    (w : World) (st : ServerState) (c : Uuid) (conn : Conn) (phase : Phase)
    → IsOk w
    → IsSound st
    → ((x : Uuid) → x ≢ c → OwnedBefore x (current w.server) (current st))
    → conn.conn_id ≡ c
    → PhaseOk c phase conn (current st)
    → IsOk (set_peer w st c conn phase)
set_peer-IsOk w st c conn phase h v others id own = record {
  sound = v;
  peer = λ x. at x (Bool-cases (c == x));
}
  where
    at :
        (x : Uuid)
        → ((c == x) ≡ true) ⊎ ((c == x) ≡ false)
        → PeerOk x ((set_peer w st c conn phase).peers x) (current st)
    at x (inl e) = rw e (
        subst (λ y. (conn.conn_id ≡ y) × PhaseOk y phase conn (current st)) ((==_iff c x).0 e)
          (id, own))
    at x (inr e) =
        rw e (PeerOk-OwnedBefore x (w.peers x) _ _ (others x (λ q. ground arith)) (h.peer x))

pub server-IsOk :
    (w : World) (st : ServerState)
    → IsOk w
    → IsSound st
    → ((x : Uuid) → OwnedBefore x (current w.server) (current st))
    → IsOk (record w { server = st })
server-IsOk w st h v all = record {
  sound = v;
  peer = λ x. PeerOk-OwnedBefore x (w.peers x) _ _ (all x) (h.peer x);
}

-- A message that did not fail leaves the connection as its next phase wants it.
pub PhaseOk-next :
    (c : Uuid) (flow : Flow) (conn : Conn) (s : Option Session)
    → KnowsUnlessFailed flow conn s
    → PhaseOk c (next_phase flow) conn s
PhaseOk-next c continues conn s k = k
PhaseOk-next c breaks conn s k = k
PhaseOk-next c (fails e) conn s k = tt
