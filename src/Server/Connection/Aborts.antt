-- ===== src/Server/Connection/Aborts.antt =====
-- Where `handle_connection` of src/bin/neoshd.rs returns by `?` after it attached the session.
use neosh.Prelude.{Uuid, ◌≡◌, Bool, true, false, Option, none, some}
use neosh.Session.Manager.{Session, SessionState, is_over}
use neosh.Session.Manager
use neosh.Server.State.{current}
use neosh.Server.Exchange.{Conn, Flow, fails, Outcome}

abbrev pub is_failing : Flow → Bool
is_failing (fails e) = true
is_failing _ = false

abbrev pub Free : Option Session → Type 0
Free none = ⊥
Free (some s) = (is_over s.state ≡ false) × (s.attached_conn_id ≡ none)

abbrev pub HeldBy : Uuid → Option Session → Type 0
HeldBy c none = ⊥
HeldBy c (some s) = (s.state ≡ SessionState.attached) × (s.attached_conn_id ≡ some c)

abbrev pub IsLeaked : Conn → Outcome → Type 0
IsLeaked c o =
    (is_failing o.flow ≡ true) × HeldBy c.conn_id (current o.server) × (o.server.detached_at ≡ none)
