-- ===== src/Protocol/Dispatcher.antt =====
-- src/protocol/dispatcher.rs: which control message a connection accepts in which state.
pub mod Handshake
use neosh.Prelude.{Result, ok, err, Option, none, some}
use neosh.Protocol.Messages.{MessageKind, hello, auth, attach, resume, resize, detach, close, ping}

pub data ConnectionState : Type 0 where
  await_hello await_auth await_attach_or_resume attached closed : ConnectionState

pub data DispatchError : Type 0 where
  protocol_order : DispatchError

pub data DispatchOutcome : Type 0 where
  continues closes : DispatchOutcome

pub record Dispatcher : Type 0 where
  pub state : ConnectionState

-- `Dispatcher::default()`.
unfoldable pub initial : Dispatcher
initial = record { state = await_hello }

-- The `match (self.state, kind)`: the next state and the outcome, or `Err(ProtocolOrder)`, which
-- leaves the state as it is. The last clause stands for the arms `(Closed, _)` and `_`.
unfoldable pub transition :
    ConnectionState → MessageKind → Option (ConnectionState × DispatchOutcome)
transition await_hello hello = some (await_auth, continues)
transition await_hello ping = some (await_hello, continues)
transition await_auth auth = some (await_attach_or_resume, continues)
transition await_auth ping = some (await_auth, continues)
transition await_attach_or_resume attach = some (attached, continues)
transition await_attach_or_resume resume = some (attached, continues)
transition await_attach_or_resume close = some (closed, closes)
transition await_attach_or_resume ping = some (await_attach_or_resume, continues)
transition attached resize = some (attached, continues)
transition attached detach = some (attached, continues)
transition attached ping = some (attached, continues)
transition attached close = some (closed, closes)
transition _ _ = none

unfoldable pub on_message :
    Dispatcher → MessageKind → Dispatcher × Result DispatchError DispatchOutcome
unfolding transition
on_message d kind = elim (transition d.state kind) [
  | none ↦ (d, err protocol_order)
  | some (s, outcome) ↦ (record { state = s }, ok outcome)
]
