-- ===== src/Protocol/Dispatcher/Handshake.antt =====
-- The orders of messages that the dispatcher of src/protocol/dispatcher.rs lets through.
use neosh.Prelude.{Result, ok, err, ◌>>=◌, ◌≡◌, refl, ◌≢◌, ◌↔◌, List, [], ◌∷◌, arith}
use neosh.Protocol.Messages.{MessageKind, hello, auth, attach, resume, resize, detach, close, ping}
use neosh.Protocol.Dispatcher.{
  ConnectionState, await_hello, await_auth, await_attach_or_resume, attached, closed, DispatchError,
  protocol_order, Dispatcher, initial, on_message,
}

-- A connection reads messages until one is refused.
unfoldable pub run : Dispatcher → List MessageKind → Result DispatchError Dispatcher
run d [] = ok d
run d (k ∷ ks) = let (d', r) = on_message d k in let rest = run d' ks in r >>= λ _. rest

abbrev pub without_pings : List MessageKind → List MessageKind
without_pings [] = []
without_pings (ping ∷ ks) = without_pings ks
without_pings (k ∷ ks) = k ∷ without_pings ks

-- The messages, pings left out, that a state still accepts on the way to `attached`: the handshake
-- from there, then resizes and detaches.
pub data Leads : ConnectionState → List MessageKind → Type 0 where
  greets : {ks : List MessageKind} → Leads await_auth ks → Leads await_hello (hello ∷ ks)
  proves : {ks : List MessageKind} → Leads await_attach_or_resume ks → Leads await_auth (auth ∷ ks)
  attaches :
      {ks : List MessageKind} → Leads attached ks → Leads await_attach_or_resume (attach ∷ ks)
  resumes : {ks : List MessageKind} → Leads attached ks → Leads await_attach_or_resume (resume ∷ ks)
  arrived : Leads attached []
  resizes : {ks : List MessageKind} → Leads attached ks → Leads attached (resize ∷ ks)
  detaches : {ks : List MessageKind} → Leads attached ks → Leads attached (detach ∷ ks)

run_closed :
    (ks : List MessageKind) → run (record { state = closed }) ks ≢ ok (record { state = attached })
unfolding run on_message
run_closed [] h = cc
run_closed (k ∷ ks) h = cc

run-Leads :
    (s : ConnectionState) (ks : List MessageKind)
    → run (record { state = s }) ks ≡ ok (record { state = attached })
    → Leads s (without_pings ks)
unfolding run on_message
run-Leads attached [] h = arrived
run-Leads await_hello [] h = cc
run-Leads _ [] h = cc
run-Leads await_hello (ping ∷ ks) h = run-Leads await_hello ks h
run-Leads await_auth (ping ∷ ks) h = run-Leads await_auth ks h
run-Leads await_attach_or_resume (ping ∷ ks) h = run-Leads await_attach_or_resume ks h
run-Leads attached (ping ∷ ks) h = run-Leads attached ks h
run-Leads await_hello (hello ∷ ks) h = greets (run-Leads await_auth ks h)
run-Leads await_auth (auth ∷ ks) h = proves (run-Leads await_attach_or_resume ks h)
run-Leads await_attach_or_resume (attach ∷ ks) h = attaches (run-Leads attached ks h)
run-Leads await_attach_or_resume (resume ∷ ks) h = resumes (run-Leads attached ks h)
run-Leads await_attach_or_resume (close ∷ ks) h = absurd (run_closed ks h)
run-Leads attached (resize ∷ ks) h = resizes (run-Leads attached ks h)
run-Leads attached (detach ∷ ks) h = detaches (run-Leads attached ks h)
run-Leads attached (close ∷ ks) h = absurd (run_closed ks h)
run-Leads _ (k ∷ ks) h = cc

Leads-closed : {ks : List MessageKind} → ¬ Leads closed ks
Leads-closed l = elim l [ ]

Leads-run :
    (s : ConnectionState) (ks : List MessageKind)
    → Leads s (without_pings ks)
    → run (record { state = s }) ks ≡ ok (record { state = attached })
unfolding run on_message
Leads-run attached [] arrived = refl
Leads-run await_hello (ping ∷ ks) l = Leads-run await_hello ks l
Leads-run await_auth (ping ∷ ks) l = Leads-run await_auth ks l
Leads-run await_attach_or_resume (ping ∷ ks) l = Leads-run await_attach_or_resume ks l
Leads-run attached (ping ∷ ks) l = Leads-run attached ks l
Leads-run await_hello (hello ∷ ks) (greets l) = Leads-run await_auth ks l
Leads-run await_auth (auth ∷ ks) (proves l) = Leads-run await_attach_or_resume ks l
Leads-run await_attach_or_resume (attach ∷ ks) (attaches l) = Leads-run attached ks l
Leads-run await_attach_or_resume (resume ∷ ks) (resumes l) = Leads-run attached ks l
Leads-run attached (resize ∷ ks) (resizes l) = Leads-run attached ks l
Leads-run attached (detach ∷ ks) (detaches l) = Leads-run attached ks l
Leads-run closed (ping ∷ ks) l = absurd (Leads-closed l)
Leads-run _ [] l = elim l [ ]
Leads-run _ (k ∷ ks) l = elim l [ ]

-- A fresh dispatcher accepts a list of messages and ends attached exactly when the list is, pings
-- left out, HELLO, AUTH, one of ATTACH and RESUME, and then resizes and detaches only.
pub run_attached_iff :
    (ks : List MessageKind)
    → (run initial ks ≡ ok (record { state = attached })) ↔ Leads await_hello (without_pings ks)
unfolding initial
run_attached_iff ks = (run-Leads await_hello ks, Leads-run await_hello ks)

-- A message that is refused leaves the state as it is, and a closed dispatcher refuses every one.
pub on_message_refused :
    (d : Dispatcher) (k : MessageKind)
    → ((on_message d k).1 ≡ err protocol_order → (on_message d k).0 ≡ d)
      × (d.state ≡ closed → on_message d k ≡ (d, err protocol_order))
unfolding on_message
on_message_refused d k = ground arith
