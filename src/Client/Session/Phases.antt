-- ===== src/Client/Session/Phases.antt =====
-- src/bin/neosh.rs: how far a session has come by its messages, and what each kind of step does to that.
use neosh.Prelude.{
  ℕ, Option, none, some, List, [], ◌∷◌, ◌++◌, Bytes, Uuid, Result, ok, err, ◌≡◌, refl, ap, ◌∙◌,
}
use neosh.Client.Reconnect.{CliError}
use neosh.Client.Control.{Message, hello, auth, attach_msg, resume_msg, resize, detach, close, ping}
use neosh.Client.Session.{Act, sent, deletes, sleeps, Io, lift, act, attempt, logged, took}
use neosh.Client.Session.Triples.{Post, Triple, triple}

-- How far a session has come, by the messages it sent.
pub data Phase : Type 0 where
  silent greeted authenticating entered ended : Phase

unfoldable pub advance : Phase → Act → Option Phase
advance silent (sent hello) = some greeted
advance greeted (sent (auth token)) = some authenticating
advance authenticating (sent (attach_msg sid)) = some entered
advance authenticating (sent (resume_msg sid token)) = some entered
advance entered (sent (resize rows cols)) = some entered
advance entered (sent (ping nonce)) = some entered
advance entered (sent detach) = some ended
advance entered (sent (close sid)) = some ended
advance p (sent m) = none
advance p _ = some p

abbrev pub onward : Option Phase → Act → Option Phase
onward none a = none
onward (some p) a = advance p a

unfoldable pub walk : Option Phase → List Act → Option Phase
unfolding advance
walk o [] = o
walk o (a ∷ more) = walk (onward o a) more

abbrev pub At : Phase → Io → Type 0
At p s = walk (some silent) s.acts ≡ some p

-- Some phase is reached: no message was out of order.
abbrev pub Ordered : Io → Type 0
Ordered s = (p : Phase) × At p s

abbrev pub Broken : CliError → Io → Type 0
Broken e s = Ordered s

walk-snoc :
    (o : Option Phase) (done : List Act) (a : Act)
    → walk o (done ++ a ∷ []) ≡ onward (walk o done) a
unfolding walk
walk-snoc o [] a = refl
walk-snoc o (b ∷ done) a = walk-snoc (onward o b) done a

pub act-At :
    (p q : Phase) (a : Act) (s : Io)
    → advance p a ≡ some q
    → At p s
    → At q (record s { acts = s.acts ++ a ∷ [] })
act-At p q a s step h = walk-snoc (some silent) s.acts a ∙ ap (λ o. onward o a) h ∙ step

pub logged-At :
    (p q : Phase) (m : Message) (r : Result CliError (Unit {0}))
    → advance p (sent m) ≡ some q
    → Triple Broken (At p) (logged m r) (λ _. At q)
logged-At p q m (ok _) step = triple (λ s h. act-At p q (sent m) s step h)
logged-At p q m (err e) step = triple (λ s h. (p, h))

pub took-At :
    {A : Type 0} (p : Phase) (r : Result CliError (A × Bytes)) (s : Io)
    → At p s
    → Post Broken (λ _. At p) (took r s)
took-At p (ok _) s h = h
took-At p (err e) s h = (p, h)

pub lift-At :
    {A : Type 0} (p : Phase) (r : Result CliError A) → Triple Broken (At p) (lift r) (λ _. At p)
lift-At p (ok _) = triple (λ s h. h)
lift-At p (err e) = triple (λ s h. (p, h))

-- An act that is no message.
pub quiet-At :
    (p : Phase) (a : Act) → advance p a ≡ some p → Triple Broken (At p) (act a) (λ _. At p)
quiet-At p a step = triple (λ s h. act-At p p a s step h)

-- A message that leaves the phase, whether or not it is sent.
pub attempt-At :
    (p : Phase) (m : Message) (r : Result CliError (Unit {0}))
    → advance p (sent m) ≡ some p
    → Triple Broken (At p) (attempt (logged m r)) (λ _. At p)
attempt-At p m (ok _) step = triple (λ s h. act-At p p (sent m) s step h)
attempt-At p m (err e) step = triple (λ s h. h)

pub waits : (p : Phase) (n : ℕ) → advance p (sleeps n) ≡ some p
unfolding advance
waits silent n = refl
waits greeted n = refl
waits authenticating n = refl
waits entered n = refl
waits ended n = refl

pub stays : (p : Phase) (sid : Uuid) → advance p (deletes sid) ≡ some p
unfolding advance
stays silent sid = refl
stays greeted sid = refl
stays authenticating sid = refl
stays entered sid = refl
stays ended sid = refl
