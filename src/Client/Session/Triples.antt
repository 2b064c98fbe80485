-- ===== src/Client/Session/Triples.antt =====
-- src/bin/neosh.rs: reasoning on the steps of `run_session`, one after another.
use neosh.Prelude.{Result, ok, err, Bool, true, false, if◌then◌else◌}
use neosh.Client.Reconnect.{CliError}
use neosh.Client.Session.{Io, Run, next, ◌>>=◌}

-- What holds after a step: `Q` of its value, or `E` of its error.
abbrev pub Post :
    {A : Type 0} → (CliError → Io → Type 0) → (A → Io → Type 0) → Io × Result CliError A → Type 0
Post E Q (s, ok a) = Q a s
Post E Q (s, err e) = E e s

-- From `P`, the step `m` gets to `Q` of its value, or to `E` of its error.
pub data Triple {A : Type 0} (E : CliError → Io → Type 0) (P : Io → Type 0) (m : Run A)
    (Q : A → Io → Type 0) : Type 0 where
  triple : ((s : Io) → P s → Post E Q (m s)) → Triple E P m Q

pub run_triple :
    {A : Type 0} {E : CliError → Io → Type 0} {P : Io → Type 0} {m : Run A} {Q : A → Io → Type 0}
    → Triple E P m Q
    → (s : Io) → P s
    → Post E Q (m s)
run_triple (triple h) = h

Post-next :
    {A B : Type 0} (E : CliError → Io → Type 0) (Q : A → Io → Type 0) (R : B → Io → Type 0)
    (f : A → Run B) (r : Io × Result CliError A)
    → Post E Q r
    → ((a : A) → Triple E (Q a) (f a) R)
    → Post E R (next f r)
Post-next E Q R f (s, ok a) h k = run_triple (k a) s h
Post-next E Q R f (s, err e) h k = h

pub bind :
    {A B : Type 0} {E : CliError → Io → Type 0} {P : Io → Type 0} {m : Run A} {Q : A → Io → Type 0}
    {f : A → Run B} {R : B → Io → Type 0}
    → Triple E P m Q
    → ((a : A) → Triple E (Q a) (f a) R)
    → Triple E P (m >>= f) R
bind {E = E} {m = m} {Q = Q} {f = f} {R = R} (triple h) k =
    triple (λ s p. Post-next E Q R f (m s) (h s p) k)

pub branch :
    {A : Type 0} {E : CliError → Io → Type 0} {P : Io → Type 0} {m n : Run A} {Q : A → Io → Type 0}
    (b : Bool)
    → Triple E P m Q
    → Triple E P n Q
    → Triple E P (if b then m else n) Q
branch true h k = h
branch false h k = k
