-- ===== src/Token/Service/Records.antt =====
-- Lookups and writes in the records of src/token/service.rs, where hashes are distinct.
use neosh.Prelude.{
  ◌==◌, if◌then◌else◌, ==_iff, Bool-cases, ℕ, ◌≡◌, refl, sym, ◌≢◌, inl, inr, Bool, true, false,
  Option, none, some, List, [], ◌∷◌, ◌++◌, arith,
}
use neosh.Token.Service.{TokenRecord, find_record, write_record, retain}

abbrev pub Absent : ℕ → List TokenRecord → Type 0
Absent h [] = Unit {0}
Absent h (r ∷ rs) = (r.token_hash ≢ h) × Absent h rs

-- No two records carry one hash.
abbrev pub AreDistinct : List TokenRecord → Type 0
AreDistinct [] = Unit {0}
AreDistinct (r ∷ rs) = Absent r.token_hash rs × AreDistinct rs

pub find_record-Absent : (h : ℕ) (rs : List TokenRecord) → Absent h rs → find_record h rs ≡ none
unfolding find_record
find_record-Absent h [] a = refl
find_record-Absent h (r ∷ rs) a = ground (arith, find_record-Absent h rs)

pub retain-Absent :
    (p : TokenRecord → Bool) (h : ℕ) (rs : List TokenRecord) → Absent h rs → Absent h (retain p rs)
unfolding retain
retain-Absent p h [] a = tt
retain-Absent p h (r ∷ rs) a = ground (arith, retain-Absent p h rs)

pub retain-AreDistinct :
    (p : TokenRecord → Bool) (rs : List TokenRecord) → AreDistinct rs → AreDistinct (retain p rs)
unfolding retain
retain-AreDistinct p [] d = tt
retain-AreDistinct p (r ∷ rs) d =
    ground (arith, retain-AreDistinct p rs, retain-Absent p r.token_hash rs)

abbrev pub keep_if : (TokenRecord → Bool) → Option TokenRecord → Option TokenRecord
keep_if p none = none
keep_if p (some r) = if p r then some r else none

-- Dropping records drops what a lookup finds, if it is dropped, and nothing else.
pub find_record-retain :
    (p : TokenRecord → Bool) (h : ℕ) (rs : List TokenRecord)
    → AreDistinct rs
    → find_record h (retain p rs) ≡ keep_if p (find_record h rs)
unfolding find_record retain
find_record-retain p h [] d = refl
find_record-retain p h (r ∷ rs) d =
    ground (arith, find_record-retain p h rs d.1, find_record-Absent r.token_hash rs d.0)

abbrev pub map_option {ℓ κ} : {A : Type ℓ} {B : Type κ} → (A → B) → Option A → Option B
map_option f none = none
map_option f (some a) = some (f a)

module _ (f : TokenRecord → TokenRecord)
    (same : (r : TokenRecord) → (f r).token_hash ≡ r.token_hash) where
  pub find_record-write_record :
      (h j : ℕ) (rs : List TokenRecord)
      → find_record j (write_record h f rs)
        ≡ (if h == j then map_option f (find_record j rs) else find_record j rs)
  unfolding find_record write_record
  find_record-write_record h j [] = ground arith
  find_record-write_record h j (r ∷ rs) = ground (arith, find_record-write_record h j rs, same r)

  pub write_record-Absent :
      (h j : ℕ) (rs : List TokenRecord) → Absent j rs → Absent j (write_record h f rs)
  unfolding write_record
  write_record-Absent h j [] a = tt
  write_record-Absent h j (r ∷ rs) a = ground (arith, write_record-Absent h j rs, same r)

  pub write_record-AreDistinct :
      (h : ℕ) (rs : List TokenRecord) → AreDistinct rs → AreDistinct (write_record h f rs)
  unfolding write_record
  write_record-AreDistinct h [] d = tt
  write_record-AreDistinct h (r ∷ rs) d =
      ground (arith, write_record-AreDistinct h rs, write_record-Absent h r.token_hash rs, same r)

-- A record appended at the end is found only where nothing was found before.
abbrev pub or_last : ℕ → TokenRecord → Option TokenRecord → Option TokenRecord
or_last h r none = if r.token_hash == h then some r else none
or_last h r (some q) = some q

pub find_record-append :
    (h : ℕ) (rs : List TokenRecord) (r : TokenRecord)
    → find_record h (rs ++ r ∷ []) ≡ or_last h r (find_record h rs)
unfolding find_record
find_record-append h [] r = refl
find_record-append h (q ∷ rs) r = ground (arith, find_record-append h rs r)

pub append-Absent :
    (h : ℕ) (rs : List TokenRecord) (r : TokenRecord)
    → r.token_hash ≢ h
    → Absent h rs
    → Absent h (rs ++ r ∷ [])
append-Absent h [] r n a = (n, tt)
append-Absent h (q ∷ rs) r n a = (a.0, append-Absent h rs r n a.1)

pub append-AreDistinct :
    (rs : List TokenRecord) (r : TokenRecord)
    → Absent r.token_hash rs
    → AreDistinct rs
    → AreDistinct (rs ++ r ∷ [])
append-AreDistinct [] r a d = (tt, tt)
append-AreDistinct (q ∷ rs) r a d =
    (append-Absent q.token_hash rs r (λ e. a.0 (sym e)) d.0, append-AreDistinct rs r a.1 d.1)

-- What is known of the record that a lookup finds, if it finds one.
abbrev pub AtRecord : (TokenRecord → Type 0) → Option TokenRecord → Type 0
AtRecord P none = Unit {0}
AtRecord P (some r) = P r

module _ (P : TokenRecord → Type 0) where
  pub AtRecord-map :
      (f : TokenRecord → TokenRecord)
      → ((r : TokenRecord) → P r → P (f r))
      → (b : Bool) (o : Option TokenRecord) → AtRecord P o
      → AtRecord P (if b then map_option f o else o)
  AtRecord-map f k true none a = tt
  AtRecord-map f k true (some r) a = k r a
  AtRecord-map f k false o a = a

  pub AtRecord-keep_if :
      (p : TokenRecord → Bool) (o : Option TokenRecord) → AtRecord P o → AtRecord P (keep_if p o)
  AtRecord-keep_if p none a = tt
  AtRecord-keep_if p (some r) a = elim (Bool-cases (p r)) [
    | inl e ↦ rw (e, keep_if) a
    | inr e ↦ rw (e, keep_if) tt
  ]

  pub AtRecord-or_last :
      (h : ℕ) (r : TokenRecord) (o : Option TokenRecord)
      → r.token_hash ≢ h
      → AtRecord P o
      → AtRecord P (or_last h r o)
  AtRecord-or_last h r none n a = elim (Bool-cases (r.token_hash == h)) [
    | inl e ↦ absurd (n ((==_iff r.token_hash h).0 e))
    | inr e ↦ rw (e, or_last) tt
  ]
  AtRecord-or_last h r (some q) n a = a
