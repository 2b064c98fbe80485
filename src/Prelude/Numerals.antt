-- ===== src/Prelude/Numerals.antt =====
-- What the sources use of Rust's `str`: splitting, and reading and writing of decimal numbers.
use neosh.Prelude.Tests.{ltb, leb, ◌==◌, ==_refl, if◌then◌else◌, Bool-cases}
use mathlib.Core.Logic.{inl, inr}
use mathlib.Core.Path.{◌∙◌, ◌≡◌, refl, ap}
use neosh.Prelude.Texts.{Text}
use Prim.Native.Nat.{ℕ, zero, suc, ◌+◌, ◌-◌, ◌*◌, ◌/◌, ◌%◌, ◌^◌, ◌<◌}
use mathlib.Core.Bool.{false, not, ◌&&◌}
use mathlib.Core.Option.{Option, none, some}
use mathlib.Core.List.{List, [], ◌∷◌, ◌++◌}
use native.Mathlib.Omega.{arith}

-- `str::split` at one character: never an empty list.
abbrev cons_head : ℕ → List Text → List Text
cons_head c [] = (c ∷ []) ∷ []
cons_head c (w ∷ ws) = (c ∷ w) ∷ ws

unfoldable pub split : ℕ → Text → List Text
split sep [] = [] ∷ []
split sep (c ∷ s) = let rest = split sep s in if c == sep then [] ∷ rest else cons_head c rest

-- `str::rsplit_once` at one character: what stands before its last occurrence, and after.
unfoldable pub rsplit_once : ℕ → Text → Option (Text × Text)
rsplit_once sep [] = none
rsplit_once sep (c ∷ s) = elim (rsplit_once sep s) [
  | some (before, after) ↦ some (c ∷ before, after)
  | none ↦ if c == sep then some ([], s) else none
]

pub rsplit_once-append :
    (sep : ℕ) (s t : Text) → rsplit_once sep t ≡ none → rsplit_once sep (s ++ sep ∷ t) ≡ some (s, t)
unfolding rsplit_once
rsplit_once-append sep [] t h = rw h (rw (==_refl sep) refl)
rsplit_once-append sep (c ∷ s) t h = rw (rsplit_once-append sep s t h) refl

-- `str::strip_prefix` of a text.
unfoldable pub strip_prefix : Text → Text → Option Text
strip_prefix [] s = some s
strip_prefix (p ∷ ps) [] = none
strip_prefix (p ∷ ps) (c ∷ s) = let rest = strip_prefix ps s in if p == c then rest else none

-- `str::split_once` at a text.
unfoldable pub split_once : Text → Text → Option (Text × Text)
unfolding strip_prefix
split_once sep [] = elim (strip_prefix sep []) [ some rest ↦ some ([], rest) | none ↦ none ]
split_once sep (c ∷ s) = elim (strip_prefix sep (c ∷ s)) [
  | some rest ↦ some ([], rest)
  | none ↦ elim (split_once sep s) [ some (before, after) ↦ some (c ∷ before, after) | none ↦ none ]
]

-- `str::parse::<u16>`: an optional plus sign, then digits, none of them past the end of 16 bits.
unfoldable pub parse_digits : ℕ → Text → Option ℕ
parse_digits acc [] = some acc
parse_digits acc (c ∷ s) =
    let v = acc * 10 + (c - b'0') in
    let rest = parse_digits v s in
    if not (leb b'0' c && leb c b'9') then none else (if ltb 65535 v then none else rest)

abbrev some_digits : Text → Option ℕ
some_digits [] = none
some_digits (c ∷ s) = parse_digits 0 (c ∷ s)

unfoldable pub parse_u16 : Text → Option ℕ
unfolding parse_digits
parse_u16 [] = none
parse_u16 (c ∷ s) = if c == b'+' then some_digits s else some_digits (c ∷ s)

parse_digits-bound :
    (acc : ℕ) (s : Text) (v : ℕ) → acc < 65536 → parse_digits acc s ≡ some v → v < 65536
unfolding parse_digits
parse_digits-bound acc [] v b h = ground (arith, h)
parse_digits-bound acc (c ∷ s) v b h =
    ground (arith, h, parse_digits-bound (acc * 10 + (c - b'0')) s v)

pub parse_u16-bound : (s : Text) (v : ℕ) → parse_u16 s ≡ some v → v < 65536
unfolding parse_u16
parse_u16-bound [] v h = ground (arith, h)
parse_u16-bound (c ∷ []) v h = ground (arith, h, parse_digits-bound 0 (c ∷ []) v)
parse_u16-bound (c ∷ d ∷ s) v h =
    ground (arith, h, parse_digits-bound 0 (c ∷ d ∷ s) v, parse_digits-bound 0 (d ∷ s) v)

-- The last digits of a number, from one to four of them.
abbrev low1 : ℕ → Text
low1 n = (n % 10 + 48) ∷ []

abbrev low2 : ℕ → Text
low2 n = (n / 10 % 10 + 48) ∷ low1 n

abbrev low3 : ℕ → Text
low3 n = (n / 100 % 10 + 48) ∷ low2 n

abbrev low4 : ℕ → Text
low4 n = (n / 1000 % 10 + 48) ∷ low3 n

-- A `u16`, as `format!` writes it.
unfoldable pub decimal : ℕ → Text
decimal n =
    if ltb n 10
    then (n + 48) ∷ []
    else if ltb n 100
    then (n / 10 + 48) ∷ low1 n
    else if ltb n 1000
    then (n / 100 + 48) ∷ low2 n
    else if ltb n 10000
    then (n / 1000 + 48) ∷ low3 n
    else (n / 10000 + 48) ∷ low4 n

-- The digits of a number before `acc`, on fuel.
unfoldable pub show_digits : ℕ → ℕ → Text → Text
show_digits zero n acc = acc
show_digits (suc fuel) n acc =
    let rest = show_digits fuel (n / 10) ((n % 10 + 48) ∷ acc) in
    if ltb n 10 then (n + 48) ∷ acc else rest

-- A `usize`, as `format!` writes it: it has twenty digits at most.
abbrev pub show_usize : ℕ → Text
show_usize n = show_digits 20 n []

-- A `u128`, as `to_string` writes it: it has thirty-nine digits at most.
abbrev pub show_u128 : ℕ → Text
show_u128 n = show_digits 39 n []

-- What digits behind `acc` stand for.
unfoldable pub digits_value : ℕ → Text → ℕ
digits_value acc [] = acc
digits_value acc (c ∷ s) = digits_value (acc * 10 + (c - 48)) s

-- Fuel for as many digits as the number has is enough: the digits stand for the number.
digits_value-show_digits :
    (fuel n : ℕ) (acc : Text)
    → n < 10 ^ fuel
    → digits_value 0 (show_digits fuel n acc) ≡ digits_value n acc
unfolding show_digits digits_value
digits_value-show_digits zero n acc h = ap (λ k. digits_value k acc) (omega (arith, h))
digits_value-show_digits (suc fuel) n acc h = elim (Bool-cases (ltb n 10)) [
  | inl b ↦ rw b (ap (λ k. digits_value k acc) (omega arith))
  | inr b ↦ rw b (
      digits_value-show_digits fuel (n / 10) ((n % 10 + 48) ∷ acc) (omega (arith, h))
      ∙ ap (λ k. digits_value k acc) (omega arith))
]

pub digits_value-show_u128 : (n : ℕ) → n < 2 ^ 128 → digits_value 0 (show_u128 n) ≡ n
unfolding digits_value
digits_value-show_u128 n h = digits_value-show_digits 39 n [] (omega (arith, h))

parse_digits-digit :
    (acc d v : ℕ) (s : Text)
    → d < 10
    → acc * 10 + d ≡ v
    → v < 65536
    → parse_digits acc ((d + 48) ∷ s) ≡ parse_digits v s
unfolding parse_digits
parse_digits-digit acc d v s h e b =
    let digit : not (leb b'0' (d + 48) && leb (d + 48) b'9') ≡ false = ground (arith, h) in
    let value : acc * 10 + (d + 48 - b'0') ≡ v = omega (arith, e) in
    let fits : ltb 65535 v ≡ false = ground (arith, b) in rw (digit, value, fits) refl

parse_u16-digit : (d : ℕ) (s : Text) → d < 10 → parse_u16 ((d + 48) ∷ s) ≡ parse_digits d s
unfolding parse_u16
parse_u16-digit d s h =
    let plain : (d + 48 == b'+') ≡ false = ground (arith, h) in
    rw plain (parse_digits-digit 0 d d s h (omega arith) (omega (arith, h)))

module _ (n : ℕ) (h : n < 65536) where
  parse_low1 : parse_digits (n / 10) (low1 n) ≡ some n
  unfolding parse_digits
  parse_low1 = parse_digits-digit (n / 10) (n % 10) n [] (omega arith) (omega arith) h

  parse_low2 : parse_digits (n / 100) (low2 n) ≡ some n
  parse_low2 =
      parse_digits-digit (n / 100) (n / 10 % 10) (n / 10) (low1 n) (omega arith) (omega arith)
        (omega arith)
      ∙ parse_low1

  parse_low3 : parse_digits (n / 1000) (low3 n) ≡ some n
  parse_low3 =
      parse_digits-digit (n / 1000) (n / 100 % 10) (n / 100) (low2 n) (omega arith) (omega arith)
        (omega arith)
      ∙ parse_low2

  parse_low4 : parse_digits (n / 10000) (low4 n) ≡ some n
  parse_low4 =
      parse_digits-digit (n / 10000) (n / 1000 % 10) (n / 1000) (low3 n) (omega arith) (omega arith)
        (omega arith)
      ∙ parse_low3

  pub parse_u16-decimal : parse_u16 (decimal n) ≡ some n
  unfolding decimal parse_digits
  parse_u16-decimal = elim (Bool-cases (ltb n 10)) [
    | inl a ↦ rw a (parse_u16-digit n [] (ground (arith, a)))
    | inr a ↦ elim (Bool-cases (ltb n 100)) [
      | inl b ↦ rw a (rw b (parse_u16-digit (n / 10) (low1 n) (ground (arith, b)) ∙ parse_low1))
      | inr b ↦ elim (Bool-cases (ltb n 1000)) [
        | inl c ↦
            rw a (rw b (rw c (parse_u16-digit (n / 100) (low2 n) (ground (arith, c)) ∙ parse_low2)))
        | inr c ↦ elim (Bool-cases (ltb n 10000)) [
          | inl d ↦ rw a (
              rw b (
                rw c (rw d (parse_u16-digit (n / 1000) (low3 n) (ground (arith, d)) ∙ parse_low3))))
          | inr d ↦
              rw a (
                rw b
                  (rw c (rw d (parse_u16-digit (n / 10000) (low4 n) (omega arith) ∙ parse_low4))))
        ]
      ]
    ]
  ]
