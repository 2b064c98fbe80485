-- ===== src/Client/Remote/Quoting.antt =====
-- `shell_double_quote` of src/bin/neosh.rs against a reader of the shell's double quotes.
use neosh.Prelude.{
  ◌==◌, if◌then◌else◌, Bool-cases, Text, codes, ℕ, ◌≡◌, refl, ap, ◌∙◌, inl, inr, Bool, true, false,
  ◌||◌, Option, none, some, [], ◌∷◌, ◌++◌, arith,
}
use neosh.Terminal.Quote.{replace}
use neosh.Client.Remote.{shell_double_quote}

-- Outside quotes, inside double quotes, or behind a backslash there.
pub data Mode : Type 0 where
  bare quoted slashed : Mode

-- What a backslash takes the meaning of, between double quotes; before a newline it is dropped.
unfoldable pub is_special : ℕ → Bool
is_special c = (c == b'\\') || ((c == b'"') || ((c == b'$') || (c == b'`')))

abbrev more : ℕ → Option Text → Option Text
more c none = none
more c (some w) = some (c ∷ w)

-- The word that a shell reads, or `none` if it is not one word of double-quoted text, or if something in it
-- is expanded.
unfoldable pub read_double : Mode → Text → Option Text
unfolding is_special
read_double bare [] = some []
read_double quoted [] = none
read_double slashed [] = none
read_double bare (c ∷ s) = let opened = read_double quoted s in if c == b'"' then opened else none
read_double quoted (c ∷ s) =
    let closed = read_double bare s in
    let behind = read_double slashed s in
    let rest = read_double quoted s in
    if c == b'"'
    then closed
    else if c == b'\\'
    then behind
    else if is_special c
    then none
    else more c rest
read_double slashed (c ∷ s) =
    let rest = read_double quoted s in
    if c == 10 then rest else if is_special c then more c rest else more b'\\' (more c rest)

-- The four replacements, character by character.
abbrev pub escape : Text → Text
escape [] = []
escape (c ∷ s) = if is_special c then b'\\' ∷ c ∷ escape s else c ∷ escape s

abbrev pub escaped : Text → Text
escaped s =
    replace b'`' (codes "\\`")
      (replace b'$' (codes "\\$") (replace b'"' (codes "\\\"") (replace b'\\' (codes "\\\\") s)))

pub escaped-escape : (s : Text) → escaped s ≡ escape s
unfolding replace is_special
escaped-escape [] = refl
escaped-escape (c ∷ s) = ground (arith, escaped-escape s)

special_no_newline : (c : ℕ) → is_special c ≡ true → (c == 10) ≡ false
unfolding is_special
special_no_newline c h = ground (arith, h)

plain_char : (c : ℕ) → is_special c ≡ false → ((c == b'"') ≡ false) × ((c == b'\\') ≡ false)
unfolding is_special
plain_char c h = (ground (arith, h), ground (arith, h))

read_double-special :
    (c : ℕ) (s : Text)
    → is_special c ≡ true
    → read_double slashed (c ∷ s) ≡ more c (read_double quoted s)
unfolding read_double
read_double-special c s h = rw (special_no_newline c h, h) refl

read_double-plain :
    (c : ℕ) (s : Text)
    → is_special c ≡ false
    → read_double quoted (c ∷ s) ≡ more c (read_double quoted s)
unfolding read_double is_special
read_double-plain c s h = ground (arith, h)

read_double-escape : (s : Text) → read_double quoted (escape s ++ codes "\"") ≡ some s
unfolding read_double
read_double-escape [] = refl
read_double-escape (c ∷ s) = elim (Bool-cases (is_special c)) [
  | inl e ↦
      rw (e) (read_double-special c (escape s ++ codes "\"") e ∙ ap (more c) (read_double-escape s))
  | inr e ↦
      rw (e) (read_double-plain c (escape s ++ codes "\"") e ∙ ap (more c) (read_double-escape s))
]

-- A shell reads the double quotation of any text as one word, nothing of it is expanded, and that
-- word is the text.
pub read_double-shell_double_quote : (s : Text) → read_double bare (shell_double_quote s) ≡ some s
unfolding read_double shell_double_quote
read_double-shell_double_quote [] = refl
read_double-shell_double_quote (c ∷ s) = rw (escaped-escape (c ∷ s)) (read_double-escape (c ∷ s))
