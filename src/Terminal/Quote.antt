-- ===== src/Terminal/Quote.antt =====
-- `shell_single_quote` of src/terminal/pty.rs (and its copy in the tests of src/bin/neosh.rs), with
-- the part of the POSIX shell's quoting rules that it is written for.
use neosh.Prelude.{
  ◌==◌, if◌then◌else◌, ==_iff, Bool-cases, Text, codes, ℕ, ◌≡◌, refl, sym, ap, inl, inr, Option,
  none, some, [], ◌∷◌, ◌++◌,
}

-- `str::replace` of one character by a text.
unfoldable pub replace : ℕ → Text → Text → Text
replace c by [] = []
replace c by (a ∷ s) = if a == c then by ++ replace c by s else a ∷ replace c by s

unfoldable pub shell_single_quote : Text → Text
unfolding replace
shell_single_quote [] = codes "''"
shell_single_quote (a ∷ s) = codes "'" ++ replace b'\'' (codes "'\\''") (a ∷ s) ++ codes "'"

-- How a shell reads a word: outside quotes, after a backslash outside quotes, or inside single
-- quotes, where every character but the closing quote stands for itself.
pub data Mode : Type 0 where
  bare escaped quoted : Mode

-- The word that a shell reads, or `none` if a quote is left open or a backslash ends the text, or if
-- a character outside quotes is neither a quote nor a backslash.
unfoldable pub read_word : Mode → Text → Option Text
read_word bare [] = some []
read_word escaped [] = none
read_word quoted [] = none
read_word bare (c ∷ s) =
    let opened = read_word quoted s in
    let slashed = read_word escaped s in
    if c == b'\'' then opened else (if c == b'\\' then slashed else none)
read_word escaped (c ∷ s) = elim (read_word bare s) [ none ↦ none | some w ↦ some (c ∷ w) ]
read_word quoted (c ∷ s) =
    let closed = read_word bare s in
    let more = read_word quoted s in
    if c == b'\'' then closed else elim more [ none ↦ none | some w ↦ some (c ∷ w) ]

read_word-replace :
    (s : Text) → read_word quoted (replace b'\'' (codes "'\\''") s ++ codes "'") ≡ some s
unfolding read_word replace
read_word-replace [] = refl
read_word-replace (c ∷ s) = elim (Bool-cases (c == b'\'')) [
  | inl e ↦ rw e (rw (read_word-replace s) (ap (λ x. some (x ∷ s)) (sym ((==_iff c b'\'').0 e))))
  | inr e ↦ rw e (rw e (rw (read_word-replace s) refl))
]

-- A shell reads the quotation of any text as one word, and that word is the text.
pub read_word-shell_single_quote : (s : Text) → read_word bare (shell_single_quote s) ≡ some s
unfolding read_word shell_single_quote
read_word-shell_single_quote [] = refl
read_word-shell_single_quote (c ∷ s) = read_word-replace (c ∷ s)
