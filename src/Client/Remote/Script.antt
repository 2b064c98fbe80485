-- ===== src/Client/Remote/Script.antt =====
-- The single quotes of `sh -lc '…'` in build_remote_command of src/bin/neosh.rs: which scripts arrive whole.
use neosh.Prelude.{
  ◌==◌, if◌then◌else◌, Bool-cases, Option-cases, length, is_empty, length-append, Text, codes, trim,
  ℕ, ◌+◌, ◌≤◌, ◌≡◌, refl, ◌↔◌, inl, inr, Option, none, some, [], ◌∷◌, ◌++◌, arith,
}
use neosh.Terminal.Quote.{Mode, bare, escaped, quoted, read_word}
use neosh.Client.Remote.{shell_double_quote, extra_arg, log_setup, stderr_redirect, script}
use neosh.Client.Remote.Quoting.{escape, escaped-escape, is_special}

abbrev pub apostrophes : Text → ℕ
apostrophes [] = 0
apostrophes (c ∷ s) = if c == b'\'' then apostrophes s + 1 else apostrophes s

apostrophes-append : (s t : Text) → apostrophes (s ++ t) ≡ apostrophes s + apostrophes t
apostrophes-append [] t = omega arith
apostrophes-append (c ∷ s) t = ground (arith, apostrophes-append s t)

abbrev slack : Mode → ℕ
slack bare = 0
slack escaped = 1
slack quoted = 0

-- A shell drops every quote that it reads as one.
read_word-bound :
    (m : Mode) (s w : Text) → read_word m s ≡ some w → length w + apostrophes s ≤ length s + slack m
unfolding read_word
read_word-bound bare [] w h = ground (arith, h)
read_word-bound escaped [] w h = ground (arith, h)
read_word-bound quoted [] w h = ground (arith, h)
read_word-bound bare (c ∷ s) w h =
    ground (arith, h, read_word-bound quoted s w, read_word-bound escaped s w)
read_word-bound escaped (c ∷ s) w h = elim (Option-cases (read_word bare s)) [
  | inl e ↦ ground (arith, h, e)
  | inr (v, e) ↦ ground (arith, h, e, read_word-bound bare s v e)
]
read_word-bound quoted (c ∷ s) w h = elim (Option-cases (read_word quoted s)) [
  | inl e ↦ ground (arith, h, e, read_word-bound bare s w)
  | inr (v, e) ↦ ground (arith, h, e, read_word-bound bare s w, read_word-bound quoted s v e)
]

read_word-plain : (s : Text) → apostrophes s ≡ 0 → read_word quoted (s ++ codes "'") ≡ some s
unfolding read_word
read_word-plain [] h = refl
read_word-plain (c ∷ s) h = ground (arith, h, read_word-plain s)

-- Between single quotes, a shell reads a text as it is exactly when no apostrophe is in it.
read_word-quoted_iff :
    (s : Text) → (read_word quoted (s ++ codes "'") ≡ some s) ↔ (apostrophes s ≡ 0)
read_word-quoted_iff s = (
  λ h. omega (
    arith,
    read_word-bound quoted (s ++ codes "'") s h,
    length-append s (codes "'"),
    apostrophes-append s (codes "'"),
  ),
  read_word-plain s,
)

apostrophes-escape : (s : Text) → apostrophes (escape s) ≡ apostrophes s
unfolding is_special
apostrophes-escape [] = refl
apostrophes-escape (c ∷ s) = ground (arith, apostrophes-escape s)

apostrophes-shell_double_quote : (s : Text) → apostrophes (shell_double_quote s) ≡ apostrophes s
unfolding shell_double_quote
apostrophes-shell_double_quote [] = refl
apostrophes-shell_double_quote (c ∷ s) =
    rw (escaped-escape (c ∷ s))
      (omega (arith, apostrophes-append (escape (c ∷ s)) (codes "\""), apostrophes-escape (c ∷ s)))

-- The text of an argument that the script holds.
abbrev pub given : Option Text → Text
given none = []
given (some value) = if is_empty (trim value) then [] else value

abbrev pub given_file : Option Text → Text
given_file none = []
given_file (some file) = file

apostrophes-extra_arg :
    (flag : Text) (v : Option Text)
    → apostrophes flag ≡ 0
    → apostrophes (extra_arg flag v) ≡ apostrophes (given v)
unfolding extra_arg
apostrophes-extra_arg flag none h = refl
apostrophes-extra_arg flag (some v) h = elim (Bool-cases (is_empty (trim v))) [
  | inl e ↦ rw e refl
  | inr e ↦ rw e (
      omega (
        arith,
        h,
        apostrophes-append flag (codes " " ++ shell_double_quote v),
        apostrophes-shell_double_quote v,
      ))
]

apostrophes-log_setup :
    (file : Option Text) → apostrophes (log_setup file) ≡ apostrophes (given_file file)
unfolding log_setup
apostrophes-log_setup none = refl
apostrophes-log_setup (some file) = omega (
  arith,
  apostrophes-append (shell_double_quote file) (codes "; "),
  apostrophes-shell_double_quote file,
)

apostrophes-stderr_redirect : (file : Option Text) → apostrophes (stderr_redirect file) ≡ 0
unfolding stderr_redirect
apostrophes-stderr_redirect none = refl
apostrophes-stderr_redirect (some file) = refl

-- The apostrophes of a script are those of the texts that are put into it.
apostrophes-script :
    (dir command : Option Text) (path : Text) (file : Option Text)
    → apostrophes (script dir command path file)
      ≡ apostrophes (given_file file)
        + (apostrophes path + (apostrophes (given dir) + apostrophes (given command)))
unfolding script
apostrophes-script dir command path file =
    simp
      (
        apostrophes-append,
        apostrophes-log_setup,
        apostrophes-shell_double_quote,
        apostrophes-stderr_redirect,
        apostrophes-extra_arg (codes "working-directory") dir refl,
        apostrophes-extra_arg (codes "command") command refl,
      )
      (omega arith)

-- A script for a fresh session arrives at `sh -lc` as it was built exactly when no apostrophe is in any
-- of the texts that are put into it: the log file, the daemon's path, and the working directory
-- and the command, unless they are blank.
pub script-arrives_iff :
    (dir command : Option Text) (path : Text) (file : Option Text)
    → (read_word quoted (script dir command path file ++ codes "'")
        ≡ some (script dir command path file))
      ↔ ((apostrophes (given_file file) ≡ 0)
          × (apostrophes path ≡ 0)
          × (apostrophes (given dir) ≡ 0)
          × (apostrophes (given command) ≡ 0))
script-arrives_iff dir command path file =
    let r = read_word-quoted_iff (script dir command path file) in
    let n = apostrophes-script dir command path file in
    (λ h. omega (arith, r.0 h, n), λ h. r.1 (omega (arith, h, n)))
