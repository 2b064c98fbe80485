-- ===== src/Ffi/Client.antt =====
-- ffi/neosh-client-c/src/lib.rs: the client behind the pointer, its last error, and its answers. A
-- pointer is an option, `none` for null; a place to write to holds what is in it. A stream that is
-- read is the list of the bytes that will arrive; one that is written holds what was written.
use neosh.Prelude.{
  ◌==◌, if◌then◌else◌, take, is_empty, Result, ok, err, Text, Bytes, codes, trim, ℕ, ◌≡◌, refl,
  Bool, false, ◌||◌, Option, none, some, [], ◌∷◌, ◌++◌, map, arith,
}

-- The `NEOSH_CLIENT_…` codes.
pub data Code : Type 0 where
  ok_code invalid_arg buffer_too_small not_ready internal : Code

-- The connection and the endpoint are not this repository's code, and have no field.
pub record NeoshClient : Type 0 where
  pub control_send : Bytes
  pub control_recv : Bytes
  pub stdin_send : Option Bytes
  pub stdout_recv : Option Bytes
  pub last_error : Text

abbrev pub has_nul : Text → Bool
has_nul [] = false
has_nul (b ∷ s) = (b == 0) || has_nul s

-- `CString::new`, which refuses a text with a NUL inside.
abbrev pub cstring_new : Text → Option Text
cstring_new s = if has_nul s then none else some s

abbrev pub without_nul : ℕ → ℕ
without_nul b = if b == 0 then b'?' else b

unfoldable pub cstring_lossy : Text → Text
cstring_lossy input = elim (cstring_new (map without_nul input)) [
  | some s ↦ s
  | none ↦ codes "unknown error"
]

unfoldable pub set_client_error : NeoshClient → Text → Code → NeoshClient × Code
unfolding cstring_lossy
set_client_error client msg code = (record client { last_error = cstring_lossy msg }, code)

-- The client of a pointer that is not null, with the answer.
abbrev pub keep : NeoshClient × Code → Option NeoshClient × Code
keep (client, code) = (some client, code)

-- `arg` is what the pointer shows: its bytes as UTF-8, if they are.
unfoldable pub cstr_to_string : Option (Option Text) → Text → Result Text Text
cstr_to_string none name = err (name ++ codes " is null")
cstr_to_string (some none) name = err (name ++ codes " is not valid UTF-8")
cstr_to_string (some (some c)) name =
    if is_empty (trim c) then err (name ++ codes " is empty") else ok (trim c)

unfoldable pub neosh_client_last_error : Option NeoshClient → Text
neosh_client_last_error none = codes "null client"
neosh_client_last_error (some client) = client.last_error

-- What a stream answers to `write_all`: all of it was written, or a part of it before an error.
pub data Written : Type 0 where
  complete : Written
  failed : ℕ → Text → Written

abbrev pub write_all : Written → Bytes → Bytes → Bytes × Result Text (Unit {0})
write_all complete sent bytes = (sent ++ bytes, ok tt)
write_all (failed k e) sent bytes = (sent ++ take k bytes, err e)

has_nul-without_nul : (s : Text) → has_nul (map without_nul s) ≡ false
has_nul-without_nul [] = refl
has_nul-without_nul (b ∷ s) = ground (arith, has_nul-without_nul s)

-- The text of an error loses its NULs and nothing else, so the fallback is never taken.
pub cstring_lossy-map :
    (s : Text) → (cstring_lossy s ≡ map without_nul s) × (has_nul (cstring_lossy s) ≡ false)
unfolding cstring_lossy
cstring_lossy-map s = rw (has_nul-without_nul s, cstring_lossy) (refl, has_nul-without_nul s)
