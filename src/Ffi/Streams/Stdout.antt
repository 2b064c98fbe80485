-- ===== src/Ffi/Streams/Stdout.antt =====
-- ffi/neosh-client-c/src/lib.rs: what calls of the data streams, one after another, give.
use mathlib.Core.List.{append_assoc}
use neosh.Prelude.{
  Result, ok, err, Text, arith, ◌==◌, Bool-cases, length, take, drop, take-append, Bytes, ℕ, zero,
  suc, min, ◌≡◌, refl, sym, ap, ◌∙◌, inl, inr, Option, none, some, List, [], ◌∷◌, ◌++◌,
}
use neosh.Ffi.Client.{Code, ok_code, NeoshClient, set_client_error, Written}
use neosh.Ffi.Streams.{
  neosh_client_send_stdin, neosh_client_finish_stdin, neosh_client_open_data_streams, write_stdin,
  Read, bytes, at_end, broken, timed_out, Output, read_stdout, stdout_guards,
  neosh_client_recv_stdout,
}

-- What a caller takes from a call: the bytes it is told of, when the answer is OK.
unfoldable pub taken : Code → Option Bytes → Option ℕ → Bytes
taken ok_code (some buf) (some n) = take n buf
taken code out_buf out_len = []

-- What is left on the stream of a client.
unfoldable pub left : Option NeoshClient → Bytes
left none = []
left (some client) = elim client.stdout_recv [ none ↦ [] | some stream ↦ stream ]

-- A call of the data streams, with what the streams do in it.
pub data Call : Type 0 where
  receives : Read → Option Bytes → ℕ → Option ℕ → Option ℕ → Call
  sends : Written → Option Bytes → ℕ → Option ℕ → Call
  finishes : Result Text (Unit {0}) → Call
  opens : Result Text (Unit {0}) → Result Text Bytes → Call

unfoldable pub taken_by : Output → Bytes
taken_by r = taken r.code r.out_buf r.out_len

-- What the caller takes, and the client after the call.
unfoldable pub perform : Call → Option NeoshClient → Bytes × Option NeoshClient
perform (receives answer out_buf out_cap out_len eof) client =
    let r = neosh_client_recv_stdout answer client out_buf out_cap out_len eof in
    (taken_by r, r.client)
perform (sends answer data_ptr len written_len) client =
    ([], (neosh_client_send_stdin answer client data_ptr len written_len).0)
perform (finishes answer) client = ([], (neosh_client_finish_stdin answer client).0)
perform (opens opened accepted) client =
    ([], (neosh_client_open_data_streams opened accepted client).0)

-- No read fails in the call, and it does not put new streams in place of the old.
abbrev pub Keeps : Call → Type 0
Keeps (receives (broken e rest) out_buf out_cap out_len eof) = ⊥
Keeps (opens (ok _) (ok stream)) = ⊥
Keeps _ = Unit {0}

abbrev pub AllKeep : List Call → Type 0
AllKeep [] = Unit {0}
AllKeep (c ∷ cs) = Keeps c × AllKeep cs

-- All that the caller takes, and what is left in the end.
unfoldable pub receive_all : List Call → Option NeoshClient → Bytes × Bytes
receive_all [] client = ([], left client)
receive_all (c ∷ cs) client =
    let r = perform c client in let rest = receive_all cs r.1 in (r.0 ++ rest.0, rest.1)

-- A read that does not fail.
abbrev Sound : Read → Type 0
Sound (broken e rest) = ⊥
Sound _ = Unit {0}

take-drop : (n : ℕ) (xs : Bytes) → take n xs ++ drop n xs ≡ xs
take-drop zero xs = refl
take-drop (suc n) [] = refl
take-drop (suc n) (x ∷ xs) = rw (take-drop n xs) refl

read_stdout-splits :
    (answer : Read) (client : NeoshClient) (stream buf : Bytes) (out_cap l e : ℕ)
    → Sound answer
    → client.stdout_recv ≡ some stream
    → let r = read_stdout answer client stream buf out_cap l e in
      taken_by r ++ left r.client ≡ stream
unfolding read_stdout left taken taken_by
read_stdout-splits (bytes k) client stream buf out_cap l e p h =
    let chunk = take (min k out_cap) stream in
    rw (take-append chunk (drop (length chunk) buf), take-drop (min k out_cap) stream) refl
read_stdout-splits at_end client stream buf out_cap l e p h = rw h refl
read_stdout-splits (broken t rest) client stream buf out_cap l e p h = absurd p
read_stdout-splits timed_out client stream buf out_cap l e p h = rw h refl

left-open :
    (client : NeoshClient) (stream : Bytes)
    → client.stdout_recv ≡ some stream
    → left (some client) ≡ stream
unfolding left
left-open client stream h = rw h refl

stdout_guards-splits :
    (answer : Read) (client : NeoshClient) (out_buf recv : Option Bytes) (out_cap l e : ℕ)
    → Sound answer
    → client.stdout_recv ≡ recv
    → let r = stdout_guards answer client out_buf recv out_cap l e in
      taken_by r ++ left r.client ≡ left (some client)
unfolding stdout_guards left taken taken_by
stdout_guards-splits answer client none recv out_cap l e p h = refl
stdout_guards-splits answer client (some buf) none out_cap l e p h = refl
stdout_guards-splits answer client (some buf) (some stream) out_cap l e p h =
    read_stdout-splits answer client stream buf out_cap l e p h ∙ sym (left-open client stream h)

recv_stdout-splits :
    (answer : Read) (client : Option NeoshClient) (out_buf : Option Bytes) (out_cap : ℕ)
    (out_len eof : Option ℕ)
    → Sound answer
    → let r = neosh_client_recv_stdout answer client out_buf out_cap out_len eof in
      taken_by r ++ left r.client ≡ left client
unfolding neosh_client_recv_stdout left taken taken_by
recv_stdout-splits answer none out_buf out_cap out_len eof p = refl
recv_stdout-splits answer (some client) out_buf out_cap none eof p = refl
recv_stdout-splits answer (some client) out_buf out_cap (some l) none p = refl
recv_stdout-splits answer (some client) out_buf out_cap (some l) (some e) p =
    elim (Bool-cases (out_cap == 0)) [
      | inl z ↦ rw z refl
      | inr z ↦
          rw z (stdout_guards-splits answer client out_buf client.stdout_recv out_cap l e p refl)
    ]

Keeps-Sound :
    (answer : Read) (out_buf : Option Bytes) (out_cap : ℕ) (out_len eof : Option ℕ)
    → Keeps (receives answer out_buf out_cap out_len eof)
    → Sound answer
Keeps-Sound (bytes k) out_buf out_cap out_len eof p = tt
Keeps-Sound at_end out_buf out_cap out_len eof p = tt
Keeps-Sound (broken e rest) out_buf out_cap out_len eof p = absurd p
Keeps-Sound timed_out out_buf out_cap out_len eof p = tt

send_stdin-left :
    (answer : Written) (client : Option NeoshClient) (data_ptr : Option Bytes) (len : ℕ)
    (written_len : Option ℕ)
    → left (neosh_client_send_stdin answer client data_ptr len written_len).0 ≡ left client
unfolding neosh_client_send_stdin write_stdin set_client_error left
send_stdin-left answer client data_ptr len written_len = ground arith

finish_stdin-left :
    (answer : Result Text (Unit {0})) (client : Option NeoshClient)
    → left (neosh_client_finish_stdin answer client).0 ≡ left client
unfolding neosh_client_finish_stdin set_client_error left
finish_stdin-left answer client = ground arith

open_data_streams-left :
    (opened : Result Text (Unit {0})) (accepted : Result Text Bytes) (client : Option NeoshClient)
    → Keeps (opens opened accepted)
    → left (neosh_client_open_data_streams opened accepted client).0 ≡ left client
unfolding neosh_client_open_data_streams set_client_error left
open_data_streams-left opened accepted none p = refl
open_data_streams-left (err e) accepted (some client) p = refl
open_data_streams-left (ok _) (err e) (some client) p = refl
open_data_streams-left (ok _) (ok stream) (some client) p = absurd p

perform-splits :
    (c : Call) (client : Option NeoshClient)
    → Keeps c
    → (perform c client).0 ++ left (perform c client).1 ≡ left client
unfolding perform
perform-splits (receives answer out_buf out_cap out_len eof) client p =
    recv_stdout-splits answer client out_buf out_cap out_len eof
      (Keeps-Sound answer out_buf out_cap out_len eof p)
perform-splits (sends answer data_ptr len written_len) client p =
    send_stdin-left answer client data_ptr len written_len
perform-splits (finishes answer) client p = finish_stdin-left answer client
perform-splits (opens opened accepted) client p = open_data_streams-left opened accepted client p

-- Whatever calls of the data streams are made, in whatever order and whether they succeed, if no read
-- of STDOUT fails and none of them puts new streams in place of the old: what the caller takes, one
-- call after another, and what is left on the stream, are what was on the stream.
pub receive_all-splits :
    (cs : List Call) (client : Option NeoshClient)
    → AllKeep cs
    → (receive_all cs client).0 ++ (receive_all cs client).1 ≡ left client
unfolding receive_all
receive_all-splits [] client p = refl
receive_all-splits (c ∷ cs) client (p, ps) =
    let r = perform c client in
    append_assoc r.0 (receive_all cs r.1).0 (receive_all cs r.1).1
    ∙ ap (λ t. r.0 ++ t) (receive_all-splits cs r.1 ps)
    ∙ perform-splits c client p
