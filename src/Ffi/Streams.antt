-- ===== src/Ffi/Streams.antt =====
-- ffi/neosh-client-c/src/lib.rs: the data streams of the client for C.
pub mod Stdout
use neosh.Prelude.{
  ltb, ◌==◌, if◌then◌else◌, is_some, length, take, drop, Result, ok, err, Text, Bytes, codes, ℕ,
  zero, ◌+◌, min, not, ◌&&◌, Option, none, some, [], ◌++◌,
}
use neosh.Ffi.Client.{
  Code, ok_code, invalid_arg, not_ready, internal, NeoshClient, set_client_error, keep, Written,
  complete, failed,
}

abbrev pub not_open : NeoshClient → Text → NeoshClient × Code
not_open client name =
    set_client_error client
      (name ++ codes " stream not ready, call neosh_client_open_data_streams first") not_ready

-- What the connection answers to `open_uni` and to `accept_uni`: for the second, the bytes that the
-- stream will bring.
unfoldable pub neosh_client_open_data_streams :
    Result Text (Unit {0}) → Result Text Bytes → Option NeoshClient → Option NeoshClient × Code
unfolding set_client_error
neosh_client_open_data_streams opened accepted none = (none, invalid_arg)
neosh_client_open_data_streams (err e) accepted (some client) =
    keep (set_client_error client (codes "open stdin stream failed: " ++ e) internal)
neosh_client_open_data_streams (ok _) (err e) (some client) =
    keep (set_client_error client (codes "accept stdout stream failed: " ++ e) internal)
neosh_client_open_data_streams (ok _) (ok stream) (some client) =
    (some (record client { stdin_send = some []; stdout_recv = some stream }), ok_code)

-- `slice::from_raw_parts(data, len)`; a null pointer gets here with `len == 0` only.
abbrev pub from_raw_parts : Option Bytes → ℕ → Bytes
from_raw_parts none len = []
from_raw_parts (some data_bytes) len = take len data_bytes

-- The write of `neosh_client_send_stdin` and what it answers, with the place of `written_len`.
unfoldable pub write_stdin :
    Written → NeoshClient → Bytes → Bytes → ℕ → ℕ → Option NeoshClient × Option ℕ × Code
unfolding set_client_error
write_stdin complete client sent input len v =
    (some (record client { stdin_send = some (sent ++ input) }), some len, ok_code)
write_stdin (failed k e) client sent input len v =
    let r =
      set_client_error (record client { stdin_send = some (sent ++ take k input) })
        (codes "write stdin failed: " ++ e) internal in
    (some r.0, some v, r.1)

abbrev pub with_place : Option ℕ → NeoshClient × Code → Option NeoshClient × Option ℕ × Code
with_place place (client, code) = (some client, place, code)

unfoldable pub neosh_client_send_stdin :
    Written
    → Option NeoshClient
    → Option Bytes
    → ℕ
    → Option ℕ
    → Option NeoshClient × Option ℕ × Code
unfolding write_stdin set_client_error
neosh_client_send_stdin answer none data_ptr len written_len = (none, written_len, invalid_arg)
neosh_client_send_stdin answer (some client) data_ptr len none =
    with_place none (set_client_error client (codes "written_len is null") invalid_arg)
neosh_client_send_stdin answer (some client) data_ptr len (some v) =
    if not (is_some data_ptr) && ltb 0 len
    then with_place (some v) (set_client_error client (codes "data is null") invalid_arg)
    else elim client.stdin_send [
      | none ↦ with_place (some v) (not_open client (codes "stdin"))
      | some sent ↦ write_stdin answer client sent (from_raw_parts data_ptr len) len v
    ]

-- `answer` is that of the stream to `finish`.
unfoldable pub neosh_client_finish_stdin :
    Result Text (Unit {0}) → Option NeoshClient → Option NeoshClient × Code
unfolding set_client_error
neosh_client_finish_stdin answer none = (none, invalid_arg)
neosh_client_finish_stdin answer (some client) = elim client.stdin_send [
  | none ↦ keep (not_open client (codes "stdin"))
  | some sent ↦ elim answer [
    | ok _ ↦ (some client, ok_code)
    | err e ↦ keep (set_client_error client (codes "finish stdin failed: " ++ e) internal)
  ]
]

-- What the wait for `read` comes to: bytes have arrived, so many that a read takes at most; the stream
-- is at its end; it failed, with what it will still bring; or the time is over.
pub data Read : Type 0 where
  bytes : ℕ → Read
  at_end : Read
  broken : Text → Bytes → Read
  timed_out : Read

-- What a call leaves: the client, and the places it may have written to.
pub record Output : Type 0 where
  pub client : Option NeoshClient
  pub out_buf : Option Bytes
  pub out_len : Option ℕ
  pub eof : Option ℕ
  pub code : Code

-- The read of `neosh_client_recv_stdout`, and what it answers.
unfoldable pub read_stdout : Read → NeoshClient → Bytes → Bytes → ℕ → ℕ → ℕ → Output
unfolding set_client_error
read_stdout (bytes k) client stream buf out_cap len_v eof_v =
    let chunk = take (min k out_cap) stream in
    record {
      client = some (record client { stdout_recv = some (drop (min k out_cap) stream) });
      out_buf = some (chunk ++ drop (length chunk) buf);
      out_len = some (length chunk);
      eof = some 0;
      code = ok_code;
    }
read_stdout at_end client stream buf out_cap len_v eof_v = record {
  client = some client;
  out_buf = some buf;
  out_len = some 0;
  eof = some 1;
  code = ok_code;
}
read_stdout (broken e rest) client stream buf out_cap len_v eof_v =
    let r =
      set_client_error (record client { stdout_recv = some rest })
        (codes "read stdout failed: " ++ e) internal in
    record {
      client = some r.0;
      out_buf = some buf;
      out_len = some len_v;
      eof = some eof_v;
      code = r.1;
    }
read_stdout timed_out client stream buf out_cap len_v eof_v = record {
  client = some client;
  out_buf = some buf;
  out_len = some 0;
  eof = some 0;
  code = not_ready;
}

-- A call that is refused before the stream is read writes nothing.
abbrev pub unread : Option Bytes → Option ℕ → Option ℕ → NeoshClient × Code → Output
unread out_buf out_len eof (client, code) = record {
  client = some client;
  out_buf = out_buf;
  out_len = out_len;
  eof = eof;
  code = code;
}

-- The guards of `neosh_client_recv_stdout` on its buffer and on the stream.
unfoldable pub stdout_guards : Read → NeoshClient → Option Bytes → Option Bytes → ℕ → ℕ → ℕ → Output
unfolding read_stdout set_client_error
stdout_guards answer client none recv out_cap l e =
    unread none (some l) (some e) (set_client_error client (codes "out_buf is null") invalid_arg)
stdout_guards answer client (some buf) none out_cap l e =
    unread (some buf) (some l) (some e) (not_open client (codes "stdout"))
stdout_guards answer client (some buf) (some stream) out_cap l e =
    read_stdout answer client stream buf out_cap l e

unfoldable pub neosh_client_recv_stdout :
    Read → Option NeoshClient → Option Bytes → ℕ → Option ℕ → Option ℕ → Output
unfolding stdout_guards set_client_error
neosh_client_recv_stdout answer none out_buf out_cap out_len eof = record {
  client = none;
  out_buf = out_buf;
  out_len = out_len;
  eof = eof;
  code = invalid_arg;
}
neosh_client_recv_stdout answer (some client) out_buf out_cap (some l) (some e) =
    if out_cap == 0
    then unread out_buf (some l) (some e)
        (set_client_error client (codes "out_cap is zero") invalid_arg)
    else stdout_guards answer client out_buf client.stdout_recv out_cap l e
neosh_client_recv_stdout answer (some client) out_buf out_cap out_len eof =
    unread out_buf out_len eof
      (set_client_error client (codes "out_len or eof is null") invalid_arg)
