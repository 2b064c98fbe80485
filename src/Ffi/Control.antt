-- ===== src/Ffi/Control.antt =====
-- ffi/neosh-client-c/src/lib.rs: the control stream of the client for C.
pub mod Bounds
pub mod Frames
pub mod Messages
use neosh.Prelude.{
  ltb, if◌then◌else◌, length, drop, Result, ok, err, Text, Bytes, codes, show_usize, ℕ, ◌+◌, Option,
  none, some, [], ◌∷◌, ◌++◌,
}
use neosh.Protocol.Framing.{encode_frame}
use neosh.Server.Wire.{max_control_frame, read_exact, header_len}
use neosh.Ffi.Client.{
  Code, ok_code, invalid_arg, buffer_too_small, not_ready, internal, NeoshClient, set_client_error,
  keep, Written, failed, write_all,
}

-- What the wait for a header comes to: it is read, or the time is over after the first bytes of it,
-- fewer than four, have been taken from the stream.
pub data Wait : Type 0 where
  in_time : Wait
  elapsed : ℕ → Wait

-- The payload behind a header, and the stream afterwards, which a short read has used up.
unfoldable pub read_payload : Bytes → Bytes → Bytes × Result Text (Option Bytes)
unfolding read_exact header_len
read_payload len_buf recv =
    let payload_len = header_len len_buf in
    if ltb max_control_frame payload_len
    then (recv, err (codes "control frame too large: " ++ show_usize payload_len))
    else elim (read_exact payload_len recv) [
      | ok (payload, rest) ↦ (rest, ok (some payload))
      | err e ↦ ([], err (codes "read control payload failed: " ++ e))
    ]

unfoldable pub read_control_payload_with_timeout : Wait → Bytes → Bytes × Result Text (Option Bytes)
unfolding read_payload
read_control_payload_with_timeout (elapsed k) recv = (drop k recv, ok none)
read_control_payload_with_timeout in_time recv = elim (read_exact 4 recv) [
  | ok (len_buf, rest) ↦ read_payload len_buf rest
  | err e ↦ ([], err (codes "read control length failed: " ++ e))
]

-- What a call leaves: the client and the places it may have written to.
pub record Received : Type 0 where
  pub client : Option NeoshClient
  pub out_buf : Option Bytes
  pub out_len : Option ℕ
  pub code : Code

abbrev pub refuse : NeoshClient → Option Bytes → Option ℕ → Text → Code → Received
refuse client out_buf out_len msg code =
    let r = set_client_error client msg code in
    record { client = some r.0; out_buf = out_buf; out_len = out_len; code = r.1 }

-- `ptr::copy_nonoverlapping` of the payload to the start of the buffer.
abbrev pub copy : Bytes → Bytes → Bytes
copy payload buf = payload ++ drop (length payload) buf

-- The answer once a payload is read: its length is written first.
unfoldable pub deliver : NeoshClient → Option Bytes → ℕ → Bytes → Received
unfolding set_client_error
deliver client none out_cap [] = record {
  client = some client;
  out_buf = none;
  out_len = some 0;
  code = ok_code;
}
deliver client none out_cap (b ∷ bs) =
    refuse client none (some (length (b ∷ bs))) (codes "out_buf is null") invalid_arg
deliver client (some buf) out_cap payload =
    if ltb out_cap (length payload)
    then refuse client (some buf) (some (length payload))
        (codes "buffer too small, need " ++ show_usize (length payload)) buffer_too_small
    else record {
      client = some client;
      out_buf = some (copy payload buf);
      out_len = some (length payload);
      code = ok_code;
    }

-- The rest of `neosh_client_recv_control_json`, behind the read.
unfoldable pub after_read :
    NeoshClient → Option Bytes → ℕ → ℕ → Bytes × Result Text (Option Bytes) → Received
unfolding deliver set_client_error
after_read client out_buf out_cap v (recv, ok (some payload)) =
    deliver (record client { control_recv = recv }) out_buf out_cap payload
after_read client out_buf out_cap v (recv, ok none) = record {
  client = some (record client { control_recv = recv });
  out_buf = out_buf;
  out_len = some 0;
  code = not_ready;
}
after_read client out_buf out_cap v (recv, err e) =
    refuse (record client { control_recv = recv }) out_buf (some v) e internal

unfoldable pub neosh_client_recv_control_json :
    Wait → Option NeoshClient → Option Bytes → ℕ → Option ℕ → Received
unfolding read_control_payload_with_timeout after_read set_client_error
neosh_client_recv_control_json wait none out_buf out_cap out_len = record {
  client = none;
  out_buf = out_buf;
  out_len = out_len;
  code = invalid_arg;
}
neosh_client_recv_control_json wait (some client) out_buf out_cap none =
    refuse client out_buf none (codes "out_len is null") invalid_arg
neosh_client_recv_control_json wait (some client) out_buf out_cap (some v) =
    after_read client out_buf out_cap v (read_control_payload_with_timeout wait client.control_recv)

unfoldable pub neosh_client_send_control_json :
    Written → Option NeoshClient → Option Bytes → Option NeoshClient × Code
unfolding encode_frame set_client_error
neosh_client_send_control_json answer none json_bytes = (none, invalid_arg)
neosh_client_send_control_json answer (some client) none =
    keep (set_client_error client (codes "json_bytes is null") invalid_arg)
neosh_client_send_control_json answer (some client) (some payload) =
    let written = write_all answer client.control_send (encode_frame payload) in
    let client = record client { control_send = written.0 } in
    elim written.1 [
      | ok _ ↦ (some client, ok_code)
      | err e ↦ keep (set_client_error client (codes "write control json failed: " ++ e) internal)
    ]
