-- ===== src/Ffi/Control/Frames.antt =====
-- ffi/neosh-client-c/src/lib.rs: control frames through the client for C.
use neosh.Prelude.{
  ltb, length, length-append, take-append, drop-append, ok, Bytes, codes, show_usize, ℕ, zero, suc,
  ◌≤◌, ◌<◌, ◌≡◌, refl, ap, ◌∙◌, true, Option, some, ◌++◌, arith,
}
use neosh.Protocol.Framing.{to_be_bytes, encode_frame}
use neosh.Protocol.Framing.Codec.{from_be_bytes-to_be_bytes}
use neosh.Server.Wire.{max_control_frame}
use neosh.Ffi.Client.{ok_code, buffer_too_small, NeoshClient, set_client_error}
use neosh.Ffi.Control.{
  Wait, in_time, elapsed, read_control_payload_with_timeout, Received, refuse, copy, deliver,
  after_read, neosh_client_recv_control_json,
}

abbrev pub recv_json : Wait → Option NeoshClient → Option Bytes → ℕ → Option ℕ → Received
recv_json = neosh_client_recv_control_json

abbrev pub with_recv : NeoshClient → Bytes → NeoshClient
with_recv client recv = record client { control_recv = recv }

pub read_control_payload_with_timeout-encode_frame :
    (payload rest : Bytes)
    → length payload ≤ max_control_frame
    → read_control_payload_with_timeout in_time (encode_frame payload ++ rest)
      ≡ (rest, ok (some payload))
unfolding read_control_payload_with_timeout encode_frame to_be_bytes
read_control_payload_with_timeout-encode_frame payload rest h = ground (
  arith,
  from_be_bytes-to_be_bytes (length payload),
  take-append payload rest,
  drop-append payload rest,
  length-append payload rest,
)

pub recv_json-encode_frame :
    (client : NeoshClient) (payload rest : Bytes) (out_buf : Option Bytes) (out_cap v : ℕ)
    → length payload ≤ max_control_frame
    → recv_json in_time
        (some (with_recv client (encode_frame payload ++ rest)))
        out_buf
        out_cap
        (some v)
      ≡ deliver (with_recv client rest) out_buf out_cap payload
unfolding neosh_client_recv_control_json after_read
recv_json-encode_frame client payload rest out_buf out_cap v h =
    ap (after_read client out_buf out_cap v)
      (read_control_payload_with_timeout-encode_frame payload rest h)

-- What a buffer with room for the payload gets, and what one without gets.
deliver-fits :
    (client : NeoshClient) (buf : Bytes) (out_cap : ℕ) (payload : Bytes)
    → length payload ≤ out_cap
    → deliver client (some buf) out_cap payload ≡ record {
      client = some client;
      out_buf = some (copy payload buf);
      out_len = some (length payload);
      code = ok_code;
    }
unfolding deliver
deliver-fits client buf out_cap payload h = ground (arith, h)

deliver-small :
    (client : NeoshClient) (buf : Bytes) (out_cap : ℕ) (payload : Bytes)
    → out_cap < length payload
    → deliver client (some buf) out_cap payload
      ≡ refuse client
          (some buf)
          (some (length payload))
          (codes "buffer too small, need " ++ show_usize (length payload))
          buffer_too_small
unfolding deliver
deliver-small client buf out_cap payload h =
    let full : ltb out_cap (length payload) ≡ true = ground (arith, h) in rw full refl

-- A message that the daemon's or this library's `encode_frame` framed, of at most 64 KiB: a call with
-- room for it answers OK with the message at the start of the buffer and its length, and what follows
-- is next on the stream.
pub recv_json-delivers :
    (client : NeoshClient) (payload rest buf : Bytes) (out_cap v : ℕ)
    → length payload ≤ max_control_frame
    → length payload ≤ out_cap
    → recv_json in_time
        (some (with_recv client (encode_frame payload ++ rest)))
        (some buf)
        out_cap
        (some v)
      ≡ record {
        client = some (with_recv client rest);
        out_buf = some (copy payload buf);
        out_len = some (length payload);
        code = ok_code;
      }
recv_json-delivers client payload rest buf out_cap v h fits =
    recv_json-encode_frame client payload rest (some buf) out_cap v h
    ∙ deliver-fits (with_recv client rest) buf out_cap payload fits

-- Calls whose time is over before a byte of the header has arrived, one after another, then one in
-- time, in the same places.
unfoldable pub poll : ℕ → Option NeoshClient → Option Bytes → ℕ → Option ℕ → Received
poll zero client out_buf out_cap out_len = recv_json in_time client out_buf out_cap out_len
poll (suc n) client out_buf out_cap out_len =
    let r = recv_json (elapsed 0) client out_buf out_cap out_len in
    poll n r.client r.out_buf out_cap r.out_len

poll-recv_json :
    (n : ℕ) (client : NeoshClient) (out_buf : Option Bytes) (out_cap v : ℕ)
    → (w : ℕ) × (poll n (some client) out_buf out_cap (some v)
        ≡ recv_json in_time (some client) out_buf out_cap (some w))
unfolding poll neosh_client_recv_control_json after_read read_control_payload_with_timeout
poll-recv_json zero client out_buf out_cap v = (v, refl)
poll-recv_json (suc n) client out_buf out_cap v = poll-recv_json n client out_buf out_cap 0

-- A message of at most 64 KiB, and a buffer with room for it: however often a caller polled before
-- the first byte of the message arrived, the next call answers OK with the message at the start of
-- the buffer and its length, and what follows the message is next on the stream.
pub poll-delivers :
    (n : ℕ) (client : NeoshClient) (payload rest buf : Bytes) (out_cap v : ℕ)
    → length payload ≤ max_control_frame
    → length payload ≤ out_cap
    → poll n (some (with_recv client (encode_frame payload ++ rest))) (some buf) out_cap (some v)
      ≡ record {
        client = some (with_recv client rest);
        out_buf = some (copy payload buf);
        out_len = some (length payload);
        code = ok_code;
      }
poll-delivers n client payload rest buf out_cap v h fits =
    let (w, e) =
      poll-recv_json n (with_recv client (encode_frame payload ++ rest)) (some buf) out_cap v in
    e ∙ recv_json-delivers client payload rest buf out_cap w h fits

-- Two messages of at most 64 KiB each are on the stream, and a call has no room for the first: it
-- says so, with the length that the first needs, and takes it from the stream, so that a second
-- call with room gets the second message.
pub recv_json-drops :
    (client : NeoshClient) (lost payload rest buf : Bytes) (out_cap out_cap' v : ℕ)
    → length lost ≤ max_control_frame
    → length payload ≤ max_control_frame
    → out_cap < length lost
    → length payload ≤ out_cap'
    → let stream = encode_frame lost ++ (encode_frame payload ++ rest) in
      let first = recv_json in_time (some (with_recv client stream)) (some buf) out_cap (some v) in
      let second = recv_json in_time first.client first.out_buf out_cap' first.out_len in
      (first.code ≡ buffer_too_small)
      × (first.out_len ≡ some (length lost))
      × (second.code ≡ ok_code)
      × (second.out_buf ≡ some (copy payload buf))
unfolding set_client_error
recv_json-drops client lost payload rest buf out_cap out_cap' v hl hp small fits =
    let stream = encode_frame payload ++ rest in
    let first =
      recv_json-encode_frame client lost stream (some buf) out_cap v hl
      ∙ deliver-small (with_recv client stream) buf out_cap lost small in
    let told =
      set_client_error client (codes "buffer too small, need " ++ show_usize (length lost))
        buffer_too_small in
    let second = recv_json-delivers told.0 payload rest buf out_cap' (length lost) hp fits in
    rw first (refl, refl, ap (λ r. r.code) second, ap (λ r. r.out_buf) second)
