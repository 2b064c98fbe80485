-- ===== src/Tests/Ffi.antt =====
-- Examples for ffi/neosh-client-c/src/lib.rs.
use neosh.Prelude.{
  ok, err, Bytes, codes, show_digits, ℕ, ◌≡◌, refl, none, some, List, [], ◌∷◌, ◌++◌, arith,
}
use neosh.Protocol.Framing.{encode_frame}
use neosh.Ffi.Client.{failed, ok_code, buffer_too_small, NeoshClient}
use neosh.Ffi.Control.{
  in_time, elapsed, read_control_payload_with_timeout, Received, neosh_client_recv_control_json,
}
use neosh.Ffi.Control.Bounds.{Within, recv_control_json-Within}
use neosh.Ffi.Control.Frames.{recv_json, with_recv, poll, poll-delivers, recv_json-drops}
use neosh.Ffi.Control.Messages.{send_all, read_frames, sent, read_frames-send_all}
use neosh.Ffi.Streams.{Read, bytes, timed_out, neosh_client_recv_stdout}
use neosh.Ffi.Streams.Stdout.{
  taken, left, Call, receives, sends, opens, perform, taken_by, receive_all, receive_all-splits,
}

abbrev client : NeoshClient
client = record {
  control_send = [];
  control_recv = [];
  stdin_send = none;
  stdout_recv = some (1 ∷ 2 ∷ 3 ∷ 4 ∷ 5 ∷ []);
  last_error = codes "ok";
}

abbrev pong : Bytes
pong = 7 ∷ 8 ∷ 9 ∷ []

abbrev room : Bytes
room = 0 ∷ 0 ∷ 0 ∷ 0 ∷ []

poll-delivers_example :
    poll 2 (some (with_recv client (encode_frame pong ++ []))) (some room) 4 (some 0) ≡ record {
      client = some (with_recv client []);
      out_buf = some (7 ∷ 8 ∷ 9 ∷ 0 ∷ []);
      out_len = some 3;
      code = ok_code;
    }
poll-delivers_example = poll-delivers 2 client pong [] room 4 0 (omega arith) (omega arith)

abbrev two_frames : Bytes
two_frames = encode_frame pong ++ (encode_frame (5 ∷ []) ++ [])

abbrev first : Received
first = recv_json in_time (some (with_recv client two_frames)) (some room) 2 (some 0)

abbrev second : Received
second = recv_json in_time first.client first.out_buf 4 first.out_len

recv_json-drops_example :
    (first.code ≡ buffer_too_small)
    × (first.out_len ≡ some 3)
    × (second.code ≡ ok_code)
    × (second.out_buf ≡ some (5 ∷ 0 ∷ 0 ∷ 0 ∷ []))
recv_json-drops_example =
    recv_json-drops client pong (5 ∷ []) [] room 2 4 0 (omega arith) (omega arith) (omega arith)
      (omega arith)

recv_control_json-Within_example :
    Within 3
      (some room)
      (neosh_client_recv_control_json in_time
        (some (with_recv client two_frames))
        (some room)
        3
        (some 0)).out_buf
recv_control_json-Within_example =
    recv_control_json-Within in_time (some (with_recv client two_frames)) (some room) 3 (some 0)
      (omega arith)

abbrev call : Read → ℕ → Call
call answer cap = receives answer (some room) cap (some 0) (some 0)

-- Among the reads, a write and a try to open the streams again, which both fail.
abbrev calls : List Call
calls =
    call (bytes 9) 4
    ∷ call timed_out 4
    ∷ sends (failed 1 (codes "reset")) (some room) 2 (some 0)
    ∷ opens (ok tt) (err (codes "closed"))
    ∷ call (bytes 9) 0
    ∷ []

receive_all-splits_example :
    (receive_all calls (some client)).0 ++ (receive_all calls (some client)).1 ≡ left (some client)
receive_all-splits_example = receive_all-splits calls (some client) (tt, (tt, (tt, (tt, (tt, tt)))))

-- The first call takes four bytes, and the others none.
receive_some : receive_all calls (some client) ≡ (1 ∷ 2 ∷ 3 ∷ 4 ∷ [], 5 ∷ [])
unfolding receive_all taken_by left taken perform neosh_client_recv_stdout
    neosh.Ffi.Streams.neosh_client_send_stdin neosh.Ffi.Streams.neosh_client_open_data_streams
receive_some = refl

read_frames-send_all_example :
    read_frames 2 (sent (send_all (some client) (pong ∷ [] ∷ []))) ≡ ok (pong ∷ [] ∷ [], [])
read_frames-send_all_example =
    read_frames-send_all client (pong ∷ [] ∷ []) refl (omega arith, (omega arith, tt))

-- A wait that ends within the header leaves the rest of it to be read as the next header.
header_lost :
    (read_control_payload_with_timeout in_time
      (read_control_payload_with_timeout (elapsed 3) (encode_frame (1 ∷ 2 ∷ 3 ∷ 4 ∷ []))).0).1
    ≡ err (codes "control frame too large: 67174915")
unfolding read_control_payload_with_timeout encode_frame show_digits
header_lost = refl
