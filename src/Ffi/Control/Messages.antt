-- ===== src/Ffi/Control/Messages.antt =====
-- ffi/neosh-client-c/src/lib.rs and src/bin/neoshd.rs: messages from a C program to the daemon.
use mathlib.Core.List.{append-nil, append_assoc}
use neosh.Prelude.{
  length, Result, ok, ◌>>=◌, Bytes, ℕ, zero, suc, ◌≤◌, ◌≡◌, refl, sym, ap, ◌∙◌, Option, none, some,
  List, [], ◌∷◌, ◌++◌,
}
use neosh.Protocol.Framing.{encode_frame}
use neosh.Server.Errors.{NeoshdError}
use neosh.Server.Wire.{max_control_frame, read_control_frame, read_control_frame-encode_frame}
use neosh.Ffi.Client.{NeoshClient, complete}
use neosh.Ffi.Control.{neosh_client_send_control_json}

-- Messages sent one after another, where the stream takes every write.
unfoldable pub send_all : Option NeoshClient → List Bytes → Option NeoshClient
send_all client [] = client
send_all client (p ∷ ps) = send_all (neosh_client_send_control_json complete client (some p)).0 ps

-- So many frames, read by the daemon one after another.
unfoldable pub read_frames : ℕ → Bytes → Result NeoshdError (List Bytes × Bytes)
read_frames zero stream = ok ([], stream)
read_frames (suc n) stream = do
  (payload, stream') ← read_control_frame stream
  (payloads, rest) ← read_frames n stream'
  ok (payload ∷ payloads, rest)

unfoldable pub frames : List Bytes → Bytes
frames [] = []
frames (p ∷ ps) = encode_frame p ++ frames ps

-- Messages of at most 64 KiB each.
abbrev pub Fit : List Bytes → Type 0
Fit [] = Unit
Fit (p ∷ ps) = (length p ≤ max_control_frame) × Fit ps

abbrev pub sent : Option NeoshClient → Bytes
sent none = []
sent (some client) = client.control_send

sent-send_all :
    (client : NeoshClient) (ps : List Bytes)
    → sent (send_all (some client) ps) ≡ client.control_send ++ frames ps
unfolding send_all frames neosh_client_send_control_json
sent-send_all client [] = sym (append-nil client.control_send)
sent-send_all client (p ∷ ps) =
    sent-send_all (record client { control_send = client.control_send ++ encode_frame p }) ps
    ∙ append_assoc client.control_send (encode_frame p) (frames ps)

read_frames-frames : (ps : List Bytes) → Fit ps → read_frames (length ps) (frames ps) ≡ ok (ps, [])
unfolding read_frames frames
read_frames-frames [] h = refl
read_frames-frames (p ∷ ps) (fits, h) =
    rw (read_control_frame-encode_frame p (frames ps) fits, read_frames-frames ps h) refl

-- Messages of at most 64 KiB each, that a new client sends one after another: the daemon reads them,
-- in their order, and nothing else.
pub read_frames-send_all :
    (client : NeoshClient) (ps : List Bytes)
    → client.control_send ≡ []
    → Fit ps
    → read_frames (length ps) (sent (send_all (some client) ps)) ≡ ok (ps, [])
read_frames-send_all client ps new h =
    ap (read_frames (length ps)) (sent-send_all client ps ∙ ap (λ s. s ++ frames ps) new)
    ∙ read_frames-frames ps h
