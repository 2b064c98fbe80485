-- ===== src/Ffi/Control/Bounds.antt =====
-- ffi/neosh-client-c/src/lib.rs: what a receive writes of the caller's memory.
use neosh.Prelude.{
  ltb, Bool-cases, length, drop, length-append, length-drop, Result, ok, err, Text, Bytes, ℕ, zero,
  suc, ◌≤◌, ◌≡◌, refl, inl, inr, Option, none, some, [], ◌∷◌, arith,
}
use neosh.Ffi.Client.{NeoshClient}
use neosh.Ffi.Control.{
  Wait, read_control_payload_with_timeout, copy, deliver, after_read,
  neosh_client_recv_control_json,
}

-- The same memory: nothing is written behind the capacity.
abbrev pub Within : ℕ → Option Bytes → Option Bytes → Type 0
Within out_cap none none = Unit {0}
Within out_cap (some buf) (some buf') =
    (length buf' ≡ length buf) × (drop out_cap buf' ≡ drop out_cap buf)
Within out_cap _ _ = ⊥

abbrev pub HasRoom : ℕ → Option Bytes → Type 0
HasRoom out_cap none = Unit {0}
HasRoom out_cap (some buf) = out_cap ≤ length buf

Within-refl : (out_cap : ℕ) (buf : Option Bytes) → Within out_cap buf buf
Within-refl out_cap none = tt
Within-refl out_cap (some buf) = (refl, refl)

length-copy :
    (payload buf : Bytes) → length payload ≤ length buf → length (copy payload buf) ≡ length buf
length-copy payload buf h =
    omega (
      arith,
      h,
      length-append payload (drop (length payload) buf),
      length-drop (length payload) buf,
    )

drop-copy :
    (n : ℕ) (payload buf : Bytes)
    → length payload ≤ n
    → length payload ≤ length buf
    → drop n (copy payload buf) ≡ drop n buf
drop-copy n [] buf h k = refl
drop-copy n (b ∷ payload) [] h k = ground (arith, k)
drop-copy (suc n) (b ∷ payload) (x ∷ buf) h k =
    drop-copy n payload buf (omega (arith, h)) (omega (arith, k))
drop-copy zero (b ∷ payload) (x ∷ buf) h k = ground (arith, h)

deliver-Within :
    (client : NeoshClient) (out_buf : Option Bytes) (out_cap : ℕ) (payload : Bytes)
    → HasRoom out_cap out_buf
    → Within out_cap out_buf (deliver client out_buf out_cap payload).out_buf
unfolding deliver
deliver-Within client none out_cap [] h = tt
deliver-Within client none out_cap (b ∷ bs) h = tt
deliver-Within client (some buf) out_cap payload h =
    elim (Bool-cases (ltb out_cap (length payload))) [
      | inl full ↦ rw (full, Within) (refl, refl)
      | inr fits ↦
          let small : length payload ≤ out_cap = ground (arith, fits) in
          rw (fits, Within)
            (
              length-copy payload buf (omega (arith, small, h)),
              drop-copy out_cap payload buf small (omega (arith, small, h)),
            )
    ]

after_read-Within :
    (client : NeoshClient) (out_buf : Option Bytes) (out_cap v : ℕ)
    (read : Bytes × Result Text (Option Bytes))
    → HasRoom out_cap out_buf
    → Within out_cap out_buf (after_read client out_buf out_cap v read).out_buf
unfolding after_read
after_read-Within client out_buf out_cap v (recv, ok (some payload)) h =
    deliver-Within (record client { control_recv = recv }) out_buf out_cap payload h
after_read-Within client out_buf out_cap v (recv, ok none) h = Within-refl out_cap out_buf
after_read-Within client out_buf out_cap v (recv, err e) h = Within-refl out_cap out_buf

-- Whatever arrives, and whichever branch the call takes: memory that has the room the caller says it
-- has keeps its length, and is unchanged behind that room; a null buffer stays null.
pub recv_control_json-Within :
    (wait : Wait) (client : Option NeoshClient) (out_buf : Option Bytes) (out_cap : ℕ)
    (out_len : Option ℕ)
    → HasRoom out_cap out_buf
    → Within out_cap out_buf
        (neosh_client_recv_control_json wait client out_buf out_cap out_len).out_buf
unfolding neosh_client_recv_control_json
recv_control_json-Within wait none out_buf out_cap out_len h = Within-refl out_cap out_buf
recv_control_json-Within wait (some client) out_buf out_cap none h = Within-refl out_cap out_buf
recv_control_json-Within wait (some client) out_buf out_cap (some v) h =
    after_read-Within client out_buf out_cap v
      (read_control_payload_with_timeout wait client.control_recv) h
