-- ===== src/Client/Session/Ipc.antt =====
-- src/bin/neosh.rs: the socket on which a running client takes a request to detach.
use neosh.Prelude.{
  if◌then◌else◌, Result, ok, err, Text, Bytes, codes, text_eq→eq, Uuid, ◌≡◌, refl, ap, Bool, true,
  false, ◌&&◌, Option, none, some, ◌++◌, arith,
}
use neosh.Client.Control.{detach, Serde, is_text, encode_control_json}

-- `detach_requested_from_ipc`, what is written to the socket, and whether DETACH was sent, which ends
-- the loop and wakes the session.
pub record Ipc : Type 0 where
  pub requested : Bool
  pub reply : Text
  pub detach_sent : Bool

abbrev pub refused : Bool → Text → Ipc
refused requested error = record {
  requested = requested;
  reply = codes "{\"ok\":false,\"error\":\"" ++ (error ++ codes "\"}");
  detach_sent = false;
}

module _ {Value : Type 0} (json : Serde Value) (show : Uuid → Text) where
  -- `show` is `Uuid::to_string`.
  unfoldable pub is_valid_detach_request : Value → Uuid → Bool
  is_valid_detach_request value expected_session_id =
      is_text (json.type_of value) (codes "DETACH")
      && is_text (json.session_of value) (show expected_session_id)

  -- `write` and `flush` are the stream's answers.
  unfoldable pub send_detach :
      (Bytes → Result Text (Unit {0})) → Result Text (Unit {0}) → Option (Unit {0})
  unfolding encode_control_json
  send_detach write flush = elim (encode_control_json json detach) [
    | err _ ↦ none
    | ok frame ↦ elim (write frame) [
      | err _ ↦ none
      | ok _ ↦ elim flush [ err _ ↦ none | ok _ ↦ some tt ]
    ]
  ]

  -- Whether a valid request was carried out: the flag is set, and taken back if DETACH is not sent.
  abbrev pub answered : Option (Unit {0}) → Ipc
  answered (some _) = record { requested = true; reply = codes "{\"ok\":true}"; detach_sent = true }
  answered none = refused false (codes "failed to send detach")

  -- The answer to a request that was parsed, or was not.
  unfoldable pub on_parsed : Uuid → Bool → Option (Unit {0}) → Result Text Value → Ipc
  unfolding is_valid_detach_request
  on_parsed expected requested sent (err _) = refused requested (codes "invalid request json")
  on_parsed expected requested sent (ok req) =
      if is_valid_detach_request req expected
      then answered sent
      else refused requested (codes "invalid detach request")

  -- One connection to the socket: whether the peer is the owner, the request that was read, and what
  -- became of DETACH, if it is tried.
  unfoldable pub on_ipc : Uuid → Bool → Bool → Option Bytes → Option (Unit {0}) → Ipc
  unfolding on_parsed
  on_ipc expected requested false body sent = refused requested (codes "peer uid mismatch")
  on_ipc expected requested true none sent = refused requested (codes "invalid request body")
  on_ipc expected requested true (some buf) sent =
      on_parsed expected requested sent (json.from_slice buf)

  -- What must hold for a request to detach the session.
  abbrev pub MayDetach : Uuid → Bool → Option Bytes → Option (Unit {0}) → Type 0
  MayDetach expected peer_uid_ok body sent =
      (peer_uid_ok ≡ true)
      × (buf : Bytes) × (body ≡ some buf)
      × (req : Value) × (json.from_slice buf ≡ ok req)
      × (json.type_of req ≡ some (codes "DETACH"))
      × (json.session_of req ≡ some (show expected))
      × (sent ≡ some tt)

  is_text_eq : (o : Option Text) (t : Text) → is_text o t ≡ true → o ≡ some t
  is_text_eq none t h = cc
  is_text_eq (some s) t h = ap (λ x. some x) (text_eq→eq s t h)

  answered-sent : (sent : Option (Unit {0})) → (answered sent).detach_sent ≡ true → sent ≡ some tt
  answered-sent (some _) h = refl
  answered-sent none h = cc

  on_parsed-sent :
      (expected : Uuid) (requested : Bool) (sent : Option (Unit {0})) (req : Value)
      → (on_parsed expected requested sent (ok req)).detach_sent ≡ true
      → (is_text (json.type_of req) (codes "DETACH") ≡ true)
        × (is_text (json.session_of req) (show expected) ≡ true)
        × ((answered sent).detach_sent ≡ true)
  unfolding on_parsed is_valid_detach_request
  on_parsed-sent expected requested sent req h = ground (arith, h)

  on_parsed-MayDetach :
      (expected : Uuid) (requested : Bool) (buf : Bytes) (sent : Option (Unit {0}))
      (r : Result Text Value)
      → json.from_slice buf ≡ r
      → (on_parsed expected requested sent r).detach_sent ≡ true
      → MayDetach expected true (some buf) sent
  unfolding on_parsed
  on_parsed-MayDetach expected requested buf sent (err e) q h = cc
  on_parsed-MayDetach expected requested buf sent (ok req) q h =
      let (typed, session, was_sent) = on_parsed-sent expected requested sent req h in
      (
        refl,
        buf,
        refl,
        req,
        q,
        is_text_eq (json.type_of req) (codes "DETACH") typed,
        is_text_eq (json.session_of req) (show expected) session,
        answered-sent sent was_sent,
      )

  -- A request detaches the session only if the owner of the client's process made it, it reads as
  -- DETACH with this session's id, and DETACH was sent.
  pub on_ipc-MayDetach :
      (expected : Uuid) (requested peer_uid_ok : Bool) (body : Option Bytes)
      (sent : Option (Unit {0}))
      → (on_ipc expected requested peer_uid_ok body sent).detach_sent ≡ true
      → MayDetach expected peer_uid_ok body sent
  unfolding on_ipc
  on_ipc-MayDetach expected requested false body sent h = cc
  on_ipc-MayDetach expected requested true none sent h = cc
  on_ipc-MayDetach expected requested true (some buf) sent h =
      on_parsed-MayDetach expected requested buf sent (json.from_slice buf) refl h
