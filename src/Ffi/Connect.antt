-- ===== src/Ffi/Connect.antt =====
-- ffi/neosh-client-c/src/lib.rs: how the client for C connects, and the error it leaves for the process.
use neosh.Prelude.{
  if◌then◌else◌, Result, ok, err, ◌>>=◌, ◌>>◌, map_err, Text, Bytes, codes, trim, ◌≡◌, refl, sym,
  ap, ◌∙◌, Bool, Option, none, some, List, [], ◌∷◌, ◌++◌, arith,
}
use neosh.Client.Transport
use neosh.Client.Transport.{QuicClientError, Network, connect_and_verify, sha256_fingerprint}
use neosh.Client.Transport.Pinning.{HasBytes, connect_and_verify-Pins}
use neosh.Ffi.Client.{NeoshClient, cstring_lossy, cstr_to_string}

abbrev pub fresh : Bytes → NeoshClient
fresh control_recv = record {
  control_send = [];
  control_recv = control_recv;
  stdin_send = none;
  stdout_recv = none;
  last_error = codes "ok";
}

-- The client, or the text of what went wrong. `open_bi` is the connection's answer: the bytes that the
-- control stream will bring.
unfoldable pub connected :
    Result QuicClientError (Unit {0}) → Result Text Bytes → Result Text NeoshClient
connected verified open_bi = do
  map_err (λ e. codes "connect failed: " ++ Transport.to_string e) verified
  control_recv ← map_err (λ e. codes "open control stream failed: " ++ e) open_bi
  ok (fresh control_recv)

-- The lock of the error of the process may be poisoned, and then the error is kept.
unfoldable pub set_global_error : Bool → Text → Text → Text
unfolding cstring_lossy
set_global_error poisoned last msg = if poisoned then last else cstring_lossy msg

-- The error of the process and the pointer that is returned.
abbrev returned : Bool → Text → Result Text NeoshClient → Text × Option NeoshClient
returned poisoned last (ok client) = (last, some client)
returned poisoned last (err e) = (set_global_error poisoned last e, none)

module _ (digest : Bytes → Bytes) where
  -- `net` is what the library answers at an address.
  unfoldable pub connecting :
      (Text → Network digest)
      → Result Text Bytes
      → Option (Option Text)
      → Option (Option Text)
      → Result Text NeoshClient
  unfolding connected cstr_to_string
  connecting net open_bi quic_addr expected_fingerprint = do
    quic_addr ← cstr_to_string quic_addr (codes "quic_addr")
    expected_fingerprint ← cstr_to_string expected_fingerprint (codes "expected_fingerprint")
    connected (connect_and_verify digest (net quic_addr) expected_fingerprint) open_bi

  unfoldable pub neosh_client_connect :
      (Text → Network digest)
      → Result Text Bytes
      → Bool
      → Text
      → Option (Option Text)
      → Option (Option Text)
      → Text × Option NeoshClient
  unfolding connecting set_global_error
  neosh_client_connect net open_bi poisoned last quic_addr expected_fingerprint =
      returned poisoned last (connecting net open_bi quic_addr expected_fingerprint)

unfoldable pub neosh_client_last_error_global : Bool → Text → Text
neosh_client_last_error_global poisoned last =
    if poisoned then codes "global error lock poisoned" else last

ok-eq : (a b : NeoshClient) → ◌≡◌ {A = Result Text NeoshClient} (ok a) (ok b) → a ≡ b
ok-eq a b h = cc

connected-verified :
    (verified : Result QuicClientError (Unit {0})) (open_bi : Result Text Bytes) (c : NeoshClient)
    → connected verified open_bi ≡ ok c
    → (verified ≡ ok tt) × (open_bi ≡ ok c.control_recv) × (c ≡ fresh c.control_recv)
unfolding connected
connected-verified (ok _) (ok recv) c h =
    let e = ok-eq (fresh recv) c h in
    (
      refl,
      ap (λ (x : NeoshClient). ok x.control_recv) e,
      sym e ∙ ap (λ (x : NeoshClient). fresh x.control_recv) e,
    )
connected-verified (ok _) (err e) c h = cc
connected-verified (err e) open_bi c h = cc

returned-ok :
    (poisoned : Bool) (last : Text) (r : Result Text NeoshClient) (c : NeoshClient)
    → (returned poisoned last r).1 ≡ some c
    → r ≡ ok c
returned-ok poisoned last (ok d) c h = cc
returned-ok poisoned last (err e) c h = cc

module _ (digest : Bytes → Bytes) where
  connecting-steps :
      (net : Text → Network digest) (open_bi : Result Text Bytes) (addr fingerprint : Text)
      (c : NeoshClient)
      → connecting digest net open_bi (some (some addr)) (some (some fingerprint)) ≡ ok c
      → connected (connect_and_verify digest (net (trim addr)) (trim fingerprint)) open_bi ≡ ok c
  unfolding connecting cstr_to_string
  connecting-steps net open_bi addr fingerprint c h = ground (arith, h)

  -- A pointer that is not null, from a fingerprint that is that of a certificate but for white space
  -- around it: the first certificate that the daemon shows has its digest, and the client has sent
  -- nothing, has no data streams, and reads what the control stream brings.
  pub neosh_client_connect-Pins :
      (net : Text → Network digest) (open_bi : Result Text Bytes) (poisoned : Bool)
      (last addr fingerprint : Text) (cert : Bytes) (c : NeoshClient)
      → ((x : Bytes) → HasBytes digest x)
      → trim fingerprint ≡ sha256_fingerprint digest cert
      → (neosh_client_connect digest net open_bi poisoned last
          (some (some addr))
          (some (some fingerprint))).1
        ≡ some c
      → (x : Bytes) × (rest : List Bytes) × ((net (trim addr)).identity ≡ some (x ∷ rest))
        × (digest x ≡ digest cert)
        × (open_bi ≡ ok c.control_recv)
        × (c ≡ fresh c.control_recv)
  unfolding neosh_client_connect
  neosh_client_connect-Pins net open_bi poisoned last addr fingerprint cert c hb fp h =
      let made =
        returned-ok poisoned last
          (connecting digest net open_bi (some (some addr)) (some (some fingerprint))) c h in
      let (verified, opened, is_fresh) =
        connected-verified (connect_and_verify digest (net (trim addr)) (trim fingerprint)) open_bi
          c (connecting-steps net open_bi addr fingerprint c made) in
      let (_, _, x, rest, shown, same) =
        connect_and_verify-Pins digest (net (trim addr)) cert hb
          (ap (connect_and_verify digest (net (trim addr))) (sym fp) ∙ verified) in
      (x, rest, shown, same, opened, is_fresh)
