-- ===== src/Server/Start/Offers.antt =====
-- What a daemon of src/bin/neoshd.rs offers once it has started, and that it starts without a panic.
use mathlib.Core.List.{append-nil, append_assoc}
use neosh.Server.Tls.{
  build_server_tls, tls_identity, server_config, sha256_fingerprint, ServerConfig,
  resolve_bind_addrs, push_bytes,
}
use neosh.Server.Listen.{validate_new_args, bind_endpoint}
use neosh.Prelude.{
  concat, ok, Result-cases, bind-ok, Text, Bytes, codes, ℕ, ◌≡◌, refl, sym, inl, inr, some, List,
  [], ◌∷◌, ◌++◌, map, arith,
}
use neosh.Server.State.{NewArgs, ServerState, BootstrapOutput, new, bootstrap_output}
use neosh.Server.Start.{Machine, Started, quic_addr, begin_session, bind_session, start_new}
use neosh.Client.Transport
use neosh.Client.Transport.{hex_byte}

push_bytes-concat : (out : Text) (bs : Bytes) → push_bytes out bs ≡ out ++ concat (map hex_byte bs)
push_bytes-concat out [] = sym (append-nil out)
push_bytes-concat out (b ∷ bs) =
    rw (push_bytes-concat (out ++ hex_byte b) bs)
      (append_assoc out (hex_byte b) (concat (map hex_byte bs)))

-- The daemon and the client take the same fingerprint of a certificate.
pub fingerprints_agree :
    (sha256 : Bytes → Bytes) (cert : Bytes)
    → sha256_fingerprint sha256 cert ≡ Transport.sha256_fingerprint sha256 cert
unfolding sha256_fingerprint Transport.sha256_fingerprint
fingerprints_agree sha256 cert = push_bytes-concat (codes "sha256:") (sha256 cert)

module _ {Addr : Type 0} (hash : Text → ℕ) (sha256 : Bytes → Bytes) (m : Machine Addr)
    (args : NewArgs) where
  -- The state of a daemon at an address and a port, and what it prints.
  abbrev pub begins : Text → Addr × ℕ → ServerState × BootstrapOutput
  begins fp (ip, port) =
      bootstrap_output hash
        (new m.now m.new_v4 args.user m.geteuid (quic_addr (m.show ip) port) fp args) m.draw

  pub begin_session-ok :
      (cfg : ServerConfig) (fp : Text) (bound : Addr × ℕ) (s : Started Addr)
      → begin_session hash sha256 m args cfg fp bound ≡ ok s
      → (s.config ≡ cfg)
        × (s.addr ≡ bound.0)
        × (s.port ≡ bound.1)
        × (s.server ≡ (begins fp bound).0)
        × (s.printed ≡ (begins fp bound).1)
  unfolding begin_session
  begin_session-ok cfg fp bound s h = ground (arith, h)

  pub bind_session-ok :
      (cfg : ServerConfig) (fp : Text) (s : Started Addr)
      → bind_session hash sha256 m args cfg fp ≡ ok s
      → (addrs : List Addr) × (bind_endpoint (m.serves cfg) addrs args.port_range
          ≡ ok (s.addr, s.port))
        × (s.config ≡ cfg)
        × (s.server ≡ (begins fp (s.addr, s.port)).0)
        × (s.printed ≡ (begins fp (s.addr, s.port)).1)
  unfolding bind_session
  bind_session-ok cfg fp s h =
      let (addrs, e1, h1) = bind-ok (resolve_bind_addrs m.net m.ssh_connection args) _ s h in
      let (bound, e2, h2) = bind-ok (bind_endpoint (m.serves cfg) addrs args.port_range) _ s h1 in
      let b = begin_session-ok cfg fp bound s h2 in rw (b.1, b.2) (addrs, e2, b.0, b.3, b.4)

  start_new-value :
      (id : Bytes × Bytes)
      → validate_new_args m.tls.idle_timeout args ≡ ok tt
      → tls_identity m.tls args ≡ ok id
      → m.tls.idle_timeout args.quic_idle_timeout_seconds ≡ ok tt
      → start_new hash sha256 m args
        ≡ some (
            bind_session hash sha256 m args
              (server_config args id)
              (sha256_fingerprint sha256 id.0))
  unfolding start_new build_server_tls
  start_new-value id q r t = rw (q, start_new) (rw (r, build_server_tls) (rw t refl))

  -- A daemon that has started passed the checks, and serves with some certificate and its key.
  pub start_new-ok :
      (s : Started Addr)
      → start_new hash sha256 m args ≡ some (ok s)
      → (identity : Bytes × Bytes) × (bind_session hash sha256 m args
            (server_config args identity)
            (sha256_fingerprint sha256 identity.0)
          ≡ ok s)
  unfolding start_new build_server_tls
  start_new-ok s h = elim (Result-cases (validate_new_args m.tls.idle_timeout args)) [
    | inr (e, q) ↦ ground (arith, h, q)
    | inl (u, q) ↦ elim (Result-cases (tls_identity m.tls args)) [
      | inr (e, r) ↦ ground (arith, h, q, r)
      | inl (id, r) ↦ elim (Result-cases (m.tls.idle_timeout args.quic_idle_timeout_seconds)) [
        | inr (e, t) ↦ ground (arith, h, q, r, t)
        | inl (v, t) ↦ let value = start_new-value id q r t in (id, ground (arith, h, value))
      ]
    ]
  ]
