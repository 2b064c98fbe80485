-- ===== src/Link/Starting.antt =====
-- What `neoshd new` of src/bin/neoshd.rs prints is what the client of src/bin/neosh.rs accepts, and what the
-- daemon serves.
use neosh.Prelude.{
  is_empty, ok, bind-ok, Text, Bytes, SystemTime, from_secs, as_secs, ℕ, ◌+◌, ◌≤◌, ◌<◌, ◌≡◌, refl,
  ap, subst, ◌≢◌, Bool, true, false, some, List, ◌∷◌, arith,
}
use neosh.Token.Service
use neosh.Token.Service.Issue.{validate-issue}
use neosh.Server.State.{NewArgs, new, bootstrap_output, issue_auth_token}
use neosh.Server.State.Soundness.{IsSound, new-IsSound}
use neosh.Server.Listen.{bind_endpoint, bind_endpoint-Answers, parse_port_range, Answers}
use neosh.Server.Tls.{sha256_fingerprint, server_config}
use neosh.Server.Start.{Machine, Started, start_new, quic_addr}
use neosh.Server.Start.Offers.{fingerprints_agree, start_new-ok, bind_session-ok, begins}
use neosh.Client.Transport
use neosh.Client.Transport.Pinning.{HasBytes}
use neosh.Client.Bootstrap.{validate_bootstrap_payload}
use neosh.Client.Bootstrap.Offers.{validate_bootstrap_payload-offer}
use neosh.Link.Fresh.{payload_of}

module _ {Addr : Type 0} where
  bind_endpoint-bounds :
      (serves : Addr → ℕ → Bool) (addrs : List Addr) (range : Text) (ip : Addr) (p : ℕ)
      → bind_endpoint serves addrs range ≡ ok (ip, p)
      → (1 ≤ p) × (p < 65536) × (serves ip p ≡ true)
  unfolding bind_endpoint
  bind_endpoint-bounds serves addrs range ip p h =
      let (r, e, _) = bind-ok (parse_port_range range) _ (ip, p) h in
      let a : Answers serves r.0 r.1 addrs (ok (ip, p)) =
        subst (Answers serves r.0 r.1 addrs) h
          (bind_endpoint-Answers serves r.0 r.1 addrs range e) in
      (a.0, a.1, a.4)

  module _ (hash : Text → ℕ) (sha256 : Bytes → Bytes) (m : Machine Addr) (args : NewArgs) where
    -- A daemon that starts serves at the address and the port that it prints, which is a nonzero
    -- number of 16 bits, with the certificate whose fingerprint it prints, as the client computes
    -- it; the payload passes the checks of the client, its token is accepted from the owner until
    -- its lifetime ends, and the server is sound: if digests have 32 bytes, the token is not empty
    -- and lasts, and the address is written without a bracket.
    pub start_new-offers :
        (s : Started Addr) (c : ℕ) (ip : Text) (later : SystemTime)
        → start_new hash sha256 m args ≡ some (ok s)
        → ((cert : Bytes) → HasBytes sha256 cert)
        → m.show s.addr ≡ c ∷ ip
        → c ≢ b'['
        → is_empty m.draw.raw ≡ false
        → args.auth_token_ttl ≢ 0
        → later < m.draw.now + from_secs args.auth_token_ttl
        → (m.serves s.config s.addr s.port ≡ true)
          × (1 ≤ s.port)
          × (s.port < 65536)
          × (s.printed.quic_addr ≡ quic_addr (m.show s.addr) s.port)
          × (s.printed.cert_fingerprint ≡ Transport.sha256_fingerprint sha256 s.config.certificate)
          × (validate_bootstrap_payload (payload_of s.printed) ≡ ok tt)
          × ((Service.validate_and_consume_auth hash s.server.tokens s.printed.auth_token
                s.printed.session_id args.user later).1
              ≡ ok tt)
          × IsSound s.server
    unfolding new bootstrap_output issue_auth_token Service.issue_auth_token Service.default
    start_new-offers s c ip later h digests shown plain token lasts alive =
        let (id, hb) = start_new-ok hash sha256 m args s h in
        let fp = sha256_fingerprint sha256 id.0 in
        let (addrs, bound, cfg, server, printed) =
          bind_session-ok hash sha256 m args (server_config args id) fp s hb in
        let b =
          bind_endpoint-bounds (m.serves (server_config args id)) addrs args.port_range s.addr
            s.port bound in
        let agrees = fingerprints_agree sha256 id.0 in
        let out = (begins hash sha256 m args fp (s.addr, s.port)).1 in
        let ttl : as_secs (from_secs args.auth_token_ttl) ≢ 0 = λ e. lasts (omega (arith, e)) in
        let valid =
          validate_bootstrap_payload-offer sha256 id.0 c ip s.port (payload_of out) (digests id.0)
            plain b.1 token ttl (ap (λ a. quic_addr a s.port) shown) agrees in
        let accepted =
          (validate-issue hash Service.default m.draw m.new_v4 m.new_v4 args.user args.user
              (from_secs args.auth_token_ttl) later tt).0.1
            (refl, refl, alive) in
        rw (cfg, server, printed)
          (
            b.2,
            b.0,
            b.1,
            refl,
            agrees,
            valid,
            accepted,
            new-IsSound m.now m.new_v4 args.user m.geteuid (quic_addr (m.show s.addr) s.port) fp
                args,
          )
