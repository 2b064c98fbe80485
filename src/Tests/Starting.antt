-- ===== src/Tests/Starting.antt =====
-- Examples for the start of src/bin/neoshd.rs.
use neosh.Token.Service
use neosh.Server.State.{BootstrapOutput, ServerState, new, bootstrap_output}
use neosh.Server.State.Soundness.{IsSound}
use neosh.Server.Tls.{server_config, sha256_fingerprint, Tls, Pem, Resolver, ServerConfig}
use neosh.Server.Start.{Started, start_new, quic_addr, Machine, begin_session}
use neosh.Client.Transport
use neosh.Client.Bootstrap.{validate_bootstrap_payload}
use neosh.Link.Fresh.{payload_of}
use neosh.Link.Starting.{start_new-offers}
use neosh.Tests.Link.{digest, digest-HasBytes}
use neosh.Tests.Server.{args}
use neosh.Prelude.{
  [], ◌==◌, length, ok, err, Bytes, codes, text_eq, split, parse_digits, parse_u16, ℕ, ◌≤◌, ◌<◌,
  ◌≡◌, refl, true, none, some, ◌∷◌, arith,
}
use neosh.Token.Service.{Draw}

abbrev pem : Pem
pem = record {
  read = λ path. err (codes "no such file");
  certs = λ bytes. ok [];
  pkcs8_private_keys = λ bytes. ok [];
}

abbrev tls : Tls
tls = record {
  pem = pem;
  generate_simple_self_signed = ok (17 ∷ 4 ∷ [], 9 ∷ []);
  with_single_cert = λ cert key. ok tt;
  quic_config = ok tt;
  idle_timeout = λ secs. ok tt;
}

-- Addresses are numbers: 0 is every one of this host, written as its digits.
abbrev resolver : Resolver ℕ
resolver = record {
  parse = λ t. none;
  localhost = 127;
  unspecified = 0;
  to_socket_addrs = λ t. err (codes "unknown host");
}

abbrev machine : Machine ℕ
machine = record {
  tls = tls;
  net = resolver;
  ssh_connection = none;
  serves = λ config addr port. port == 4434;
  show = λ addr. codes "0.0.0.0";
  new_v4 = 5;
  geteuid = 1000;
  now = 100;
  draw = record { raw = codes "tok"; now = 100; jti = 1 };
  to_string = λ out. ok (codes "{}");
  flush = ok tt;
  create_dir_all = ok tt;
}

abbrev certificate : Bytes
certificate = 17 ∷ 4 ∷ []

abbrev out : ServerState × BootstrapOutput
out =
    bootstrap_output length
      (new 100 5 (codes "ann") 1000 (quic_addr (codes "0.0.0.0") 4434)
        (sha256_fingerprint digest certificate) args)
      machine.draw

abbrev started : Started ℕ
started = record {
  config = server_config args (certificate, 9 ∷ []);
  addr = 0;
  port = 4434;
  server = out.0;
  printed = out.1;
}

starts : start_new length digest machine args ≡ some (ok started)
unfolding start_new neosh.Server.Start.bind_session neosh.Server.Start.begin_session
    neosh.Server.Listen.validate_new_args neosh.Server.Listen.bind_endpoint
    neosh.Server.Listen.parse_port_range neosh.Server.Listen.port_pair
    neosh.Server.Listen.first_endpoint neosh.Server.Listen.first_port neosh.Prelude.split
    neosh.Prelude.parse_u16 neosh.Prelude.parse_digits neosh.Prelude.text_eq
    neosh.Server.Tls.build_server_tls neosh.Server.Tls.tls_identity
    neosh.Server.Tls.resolve_bind_addrs
starts = refl

start_new-offers_example :
    (machine.serves started.config 0 4434 ≡ true)
    × (1 ≤ 4434)
    × (4434 < 65536)
    × (started.printed.quic_addr ≡ quic_addr (codes "0.0.0.0") 4434)
    × (started.printed.cert_fingerprint ≡ Transport.sha256_fingerprint digest certificate)
    × (validate_bootstrap_payload (payload_of started.printed) ≡ ok tt)
    × ((Service.validate_and_consume_auth length started.server.tokens started.printed.auth_token
          started.printed.session_id
          (codes "ann")
          200).1
        ≡ ok tt)
    × IsSound started.server
start_new-offers_example =
    start_new-offers length digest machine args started b'0' (codes ".0.0.0") 200 starts
      digest-HasBytes refl (ground arith) refl (ground arith) (omega arith)
