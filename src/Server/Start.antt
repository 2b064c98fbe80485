-- ===== src/Server/Start.antt =====
-- `run_new` of src/bin/neoshd.rs: a daemon that starts, up to its accept loop. The operating system and the
-- libraries answer through `Machine`; what is logged is left out.
pub mod Offers
use neosh.Prelude.{
  Result, ok, err, ◌>>=◌, ◌>>◌, map_err, Text, Bytes, Uuid, SystemTime, decimal, ℕ, Bool, Option,
  none, some, ◌∷◌, ◌++◌,
}
use neosh.Token.Service.{Draw}
use neosh.Server.Errors.{NeoshdError, config, io, internal}
use neosh.Server.State.{NewArgs, ServerState, BootstrapOutput, new, bootstrap_output}
use neosh.Server.Listen.{validate_new_args, bind_endpoint}
use neosh.Server.Tls.{Tls, ServerConfig, Resolver, build_server_tls, resolve_bind_addrs}

-- The variable `SSH_CONNECTION`, whether an endpoint can serve at an address and a port, the text of
-- an address, `Uuid::new_v4()`, `geteuid()`, the clock, the draw of the token, what
-- `serde_json::to_string` and the flush of the standard output answer, and `create_dir_all`.
pub record Machine (Addr : Type 0) : Type 0 where
  pub tls : Tls
  pub net : Resolver Addr
  pub ssh_connection : Option Text
  pub serves : ServerConfig → Addr → ℕ → Bool
  pub show : Addr → Text
  pub new_v4 : Uuid
  pub geteuid : ℕ
  pub now : SystemTime
  pub draw : Draw
  pub to_string : BootstrapOutput → Result Text Text
  pub flush : Result Text (Unit {0})
  pub create_dir_all : Result Text (Unit {0})

-- A daemon before its accept loop: what it serves with and where, its state, and what it printed.
pub record Started (Addr : Type 0) : Type 0 where
  pub config : ServerConfig
  pub addr : Addr
  pub port : ℕ
  pub server : ServerState
  pub printed : BootstrapOutput

-- `format!("{}:{}", ip, port)`.
abbrev pub quic_addr : Text → ℕ → Text
quic_addr ip port = ip ++ b':' ∷ decimal port

module _ {Addr : Type 0} (hash : Text → ℕ) (sha256 : Bytes → Bytes) (m : Machine Addr) where
  -- From the state on.
  unfoldable pub begin_session :
      NewArgs → ServerConfig → Text → Addr × ℕ → Result NeoshdError (Started Addr)
  unfolding new bootstrap_output
  begin_session args server_config cert_fingerprint (ip, port) = do
    let out =
        bootstrap_output hash
          (new m.now m.new_v4 args.user m.geteuid (quic_addr (m.show ip) port) cert_fingerprint
            args)
          m.draw
    line ← map_err internal (m.to_string out.1)
    map_err io m.flush
    map_err io m.create_dir_all
    ok (record { config = server_config; addr = ip; port = port; server = out.0; printed = out.1 })

  unfoldable pub bind_session : NewArgs → ServerConfig → Text → Result NeoshdError (Started Addr)
  unfolding bind_endpoint resolve_bind_addrs begin_session
  bind_session args server_config cert_fingerprint = do
    bind_addrs ← resolve_bind_addrs m.net m.ssh_connection args
    bound ← bind_endpoint (m.serves server_config) bind_addrs args.port_range
    begin_session args server_config cert_fingerprint bound

  abbrev pub with_tls :
      NewArgs
      → Option (Result NeoshdError (ServerConfig × Text))
      → Option (Result NeoshdError (Started Addr))
  with_tls args none = none
  with_tls args (some (err e)) = some (err e)
  with_tls args (some (ok (server_config, cert_fingerprint))) =
      some (bind_session args server_config cert_fingerprint)

  -- `none` is a panic.
  unfoldable pub start_new : NewArgs → Option (Result NeoshdError (Started Addr))
  unfolding validate_new_args build_server_tls bind_session
  start_new args = elim (validate_new_args m.tls.idle_timeout args) [
    | err e ↦ some (err e)
    | ok _ ↦ with_tls args (build_server_tls sha256 m.tls args)
  ]
