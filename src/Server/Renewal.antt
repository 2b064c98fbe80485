-- ===== src/Server/Renewal.antt =====
-- Renewals of src/bin/neoshd.rs: the socket of the daemon, run_ipc_server, and the subcommand that asks it,
-- run_renew_auth. The sockets and `serde_json` are not this repository's code: what they answer is an
-- argument.
pub mod Granted
use neosh.Prelude.{
  [], if◌then◌else◌, Result, ok, err, ◌>>=◌, ◌>>◌, map_err, Text, Bytes, codes, Uuid, ℕ, Bool,
  Option, none, some, List, ◌∷◌, ◌++◌,
}
use neosh.Token.Service.{Draw}
use neosh.Server.Errors.{NeoshdError, config, io, internal}
use neosh.Server.State.{ServerState}
use neosh.Server.Loops.{RenewIpcReq, IpcResponse, ipc_response}

-- What the JSON library does on both sides of the socket: a request and a response as bytes, what is read
-- of them, whether a value has an `error`, and its text.
pub record IpcJson (Value : Type 0) : Type 0 where
  pub request : Uuid → Text → Bytes
  pub read_request : Bytes → Result Text RenewIpcReq
  pub response : IpcResponse → Bytes
  pub read_value : Bytes → Result Text Value
  pub has_error : Value → Bool
  pub shown : Value → Text

-- What one connection to the socket meets: its credentials, what it sends, the draw of a token, and
-- whether the response can be written.
pub record IpcConn : Type 0 where
  pub accept : Result Text (Unit {0})
  pub peer_cred : Result Text ℕ
  pub read_to_end : Result Text Bytes
  pub draw : Draw
  pub write_all : Result Text (Unit {0})
  pub shutdown : Result Text (Unit {0})

module _ {Value : Type 0} (json : IpcJson Value) (hash : Text → ℕ) where
  -- The response to a request that was read, and the server after it.
  abbrev pub responding : ServerState → IpcConn → ℕ × Bytes → ServerState × IpcResponse
  responding st c (peer_uid, buf) = ipc_response hash st peer_uid (json.read_request buf) c.draw

  unfoldable pub ipc_read : IpcConn → Result NeoshdError (ℕ × Bytes)
  ipc_read c = do
    map_err io c.accept
    uid ← map_err (λ e. internal (codes "peer credential read failed: " ++ e)) c.peer_cred
    buf ← map_err io c.read_to_end
    ok (uid, buf)

  unfoldable pub ipc_write : IpcConn → IpcResponse → Result NeoshdError Bytes
  ipc_write c response = do
    map_err io c.write_all
    map_err io c.shutdown
    ok (json.response response)

  -- One round of the loop: the server after it, and the bytes of the response, or the error that ends
  -- the loop.
  unfoldable pub ipc_round : ServerState → IpcConn → ServerState × Result NeoshdError Bytes
  unfolding ipc_read ipc_write
  ipc_round st c = elim (ipc_read c) [
    | err e ↦ (st, err e)
    | ok request ↦ let r = responding st c request in (r.0, ipc_write c r.1)
  ]

  -- The loop, over the connections so far: the server, the responses, and the error, if it has ended.
  unfoldable pub run_ipc_server :
      ServerState → List IpcConn → ServerState × List Bytes × Option NeoshdError
  unfolding ipc_round
  run_ipc_server st [] = (st, [], none)
  run_ipc_server st (c ∷ cs) = elim (ipc_round st c).1 [
    | err e ↦ ((ipc_round st c).0, [], some e)
    | ok bytes ↦ let rest = run_ipc_server (ipc_round st c).0 cs in (rest.0, bytes ∷ rest.1, rest.2)
  ]

  -- What is printed; `connect` to `read` are the answers of the socket at the path `sock`.
  unfoldable pub run_renew_auth :
      Text
      → Uuid
      → Text
      → Result Text (Unit {0})
      → (Bytes → Result Text (Unit {0}))
      → Result Text (Unit {0})
      → Result Text Bytes
      → Result NeoshdError Text
  run_renew_auth sock session_id user connect write_all shutdown read_to_end = do
    map_err
        (λ e. config (codes "cannot reach session control socket " ++ (sock ++ (codes ": " ++ e))))
        connect
    map_err io (write_all (json.request session_id user))
    map_err io shutdown
    buf ← map_err io read_to_end
    value ← map_err (λ e. internal (codes "invalid IPC response: " ++ e)) (json.read_value buf)
    if json.has_error value then err (internal (json.shown value)) else ok (json.shown value)
