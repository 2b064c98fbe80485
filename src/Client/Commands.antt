-- ===== src/Client/Commands.antt =====
-- src/bin/neosh.rs: the subcommands `resume` and `detach`, around the loop of resume_with_backoff and
-- the socket of a running client. The cache, the clock, the directory of the sockets and the socket
-- answer through arguments.
pub mod Checks
use neosh.Prelude.{
  if◌then◌else◌, is_empty, Result, ok, err, ◌>>=◌, ◌>>◌, guard, map_err, Text, Bytes, codes, Uuid,
  ℕ, Bool, false, Option, none, some, List, [], ◌∷◌, ◌++◌,
}
use neosh.Client.Reconnect.{
  CliError, cache, io, protocol, SessionCacheEntry, Attempt, Effect, deletes, resume_entry_expired,
  resume_with_backoff,
}

-- The target that is given, or else the one of the cache.
abbrev pub target_of : Option Text → SessionCacheEntry → Text
target_of none cached = cached.ssh_target
target_of (some target) cached = target

unfoldable pub resume_cmd :
    (ℕ → Attempt)
    → Uuid
    → Option Text
    → Result Text SessionCacheEntry
    → ℕ
    → List Effect × Result CliError (Unit {0})
unfolding resume_with_backoff
resume_cmd answers session_id target_override (err e) now = ([], err (cache e))
resume_cmd answers session_id target_override (ok cached) now =
    if resume_entry_expired cached now
    then (deletes session_id ∷ [], err (cache (codes "resume token expired; start a new connect")))
    else if is_empty (target_of target_override cached)
    then ([], err (cache (codes "missing ssh_target in cache; pass --target explicitly")))
    else resume_with_backoff answers session_id

-- What `detach` meets: the first socket of the directory, the session id in the name of a socket, and
-- the socket's answers to connect, write, shutdown and read; `ok_of` is the field `ok` of a value.
pub record Socket (Value : Type 0) : Type 0 where
  pub discover : Result CliError Text
  pub path_of : Uuid → Text
  pub id_of : Text → Result CliError Uuid
  pub connect : Text → Result Text (Unit {0})
  pub write_all : Uuid → Result Text (Unit {0})
  pub shutdown : Result Text (Unit {0})
  pub read_to_end : Result Text Bytes
  pub from_slice : Bytes → Result Text Value
  pub ok_of : Value → Option Bool
  pub shown : Value → Text

abbrev is_true : Option Bool → Bool
is_true none = false
is_true (some b) = b

module _ {Value : Type 0} (socket : Socket Value) where
  abbrev pub socket_path : Option Uuid → Result CliError Text
  socket_path (some sid) = ok (socket.path_of sid)
  socket_path none = socket.discover

  abbrev pub unwrap_or : Option Uuid → Uuid → Uuid
  unwrap_or (some sid) other = sid
  unwrap_or none other = other

  unfoldable pub detach_cmd : Option Uuid → Result CliError (Unit {0})
  detach_cmd session_id = do
    path ← socket_path session_id
    named ← socket.id_of path
    map_err (λ e. io (codes "connect " ++ (path ++ (codes " failed: " ++ e)))) (socket.connect path)
    map_err io (socket.write_all (unwrap_or session_id named))
    map_err io socket.shutdown
    buf ← map_err io socket.read_to_end
    value ← map_err protocol (socket.from_slice buf)
    guard (is_true (socket.ok_of value)) (protocol (codes "detach failed: " ++ socket.shown value))
