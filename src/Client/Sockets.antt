-- ===== src/Client/Sockets.antt =====
-- src/bin/neosh.rs: the paths of the sockets that take a request to detach, ipc_socket_path,
-- session_id_from_socket_path and discover_active_socket. A path is the directory it is in and the name
-- of its last component, as the library's `Path` splits it; the texts of the `uuid` library are
-- parameters.
use neosh.Prelude.{
  ◌>>=◌, map_err, rsplit_once, rsplit_once-append, is_empty, if◌then◌else◌, text_eq, Result, ok,
  err, map_err, ◌>>=◌, Text, Uuid, codes, ◌≡◌, refl, Option, none, some, List, [], ◌∷◌, ◌++◌, Bool,
  true, false,
}
use neosh.Client.Reconnect.{CliError, io}

pub record PathBuf : Type 0 where
  pub parent : Text
  pub name : Text

-- `file_stem` and `extension`: a dot that begins the name ends no stem.
abbrev stem_of : Text → Option (Text × Text) → Text × Option Text
stem_of name none = (name, none)
stem_of name (some (before, after)) = if is_empty before then (name, none) else (before, some after)

unfoldable pub split_name : Text → Text × Option Text
split_name name = stem_of name (rsplit_once b'.' name)

-- The directory of the sockets: `join` puts the separator, unless there is one or nothing before it.
abbrev ends_in_slash : Text → Bool
ends_in_slash s = elim (rsplit_once b'/' s) [ none ↦ false | some (before, after) ↦ is_empty after ]

abbrev runtime_dir_of : Option Text → Text
runtime_dir_of none = codes "/tmp"
runtime_dir_of (some dir) = dir

unfoldable pub socket_dir : Option Text → Text
socket_dir xdg_runtime_dir =
    let dir = runtime_dir_of xdg_runtime_dir in
    if is_empty dir
    then codes "neosh"
    else if ends_in_slash dir
    then dir ++ codes "neosh"
    else dir ++ codes "/neosh"

unfoldable pub ipc_socket_path : Option Text → (Uuid → Text) → Uuid → PathBuf
ipc_socket_path xdg_runtime_dir show session_id = record {
  parent = socket_dir xdg_runtime_dir;
  name = show session_id ++ codes ".sock";
}

-- The name is a text here, so that it has a stem.
unfoldable pub session_id_from_socket_path :
    (Text → Result Text Uuid) → PathBuf → Result CliError Uuid
session_id_from_socket_path parse_str path =
    map_err (λ e. io (codes "invalid session socket id: " ++ e))
      (parse_str (split_name path.name).0)

unfoldable pub is_socket : Text → Bool
is_socket name = elim (split_name name).1 [
  | none ↦ false
  | some extension ↦ text_eq extension (codes "sock")
]

-- The loop over the names in the directory, those that could be read.
unfoldable pub first_socket : Text → List Text → Result CliError PathBuf
first_socket dir [] = err (io (codes "no active session socket found"))
first_socket dir (name ∷ names) =
    if is_socket name then ok (record { parent = dir; name = name }) else first_socket dir names

unfoldable pub discover_active_socket :
    Option Text → (Text → Result Text (List Text)) → Result CliError PathBuf
discover_active_socket xdg_runtime_dir read_dir = do
  names ←
      map_err (λ e. io (codes "read " ++ (socket_dir xdg_runtime_dir ++ (codes " failed: " ++ e))))
        (read_dir (socket_dir xdg_runtime_dir))
  first_socket (socket_dir xdg_runtime_dir) names

split_name-sock :
    (id : Text) → is_empty id ≡ false → split_name (id ++ codes ".sock") ≡ (id, some (codes "sock"))
unfolding split_name rsplit_once
split_name-sock id h = rw (rsplit_once-append b'.' id (codes "sock") refl) (rw h refl)

is_socket-sock : (id : Text) → is_empty id ≡ false → is_socket (id ++ codes ".sock") ≡ true
unfolding is_socket text_eq
is_socket-sock id h = rw (split_name-sock id h, is_socket) refl

first_socket-first :
    (dir id : Text)
    → is_empty id ≡ false
    → first_socket dir ((id ++ codes ".sock") ∷ [])
      ≡ ok (record { parent = dir; name = id ++ codes ".sock" })
unfolding first_socket
first_socket-first dir id h = rw (is_socket-sock id h, first_socket) refl

-- The id in the name of a session's socket is the id of the session, if the `uuid` library reads the
-- text that it writes, and writes one.
session_id_from_socket_path-ipc_socket_path :
    (xdg_runtime_dir : Option Text) (show : Uuid → Text) (parse_str : Text → Result Text Uuid)
    (session_id : Uuid)
    → is_empty (show session_id) ≡ false
    → parse_str (show session_id) ≡ ok session_id
    → session_id_from_socket_path parse_str (ipc_socket_path xdg_runtime_dir show session_id)
      ≡ ok session_id
unfolding session_id_from_socket_path ipc_socket_path
session_id_from_socket_path-ipc_socket_path xdg_runtime_dir show parse_str session_id h k =
    rw (split_name-sock (show session_id) h) (rw k refl)

-- And the socket of a session is found, if it is the only name in the directory.
discover_active_socket-ipc_socket_path :
    (xdg_runtime_dir : Option Text) (show : Uuid → Text) (read_dir : Text → Result Text (List Text))
    (session_id : Uuid)
    → is_empty (show session_id) ≡ false
    → read_dir (socket_dir xdg_runtime_dir) ≡ ok ((show session_id ++ codes ".sock") ∷ [])
    → discover_active_socket xdg_runtime_dir read_dir
      ≡ ok (ipc_socket_path xdg_runtime_dir show session_id)
unfolding discover_active_socket ipc_socket_path
discover_active_socket-ipc_socket_path xdg_runtime_dir show read_dir session_id h k =
    rw (k, map_err) (first_socket-first (socket_dir xdg_runtime_dir) (show session_id) h)
