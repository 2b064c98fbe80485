-- ===== src/Client/Remote.antt =====
-- The command that src/bin/neosh.rs gives to ssh, and the part of the POSIX shell's rules on double quotes
-- that it is written for.
pub mod Quoting
pub mod Script
use neosh.Prelude.{
  [], if◌then◌else◌, is_empty, ◌>>=◌, ◌>>◌, Text, codes, trim, Uuid, Option, none, some, ◌∷◌, ◌++◌,
}
use neosh.Terminal.Quote.{replace}

pub data BootstrapMode : Type 0 where
  fresh : Option Text → Option Text → BootstrapMode
  renew : Uuid → BootstrapMode

unfoldable pub shell_double_quote : Text → Text
unfolding replace
shell_double_quote [] = codes "\"\""
shell_double_quote (c ∷ input) =
    let escaped = replace b'`' (codes "\\`") (
      replace b'$' (codes "\\$")
        (replace b'"' (codes "\\\"") (replace b'\\' (codes "\\\\") (c ∷ input)))) in
    codes "\"" ++ (escaped ++ codes "\"")

-- An argument that is given, unless it is blank.
unfoldable pub extra_arg : Text → Option Text → Text
unfolding shell_double_quote
extra_arg flag none = []
extra_arg flag (some value) =
    if is_empty (trim value)
    then []
    else codes " --" ++ (flag ++ (codes " " ++ shell_double_quote value))

unfoldable pub log_setup : Option Text → Text
unfolding shell_double_quote
log_setup none = []
log_setup (some file) = codes "log_file=" ++ (shell_double_quote file ++ codes "; ")

unfoldable pub stderr_redirect : Option Text → Text
stderr_redirect none = codes "2>/dev/null"
stderr_redirect (some file) = codes "2>>\"$log_file\""

-- What stands between the quotes of `sh -lc '…'`.
unfoldable pub script : Option Text → Option Text → Text → Option Text → Text
unfolding extra_arg log_setup stderr_redirect
script remote_working_directory remote_command neoshd_path neoshd_log_file =
    codes "set -eu; bootstrap_file=\"$(mktemp -t neosh-bootstrap.XXXXXX)\"; "
    ++ (log_setup neoshd_log_file
        ++ (codes "nohup "
            ++ (shell_double_quote neoshd_path
                ++ (codes " new --user \"$USER\""
                    ++ (extra_arg (codes "working-directory") remote_working_directory
                        ++ (extra_arg (codes "command") remote_command
                            ++ (codes " >\"$bootstrap_file\" "
                                ++ (stderr_redirect neoshd_log_file
                                    ++ (codes
                                          " </dev/null & for i in $(seq 1 200); do if [ -s \"$bootstrap_file\" ]; then head -n 1 \"$bootstrap_file\"; rm -f \"$bootstrap_file\"; exit 0; fi; sleep 0.05; done; "
                                        ++ codes
                                            "echo \"bootstrap timeout\" >&2; rm -f \"$bootstrap_file\"; exit 1")))))))))

-- `show` is the text of a `Uuid`.
unfoldable pub build_remote_command : (Uuid → Text) → BootstrapMode → Text → Option Text → Text
unfolding script
build_remote_command show (fresh dir command) neoshd_path neoshd_log_file =
    codes "sh -lc '" ++ (script dir command neoshd_path neoshd_log_file ++ codes "'")
build_remote_command show (renew session_id) neoshd_path neoshd_log_file =
    neoshd_path
    ++ (codes " renew-auth --session-id " ++ (show session_id ++ codes " --user \"$USER\""))
