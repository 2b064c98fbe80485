-- ===== src/Lib.antt =====
-- The correctness of neosh: a remote shell over QUIC. A client starts the daemon `neoshd` over ssh,
-- gets an auth token, connects, attaches to the one session of the daemon and drives a terminal; it
-- can detach, lose its connection, and resume with a resume token.
--
-- What models what:
--   Prelude            Tests into Bool, lists, results, text as code points, maps, time.
--   Protocol.Framing   src/protocol/framing.rs: length-prefixed frames.
--   Protocol.Messages  src/protocol/messages.rs: the kinds of control messages.
--   Protocol.Dispatcher
--                      src/protocol/dispatcher.rs: the order of messages on a connection.
--   Session.Manager    src/session/manager.rs: who is attached to a session, in which epoch. `Ops` has
--                      the operations as data, with runs of them.
--   Token.Service      src/token/service.rs: auth and resume tokens, and the sweep of old records.
--                      `Calls` has the calls of the service as data, with runs of them.
--   Terminal           src/terminal/pty.rs: LivePty, the quoting of its shell, and PtyRuntime.
--   Server.State       src/bin/neoshd.rs: ServerState and its methods, and finalize_connection_cleanup.
--   Server.Errors, Server.Wire, Server.Terminal
--                      src/bin/neoshd.rs: the errors, the control stream, and how the terminal and the
--                      data plane start.
--   Server.Output      src/bin/neoshd.rs: the reader thread and the task that forwards output.
--   Server.Exchange, Server.Connection
--                      src/bin/neoshd.rs: handle_connection, a function for each arm of its `match`.
--   Server.Loops       src/bin/neoshd.rs: the checks of the accept loop, the answer to a renewal and the
--                      token sweeper.
--   Server.Renewal     src/bin/neoshd.rs: the socket for renewals, run_ipc_server, and run_renew_auth.
--   Server.Serve       src/bin/neoshd.rs: the loop of handle_connection, from the stream to the cleanup.
--   Server.Input       src/bin/neoshd.rs: the task that forwards input to the terminal.
--   Server.Listen      src/bin/neoshd.rs: the arguments, the port range and the search for a port.
--   Server.Tls, Server.Start
--                      src/bin/neoshd.rs: the certificate, the addresses, and run_new up to its loop.
--   Server.World       src/bin/neoshd.rs: all tasks together, as a step function on a list of events.
--                      `Serving` places the loop of a connection in it, `Accepting` the accept loop.
--   Client.State       src/client/state.rs: the client's states.
--   Client.Stdin       src/bin/neosh.rs: the detach hotkey and the loop that forwards input.
--   Client.Screen      src/bin/neosh.rs: the task that shows the remote output.
--   Client.Tasks       src/bin/neosh.rs: keepalive_task and resize_watch_task.
--   Client.Remote      src/bin/neosh.rs: build_remote_command and its quoting, against a reader of the
--                      shell's quotes.
--   Client.Reconnect   src/bin/neosh.rs: connect_cmd, resume_with_backoff, ssh_bootstrap_with_retry.
--   Client.Bootstrap   src/client/bootstrap.rs: the payload that the daemon prints, and its checks.
--                      `Offers` shows that they pass what the daemon prints.
--   Client.Transport   src/client/quic_client.rs: the fingerprint of the daemon's certificate.
--   Client.Cache       src/client/cache.rs: the entries for resumption, as a map of files.
--   Client.Control     src/client/control.rs, and send_json, read_json, expect_type of
--                      src/bin/neosh.rs.
--   Client.Session     src/bin/neosh.rs: run_session, as steps in a monad of a state and an error.
--                      `Triples` is the reasoning on its steps, which `Phases`, `Order` and
--                      `Errors` use; `Watch` is
--                      control_watch_loop, `Ipc` the socket that takes a request to detach.
--   Client.Sockets     src/bin/neosh.rs: the paths of the sockets for detaching.
--   Client.Commands    src/bin/neosh.rs: the subcommands `resume` and `detach`.
--   Link               A client and a daemon together: `Agrees` is what the two sides rely on in JSON,
--                      `Connect` composes the handshake of src/bin/neosh.rs with the loop of
--                      handle_connection, `Fresh`, `Reconnect` and `Refusal` are its outcomes, `Starting`
--                      what a daemon prints, `Streams` the data streams from end to end, `Background` the messages
--                      of the tasks beside a session, and `Lag` what a forwarding task that falls
--                      behind comes to.
--   Runtime            src/runtime.rs: sessions and tokens without a network.
--   Ffi                ffi/neosh-client-c/src/lib.rs: the client for C, its control stream, its data
--                      streams and how it connects.
--   Tests              Concrete inputs on which the theorems apply.
--
-- How code becomes a definition. A method with `&mut self` returns the new state beside its result;
-- `Result` is the type of Prelude.Results, and a `?` that leaves handle_connection is the flow
-- `fails`, since it skips the cleanup after the loop. A HashMap is a function to Option, a Vec a list,
-- a String the list of its code points, a Uuid its number. Numbers are natural numbers; `as u32` is
-- `% 2 ^ 32`, and the epoch saturates at 2 ^ 64 - 1. Times and durations are nanoseconds, and
-- `duration_since` fails if the clock went back.
--
-- Concurrency. All tasks of the daemon share ServerState under one mutex, and each handler makes its
-- changes of it in one locked section; so a message is one event of Server.World, and a schedule is
-- any list of events. What a handler reads after its locked section, the replay buffer in
-- start_data_plane, it reads in the same step here.
--
-- The parts meet where their definitions are used by each other: Server.World runs the handlers of
-- Server.Connection on the state of Session.Manager and Token.Service; Client.Session reads and writes
-- the frames of Protocol.Framing by the functions of Client.Control; what a C program sends through Ffi
-- is read by the daemon's Server.Wire; Client.Transport checks the fingerprint that Client.Bootstrap
-- accepted.
--
-- Parameters, which stand for code that is not in this repository: what serde_json reads and writes,
-- SHA-256, the random draws and the clock, portable_pty, ssh, the files, and the answers of the QUIC
-- streams. In Client.Reconnect the session is a parameter too, for each round of a loop; Client.Session
-- is what it stands for. control_watch_loop runs on fuel, and as much fuel as there are bytes on the
-- stream, and one more, is enough, since each frame takes four bytes at least. A number is written by
-- as many steps as its type has digits, twenty for a usize and thirty-nine for a u128. No other
-- recursion needs fuel: a loop goes over a list, or counts the rounds that the source's range has (two
-- in connect_cmd, three in resume_with_backoff).
--
-- Not modelled: overflow of a SystemTime, what log_event prints, the insides of TLS and QUIC, the
-- binding of the socket for renewals and its path, the client's raw mode and how it makes and removes
-- the file of its socket, and of the C interface its runtime, its version texts and the closing of the
-- connection. The client's write of an entry is one step, though a write that fails may leave a part of
-- it.
pub mod Prelude
pub mod Protocol
pub mod Session
pub mod Token
pub mod Terminal
pub mod Server
pub mod Client
pub mod Link
pub mod Ffi
pub mod Runtime
pub mod Tests
