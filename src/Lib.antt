-- ===== src/Lib.antt =====
-- oxmux serves terminal sessions of tmux to browsers. A server (server/src) keeps a user's
-- sessions, connects to each session's host over SSH or through an agent, and speaks
-- MessagePack with the browsers; an agent (agent/src) runs on a host beside tmux and may serve
-- a browser directly. The files below model the server's state and message handling, the
-- control mode of tmux that both programs read and write, and the agent's stream and messages,
-- and how the server brings an agent to a host.
--
-- - Prelude and its children: text as a list of code points with the operations of `str` that
--   the program calls (Text), decimal numbers (Decimal), maps with text keys for `HashMap` and
--   `DashMap` (Maps), and the shared tests and list operations. Result is `anyhow::Result`.
-- - Tmux/Decode and Tmux/Control: server/src/tmux/control.rs, the decoder of escaped output
--   (`decode_tmux_output`, with that of agent/src/quic/server.rs beside it) and the parser of
--   the control mode (`feed_line`). Tmux/Control/Print and Tmux/Decode/RoundTrip print what
--   they read.
-- - Tmux/Listing: `parse_pane_listing` of server/src/session/ssh_transport.rs, from the output
--   of tmux to the tree of Ws/Tree. Tmux/Layout: server/src/tmux/layout.rs, with the texts that
--   it reads in Tmux/Layout/Print. Tmux/Reader: the task of server/src/session/ssh_transport.rs
--   that reads the control mode.
-- - Session/Types: server/src/session/types.rs. Db/Repo: the statements on the table of
--   sessions, server/src/db/repo.rs and the reset of server/src/db/mod.rs.
-- - Session/Manager: server/src/session/manager.rs, with connecting and the routes of panes in
--   Session/Manager/Connect. Each method is a function from the manager's state to its reply
--   and the new state.
-- - Session/Transports: the trait of server/src/session/transport.rs for tmux on the same host
--   (Local, server/src/session/local.rs), over SSH (Ssh, server/src/session/ssh_transport.rs)
--   and for an agent (Quic, server/src/session/quic_transport.rs).
-- - Auth: server/src/auth/handler.rs, over the table of users in Db/Users. Session/KeyUpload:
--   server/src/session/key_upload.rs. Session/Signal: the relay of
--   server/src/session/webrtc_signal.rs.
-- - Agent/Frames: the framed stream of agent/src/quic/server.rs (`send_raw`, the buffer of
--   `handle_session`). Agent/Commands: the commands that the agent and
--   server/src/session/ssh_transport.rs write to tmux. Agent/Messages: `handle_message`.
--   Agent/Session: `handle_session`, from the first message on, and before it the token, the
--   tmux session and its listing (Start). Agent/Tmux: agent/src/tmux_manager.rs. Agent/Tree:
--   `build_window_tree` and what `sess_connected` tells the client. Agent/WebRtc:
--   `create_webrtc_answer`. Agent/Control: `run_control_mode`, and its restarts.
-- - Deploy: server/src/agent/deployer.rs and server/src/agent/binary.rs, the installation of an
--   agent on a host. Deploy/Install: the task of server/src/ws/session_handler.rs that
--   `InstallAgent` starts.
-- - Claude: server/src/claude/parser.rs. Ice: server/src/webrtc/turn.rs and `CoturnConfig` of
--   server/src/config.rs. Config: the rest of that file, and the address that `main` binds.
--   Jwt: server/src/auth/jwt.rs. Registry: server/src/agent/registry.rs.
-- - Ws/Tree and Ws/Protocol: the messages of server/src/ws/protocol.rs. Ws/State:
--   server/src/state.rs, with the state of a connection and the address of an agent.
--   Ws/Handler: `handle_client_msg` of server/src/ws/session_handler.rs over the manager, the
--   registry, the tokens and the TURN credentials. Ws/Socket: server/src/ws/handler.rs, a
--   WebSocket from its opening to the clean-up, and `drain_pane_outputs`. Ws/WebTransport:
--   server/src/ws/webtransport.rs. Ws/WebRtc: server/src/ws/webrtc_transport.rs. Ws/Rest:
--   server/src/agent/handler.rs and `ice_config_handler`.
-- - Tests: runs at concrete inputs, and each theorem at an input that meets its hypotheses.
--
-- Parameters. The libraries `serde_json`, `jsonwebtoken`, `argon2`, `russh`, `quinn` and
-- `webrtc`, the HMAC, the clock, the environment, the transports' answers to the manager, the
-- running of programs, the file system, the bytes of a connection, the decoding of bytes as
-- text, whether the database executes a statement, and the order in which it lists rows are
-- arguments; `Json`, `JwtLibrary` and `Argon` carry the law that what was written is read back,
-- `Json` also that a listing in order has the same rows, and `AnyClaims` that the agent's check
-- accepts a token whose claims the server can read. Writes to the control mode and to a channel
-- succeed.
--
-- Fuel and bounds. The agent's buffer is drained on fuel, its length, which Agent/Frames/Stream
-- shows to be enough, and a number is printed on fuel, the number and one, enough as the
-- printed number is read back (Prelude/Decimal). The recursion of `parse_node` and
-- `parse_children` is on fuel, four times the text's length and two, which Tmux/Layout/Fuel
-- shows to be enough. The loop over a pane's receiver is on fuel too, two more than what waits
-- in it (Ws/Socket/Drain). Everything else is structural recursion. The channel of the Claude
-- parser is the list of what was sent on it; the library drops the oldest events for a receiver
-- that is more than 256 behind. The lengths, counters and expiry times of machine width keep
-- their reduction modulo 2^16, 2^32 or 2^64. A method of the manager is one step, except
-- `connect`, which waits for the transport between its two.
--
-- Not modelled: the accepting of connections and the certificates (server/src/quic/server.rs,
-- agent/src/quic/tls.rs), the timers, the QUIC probe of server/src/agent/probe.rs, the
-- terminals of server/src/pty, the stubs of server/src/ssh, the start of the servers, and the
-- clients: input and output of the libraries, without logic of the program's own.
pub mod Prelude
pub mod Tmux
pub mod Result
pub mod Ws
pub mod Session
pub mod Db
pub mod Agent
pub mod Auth
pub mod Registry
pub mod Claude
pub mod Deploy
pub mod Ice
pub mod Config
pub mod Jwt
pub mod Tests
