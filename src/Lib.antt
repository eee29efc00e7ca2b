-- ===== src/Lib.antt =====
-- agora-protocol: messages and files between agents on different machines.
--
-- A node runs on each machine. Agents talk to the node through a local channel (`src/ipc.rs`,
-- `src/mcp.rs`), nodes talk to each other over an encrypted stream (`src/wire.rs`), directly or
-- through a relay (`src/relay.rs`). The node (`src/node.rs`) admits what peers send, delivers it into
-- the queues of the local agents, confirms it, and keeps what is not confirmed. Received files are
-- named, classified and scanned (`src/files.rs`). The configuration says which machines are trusted
-- (`src/config.rs`). Text that passes is cleaned by the guard (`src/guard.rs`).
--
-- Modules and the code they model:
--   Base            lists, texts, association lists (`HashMap`), results; no code of the program
--   Config          `src/config.rs`: names, keys as text, the trusted machines and the test of a loaded
--                   configuration, the lock file
--   Files           `src/files.rs`: `classify`, `safe_name`, `sensitive`, `scan` and `screen`
--   Guard           `src/guard.rs`: the rules with their checks, `sanitize`, `redact`, `clean`
--   Wire            `src/wire.rs`: `read_frame`, `write_frame`, `Writer::send`, `Reader::recv`
--   Codes           `encode_invite`, `decode_invite` of `src/node.rs` and the codes of `src/relay.rs`
--   Relay.Roster    `src/relay.rs`: `relay.toml` and its changes: `invite`, `remove`, `serve`, `join`
--   Relay.Server    `src/relay.rs`: the locked parts of `listen`, `connect`, `accept` and `Slot::drop`,
--                   as the steps of tasks that interleave
--   Node.Types      `src/node.rs`: the records of the node and its state
--   Node.Presence   `presence`, `broadcast_presence`
--   Node.Queues     `deliver`, `register`, `unregister`, `inbox`, `ack`; Queues.Calls says what a set of
--                   mailboxes allows them, and Queues.Refinement that they keep to it
--   Node.Admit      `admit`: the rate limit and the memory of message ids
--   Node.Links      the start and the end of `run_link`, `reply`, the answer branch of `on_p2p`
--   Node.Address    `valid_thread`, `split_addr`, `ct_eq`
--   Node.Send       `send` up to the wait, the end of `await_ack`, what `persist` writes and `run` reads;
--                   Send.Later says what a node may do before it sends a kept message again
--   Node.Transfers  `file_start`, `file_chunk`, `drop_incoming`, the branches of `on_p2p` for files
--   Node.Finish     `file_finish`: screening, the name in the folder, the event
--   Node.SendFile   `send_file` up to the wait
--   Node.Trust      the state part of `apply`, `invite`, `invites_open`, `note_refused`
--   Node.Admin      `admin` with all its commands, and `apply` with the file that may not be written
--   Node.Pairing    `incoming_conn`, `pairing`, `join` before and after the network, `relay_join`;
--                   Pairing.Trusted says what a node may do in between
--   Node.Inbound    `inbound`, the state part of `alert`, the branch of `on_p2p` for a message
--   Node.Known      the branch of `on_p2p` for a presence
--   Ipc             `mac` and `serve_ipc` of `src/node.rs`, `Client::start` and `Client::call` of
--                   `src/ipc.rs`: Ipc.Hello the greeting, Ipc.Calls the calls, Ipc.Served the loop
--   Mcp             `src/mcp.rs`: `slug`, `identity_for`; Mcp.Channel `channel_event`, Mcp.Roots
--                   `file_uri_to_path`, Mcp.Server the state of a session's server, its requests,
--                   its registration and its watchdog
--   Command         `src/main.rs`: `parse`, `name_flag`, the choice of the command in `run`
--   Tests           the theorems applied to concrete inputs
--
-- A text is the list of its code points; `utf8` gives its bytes. Each operation takes the state and
-- returns it: the source holds the lock of `State` over the modelled part. Where a task releases its
-- locks, in the pusher of `serve_ipc`, in `ack` and in the tasks of the MCP server, it is several
-- steps, and other steps may come between them. A `HashMap` is an association list, and an
-- iteration over it visits the list in order. Times, random ids and counters are arguments. The level
-- of the rate limit, which the source keeps in floating point, is counted in exact parts of a message.
-- What the system answers (the scanner's run, whether a command could be started) is an argument.
--
-- Parameters: `Base32` (package data-encoding) with the documented round trip and alphabet;
-- `is_hex` and `base64` (package data-encoding) decode what a peer sends;
-- `Engine` (package regex): the pieces of a text between the matches of a pattern and the matches,
-- which make up the text, and groups that stand in it;
-- `Transport` (package snow) with what one end seals the other opens, 16 bytes longer; the hash of a
-- secret or a file (package blake2), `HEXLOWER` (package data-encoding), the decoding of UTF-8; `clean`
-- and `sanitize`, the guard's functions, where a node operation calls them;
-- `Hex` (package data-encoding) with its round trip and alphabet, and the keyed hash (package blake2), of
-- which nothing is assumed: a theorem that needs two hashes apart names the collision otherwise;
-- `Serde` (package serde_json): the fields and kinds of a value.
--
-- Fuel: `make_room` gets one more than the number of queued events, and each turn drops one;
-- `free_name` one more than the number of sessions; `chunks` the number of bytes; `forget_oldest` the
-- number of known agents; `find_name` one more than the number of files in the folder; `recv` as much
-- as the caller gives, and 4 more than the length of the message is enough.
--
-- Steps: what the source does under one lock is one step. A change of the configuration (`admin`,
-- `pairing`, the end of `join`, `relay_join`) is one step too, although the source holds no lock over
-- it. In the relay the steps of several connections interleave. In the server of a session a line of
-- the input, the end of a wait, a turn of the watchdog and a turn of a task are steps, in any order: a
-- task handles its request in one turn and writes the answer in a later one.
--
-- Not modelled: the handshake and ciphers, timers and tasks of the node, the splicing of bytes in the
-- relay and the node's side of it, the start of the node by an agent, the notices for watchers,
-- the texts of the tools, the matching of the guard's patterns, desktop notices, files
-- on disk other than the lock and the folder of received files, and what the commands print.
pub mod Base
pub mod Config
pub mod Files
pub mod Guard
pub mod Wire
pub mod Codes
pub mod Relay
pub mod Node
pub mod Ipc
pub mod Mcp
pub mod Command
pub mod Tests
