-- ===== src/Lib.antt =====
-- The Mini TCG server and its clients: a card game of a player against an AI, over TLS, with the
-- games in shared memory so that a client can come back to its session.
--
-- The parts and how they interact. `main` of src/server.c forks a process for each connection,
-- which runs `run_session`: a handshake, a login or a resumption, and then a loop that takes a
-- packet, lets the rules change the game, saves the game in the shared table of src/common/ipc.c,
-- and answers with the state and the hand. Packets are those of src/common/proto.c, on the
-- connections of src/common/net.c. The clients, src/client_app.c, src/client_gui.c and, to
-- measure, src/client.c, send requests and take the answers.
--
-- Which file models which part:
--   Prelude: shared names, Boolean tests, lists over the native numbers, machine words, `do` blocks
--   over Option; Prelude/Resources for what calls of the system make and take back.
--   Cards: the table of src/common/cards.c, `get_card_def`; Cards/Table what holds of every card.
--   Game/Defs: `state_t` and `hand_t` of src/common/proto.h. Game/Rules: `push_log`,
--   `apply_damage`, `tick_poison`, `check_game_over` and `handle_play_card` of src/server.c.
--   Game/Turns: `rand_card_id`, `deal_hand`, `phase_draw`, `enter_turn`, `phase_end`. Game/Ai:
--   `ai_eval_card` and `process_ai_turn`. Game/Spec has the rules on plain numbers; the other
--   modules of Game are proofs: Damage, Invariant, Frame, Play, Hands, Handover, Choice, AiTurn,
--   and Ledger for the sizes of the numbers.
--   Proto: `proto_checksum16`, `proto_send` and `proto_recv`, in Checksum and Packet, with the
--   numbers of the header in Bytes and Opcode; proofs in Fold, Header and Roundtrip.
--   Ipc: the counters and the table of sessions, `ipc_alloc_session`, `ipc_save_session`,
--   `ipc_load_session` and `ipc_touch_session`; proofs in Laws, which sees the table as a map,
--   in Alloc, and in Ids for the session ids. Ipc/Race has the allocation in two steps, between
--   which another process may run, and Ipc/Attach `ipc_stats_init` and `ipc_store_init` as they open the
--   memory.
--   Session/World: the locals of `run_session`, the shared memory and the packets sent.
--   Session/Handshake and Session/Serve: the two loops of `run_session`; proofs in Invariant, Duty,
--   Serving, Waiting, Greeting, Login, Run, Durable, Backed and Resumption, in Calls and Steps,
--   which list what a packet does to the shared table, and in Growth and Bounds for the numbers of
--   a whole session. Session/Bytes runs a session over the bytes of its connection, and
--   Session/Hostile over bytes that need be no packets.
--   Server: the accept loop of src/server.c, and the children on one table;
--   proofs in Sharing, what a child does to the others, Sound, what holds however they take turns,
--   Surviving, for children that run different sessions, as Apart says it, and Losing, for two that
--   run one. Server/Counting has the counter of connections, up to what src/monitor.c shows.
--   Server/Main has `main` itself, with its start, its signals, its loop and its end; proofs in
--   Signals, Stopping, and Reaping, for the children that end. Server/Restarting has its start on a
--   machine where it runs already.
--   Net: `conn_readn`, `conn_writen`, `readn`, `writen`, `ssl_readn` and `ssl_writen`; proofs in
--   Reading and Writing, and in Delivery, where `conn_readn` fills the interface that
--   Proto/Roundtrip asks of a connection; Net/Sending takes a packet from `proto_send` to
--   `proto_recv`. Net/Setup: `tcp_connect`, `tcp_listen`, `ssl_init_server_ctx`, `conn_close` and
--   the other functions of the set-up; proofs in Leaks.
--   Client: `recv_until` of src/client_app.c, and the treatment of packets in `net_thread` of
--   src/client_gui.c; Client/Answers and Telling set the server's answers against `recv_until`,
--   Client/Memory and Hearing against `net_thread`. Client/Bytes has a request and its answer as
--   bytes on the two connections. Client/App: `run_app_mode`, alone and with the server behind it;
--   proofs in InStep, and Client/Screen has what `draw_ui` shows. Client/NetThread: the rest of
--   `net_thread`, and the clicks of `main` of src/client_gui.c; proofs in Clicking, Asking and
--   Reconnecting. Client/Playing has clicks with their answers, Client/Returning the connection
--   behind a lost one, and Client/Flight clicks, heartbeats, requests and replies in any order,
--   with proofs in its children Ahead and Course, and in Settling moves that let all arrive.
--   Client/Drawing: a frame of `main`,
--   with Bars for `DrawHPBar`, Cards for the places of the hand, Log for the battle log, and
--   Damage for what `net_thread` makes out of two states. Client/Stress: the loops of `worker` of
--   src/client.c that wait for an answer; Client/Worker: the whole thread and the statistics;
--   proofs in Rounds, Thread and Statistics. Client/Launch: the arguments of the programs, and the
--   starts of the stress client and the graphical client. Client/Structs: the bytes of the
--   structures in a packet; proofs in Packing.
--   Tests: the theorems at concrete inputs.
--
-- How the state corresponds. Numbers are the native natural numbers. A `uint8_t`, `uint16_t`,
-- `uint32_t` or `uint64_t` is a number below its power of two with the wrap-around written out; an
-- `int16_t` or `int` is its bit pattern. `phase` is a data type of its three values. A log line is
-- the format and the arguments that `push_log` gets. A process is a record of its locals, the
-- shared memory, the packets sent so far, and how often it has called `rand` and the table; an
-- input is what one call of `proto_recv` returns, and a session runs over any list of these.
--
-- The server is the shared table with a list of its children, of which one at a time handles a
-- packet. A client against the server is a loop over its keys, clicks or rounds, in which each
-- request is handled by the server's step and answered by what that step sends; Client/Flight has
-- queues between the two instead, which are the model's own: what is taken from them is treated by
-- the source's functions. The AI's turn, which the source plays before it waits for a packet, is
-- part of the step that takes the packet; `let_ai_play` alone says what the child is like while it
-- waits.
--
-- Parameters: `rand`, `time` and `getpid` are a record of functions; `SSL_read`, `SSL_write`,
-- `read` and `write` are arguments of the loops, and what OpenSSL documents of them is the records
-- Source and Sink; the answers of `accept`, `fork`, `getaddrinfo`, `select`, `mmap` and their like
-- are arguments; the clock of src/client.c is a function, and so are `atoi`, the test of an
-- argument against "--app", the product of a width and a ratio in `float`s, and whether `signal`
-- sets a handler for one delivery alone, as glibc's does under the -std=c11 of Makefile. How the
-- compiler lays out the structures of a payload is the record Layout, which Client/Packing fills;
-- the text of a line of the log is the record Text.
--
-- Bounds and fuel. The AI's loop has as fuel one more than the mana: each card costs at least one.
-- The loop that folds the carries of a checksum has three rounds, which are enough for a
-- `uint32_t`. A loop of net.c has the fuel that its caller gives; the number of bytes and retries
-- is enough. The sizes of the game's numbers are bounded for 3600 turns, which 1799 packets of a
-- session cannot exceed, and the turns of poison for 85.
--
-- Not modelled: `log_info` of src/server.c, which only prints; in src/client_gui.c the colours, the
-- enlarged frames of a card under the mouse or selected, the crop of a picture, and the card that
-- flies behind a click, which are float arithmetic for raylib; what a thread of src/client.c
-- prints; test_ssl.c; a NULL connection or payload in src/common/proto.c, which no caller passes;
-- and calls of two processes that overlap inside one function of src/common/ipc.c: each packet that
-- a child handles is one step, but for the allocation in Ipc/Race. A signal is taken between two
-- tests of `g_stop` or behind the loop, by the server alone and not by its children.
pub mod Prelude
pub mod Cards
pub mod Game
pub mod Proto
pub mod Ipc
pub mod Net
pub mod Session
pub mod Server
pub mod Client
pub mod Tests
