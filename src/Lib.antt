-- ===== src/Lib.antt =====
-- SyncClipboard shares the clipboard between devices. A client talks to a relay server over a
-- WebSocket and moves files from peer to peer. This library models the C code of the Linux
-- client, of the Windows client and of what they share, and proves what its parts promise.
--
-- Net (common/ft/ft_socket.c): `ft_send_all` and `ft_recv_all` over a `World`: the bytes that wait,
-- the bytes sent, the files, and lists of the operating system's answers, so that a theorem over
-- all worlds holds for every way in which the kernel cuts up or refuses a transfer. Net/Moves has
-- the rules for calls that succeed, Net/Sound those for calls that may fail.
-- Wire (common/ft/ft_proto.c): the file frame, `ft_send_file`, `ft_recv_file`,
-- `ft_send_file_from_path` and `ft_recv_file_to_path`, as sequences of the calls of Net.
-- Codec (common/codec.c): `sc_hex_to_bytes`, `sc_bytes_to_hex`, `normalise_base64` and
-- `sc_base64_decode`, the latter with OpenSSL's decoder as a parameter.
-- Auth (common/ft/ft_auth.c): `ft_auth_send` and `ft_auth_recv` over the same world, with OpenSSL's
-- HMAC as a parameter that gives 32 bytes. Auth/Judge says whom the receiver lets in, Auth/Handshake
-- that two ends with one key succeed.
-- Race (common/ft/ft_lan.c, common/ft/ft_addr.c): `ft_lan_transfer`, `ft_lan_transfer_auth` (in
-- Race/Keyed) and `ft_connect_any` in their poll form. A stream of rounds says what the system
-- answers; the account of sockets in Race/Count shows that none is lost. The handshake in the loop is
-- the one of Auth, run on the connection behind the socket.
-- Client (linux/main.c, common/msg.c): Client/Queue is the linked list of messages behind
-- `queue_send` and the WRITEABLE case of `ws_callback`, on a heap, with the list of messages that it
-- implements in Client/Queue/Fifo; Client/Buffer is the buffer in which the RECEIVE case puts
-- fragments together; Client/Message has the messages as lists of fields. Client/State is what the
-- threads share, with a record of what the program has done; Client/Handlers are the branches of
-- `ws_callback` for a whole message, with an interface for what cJSON answers; Client/Monitor is
-- `process_clipboard_change`, `process_primary_change` and the turns around them; Client/Thread is
-- `receiver_thread` and `sender_thread`, with what the race and the file protocol returned as answers;
-- Client/Session is the reconnecting loop of `main`. Client/Shell has the commands of the clipboard
-- backends and the paths that are read back, Client/Pipe the reads of what a
-- command prints, with `fread` as a parameter, Client/X11 the reads of an X11 selection and the turns of
-- the XFIXES loop, with what the server sends as an argument, Client/Uri `url_decode_inplace`.
-- Client/Moves follows two balances, of sockets and of receivers, through every operation;
-- Client/Moves/Traces has the step relation in which messages, polls and threads interleave, and
-- Client/Moves/Runs takes the calls of the transfer threads one by one.
-- Client/Sync and Client/Relay put two clients together.
-- Windows (windows/main.c): the Windows client. What its source has word for word like Linux is the
-- definition of Client: the transfer state, builders, queue, buffer, three of the handlers, the sender,
-- the reconnecting loop. Windows/Desk adds the flag `g_suppress_next`, the hash of the last file and
-- the clipboard; Windows/Board are its bitmaps, with stb_image as a parameter; Windows/Handlers the
-- other branches of `ws_callback`, Windows/Thread `receiver_thread`, Windows/Monitor
-- `on_clipboard_changed`. Windows/Moves has the two balances again, Windows/Pair a Linux and a Windows
-- client together. Windows/Journal is its log, on the disk of Log.
-- Setup (common/ft/ft_addr.c, common/ft/ft_nat.c): the addresses that are announced, the listening
-- socket and the punch, with a ledger of the sockets opened and closed.
-- Log (common/log.c): the log file and its rotation, on a disk that gives the bytes under a path.
-- Crypto (common/crypto.c): the frame of `aes_gcm_encrypt` and `aes_gcm_decrypt`, and in Crypto/Cbc the
-- older format. Crypto/Laws states what OpenSSL documents of the cipher and of base64.
-- Login (common/auth_http.c, common/ws_client.c): the requests for tokens over a list of answers of
-- curl; Login/Reply is the buffer of a reply, Login/Tokens where the tokens come from.
-- Digest (common/ft/ft_b64_sha.c): SHA-256 in digits, of a block and (Digest/File) of a file chunk by
-- chunk, and base64 in whole blocks.
-- Config (common/config.c, common/config.h): the defaults, the line parser and the validation.
-- Prelude: names of the libraries passed on, tests on numbers, lists, C strings, integers.
--
-- A return of -1 is `fail`. `undefined` stands for a length that does not fit the `int` which the
-- code passes to `send` or `recv`; theorems say where it cannot be reached. Bytes are numbers, C
-- strings are lists without their NUL. The two file loops run on fuel equal to the bytes that
-- remain: each round moves one at least. `normalise_base64` pads at most three times, with fuel 4.
-- The loop over the lines of a configuration has a round for each byte of the file. The races that
-- count 50 ms a turn run on fuel `timeout / 50 + 2`; the one that reads the clock takes its fuel as
-- an argument, and a theorem says that a turn past the time-out is enough. A buffer is doubled on
-- fuel that exceeds the size needed. `%d` prints on fuel for the ten digits of an `int`; the loop of
-- `ft_sha256_file` has a round for each byte of the file, and those over a pipe one for each byte that
-- the command prints and one more.
--
-- Not modelled: socket options, time, the calls of X11, OpenSSL, curl, libwebsockets, cJSON and
-- stb; of the Windows client the window, the registry and the select form of the race; the server and
-- the Android client, in other languages.
pub mod Prelude
pub mod Net
pub mod Wire
pub mod Codec
pub mod Digest
pub mod Auth
pub mod Config
pub mod Race
pub mod Client
pub mod Crypto
pub mod Login
pub mod Windows
pub mod Log
pub mod Setup
