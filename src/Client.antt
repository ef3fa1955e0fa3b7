-- ===== src/Client.antt =====
-- linux/main.c: the Linux client. Queue has the list of messages to send, Buffer the buffer in which
-- fragments of a message are put together, Message the messages. State is what the threads share;
-- Handlers, Monitor, Thread and Session change it. Shell has the clipboard commands and Uri the
-- decoding of file URIs, X11 the selections and the XFIXES loop, Pipe the reads from commands. Moves
-- follows two balances through all operations, Sync and Relay are about
-- two clients.
pub mod Queue
pub mod Buffer
pub mod Uri
pub mod Message
pub mod State
pub mod Handlers
pub mod Shell
pub mod Monitor
pub mod Thread
pub mod Session
pub mod X11
pub mod Pipe
pub mod Moves
pub mod Sync
pub mod Relay
pub mod Samples
mod Tests
pub mod PairTests
