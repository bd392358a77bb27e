-- ===== src/Server.antt =====
-- server/server.c: the listening socket, the table of clients and the relay between them.
-- chatserver/server.c is the same text.
pub mod Strlcat
pub mod Signals
pub mod Daemon
pub mod Socket
pub mod Relay
pub mod Loop
pub mod Program
