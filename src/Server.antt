-- ===== src/Server.antt =====
-- core/StreamServer.h and core/StreamServer.cpp: the HTTP and WebSocket server.
pub mod Queue
pub mod Socket
pub mod Thread
pub mod Handshake
pub mod Connection
pub mod Stream
