-- ===== src/Server.antt =====
-- The server's sockets, its identity and its UDP side: libdoipserver/include/DoIPServer.h and
-- libdoipserver/src/DoIPServer.cpp.
pub mod State
pub mod Sockets
pub mod Udp
mod Tests
