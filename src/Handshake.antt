-- ===== src/Handshake.antt =====
-- ProxyHandshakeAuth.h, ProxyHandshakeAuth.cpp and the SOCKS parts of ProxyHandshakeUtils: the
-- handshake with the client (downside) and with the upstream server (upside), up to the point where
-- the relay session takes over or the connection fails.
pub mod State
pub mod Complete
pub mod Client
pub mod DownReady
pub mod Server5
pub mod Server4
pub mod Http
pub mod Ready
pub mod Bytes
pub mod Run
pub mod Relay
pub mod Login
pub mod Bind
pub mod Once
pub mod Guarded
pub mod Held
