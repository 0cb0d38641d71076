-- ===== src/Relay/Statistics.antt =====
-- TcpRelayStatisticsInfo.cpp: the statistics by upstream server, client, listener and user.
pub mod Sessions
pub mod Info
pub mod Maps
pub mod Upstream
pub mod Client
pub mod Listen
pub mod User
pub mod All
pub mod Bytes
pub mod Expiry
