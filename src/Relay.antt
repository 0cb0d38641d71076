-- ===== src/Relay.antt =====
-- The relay session and its statistics: TcpRelaySession.cpp, TcpRelayStatisticsInfo.cpp, SessionRelayId.h.
pub mod Id
pub mod State
pub mod Statistics
pub mod World
pub mod Select
pub mod Session
pub mod Transfer
pub mod Run
pub mod Counts
pub mod Pipe
pub mod Retries
