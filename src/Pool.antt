-- ===== src/Pool.antt =====
-- UpstreamPool.h and UpstreamPool.cpp: the upstream servers, how one is chosen, and how they are checked.
pub mod Server
pub mod Select
pub mod Sound
pub mod Checks
pub mod Timers
