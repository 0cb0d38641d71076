-- ===== src/Relay/Counts.antt =====
-- The balance of the connection counts: what each operation of a session does to the counts of the
-- servers and to the session's own part in them.
pub mod Lists
pub mod Steps
pub mod Choice
pub mod Handlers
pub mod Quiet
pub mod Events
pub mod Transfers
pub mod Step
pub mod Runs
