-- ===== src/Tests.antt =====
-- Concrete parts for the parameters of the model, and the theorems at concrete inputs.
mod Ring
mod Delay
mod Servers
mod Pool
mod Users
mod Auth
mod Handshake
mod Config
mod Runs
mod Http
mod Sessions
mod Relay
mod Pipe
