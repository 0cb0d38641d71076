-- ===== src/Lib.antt =====
-- Socks5BalancerAsio, a SOCKS5 and HTTP proxy that spreads its clients over a pool of upstream SOCKS5
-- servers.
--
-- The program. A relay session (src/TcpRelaySession.cpp) takes a client's connection, asks the pool
-- (src/UpstreamPool.cpp) for an upstream server by a selection rule, and runs a handshake
-- (src/ProxyHandshakeAuth.cpp and src/ProxyHandshakeUtils) that speaks SOCKS4, SOCKS5 or HTTP with the client
-- and SOCKS5 with the upstream server. The pool's timers test every server and keep the delays in
-- bounded histories (src/DelayCollection.h); what the tests record decides which servers are valid.
-- Clients are checked against a table of users (src/AuthClientManager.cpp).
--
-- The files.
-- - Prelude: library names, Boolean tests, lists over the native numbers, decimal text.
-- - Config: the settings and the names of the rules (src/ConfigLoader.h, src/ConfigRuleEnum.h).
-- - Delay: `boost::circular_buffer` as an interface with its documented laws (Buffer), TimeHistory
--   (History, with Trim and Prune), DelayCollect (Collect, Bounded).
-- - Pool: UpstreamServer and the pool's state (Server), the searches and selection rules (Select), the
--   pool over sequences of calls (Sound), the recorded test results (Checks), the timers (Timers).
-- - Auth: the multi-index container of users as an interface (Users), AuthClientManager (Manager), what
--   a successful check means (Checks).
-- - Handshake: the state of ProxyHandshakeAuth with the pending asynchronous operations (State), the
--   completion logic (Complete), Socks5ClientImpl (Client), Socks5ServerImpl (Server5), Socks4ServerImpl
--   (Server4), HttpServerImpl with the theorems on its requests and logins (Http), the upside's answer (Ready), the
--   first bytes and the handlers in any order (Run), and the theorems on requests (Relay), logins
--   (Login) and replies (Bind), and on whole handshakes: the callbacks (Once), and the users and the
--   session (Guarded, Held). base64.h and the search for the blank line stand on boost, and are
--   parameters; an exception of the decoder is `none`.
-- - Relay: SessionRelayId (Id), TcpRelayStatisticsInfo with one file of operations for each of its four
--   maps and the theorems on its counters (Statistics), the state of TcpRelaySession (State, World), the
--   choice of a server for an attempt (Select), connecting and closing (Session), the two directions of
--   the relay (Transfer), any number of sessions over one pool (Run), the balance of the
--   connection counts (Counts), the data of a session as an abstract pair of pipes (Pipe), and the
--   attempts to connect that fail (Retries). The session is the one of a build with the option
--   Need_ProxyHandshakeAuth.
-- - Tests: concrete interfaces and data, and each theorem at a concrete input.
-- A function carries the name of its C++ function in snake_case; a handler of an asynchronous read
-- is `on_` with the name of the operation.
--
-- Conventions. Bytes are natural numbers; times and durations are natural numbers of nanoseconds.
-- Undefined behaviour (an access outside the pool, a write outside a buffer, a null pointer) is a
-- result of its own, `none` or `out_of_bounds`. A handler of a socket operation is run with any
-- result that the network may give. The size that a length byte wraps to is written out as `% 256`.
--
-- The sessions of the statistics are a container with documented laws (Relay.Statistics.Sessions), and
-- a `std::map` is an association list. A `size_t` is a natural number with its wrap-around written
-- out; a reference to an upstream server is its index, and a reference to a session is its id. A
-- session's step runs one of its pending operations with any result; how its handshake ends is such a
-- result.
--
-- Fuel. The two searches of the pool run on one more step than there are servers, and the loop of
-- `removeBefore` on one more step than there are entries; the theorems show that both end. The loop
-- of `closeAllSession` runs on as many steps as there are sessions, each of which it passes or erases.
--
-- Not modelled. TcpRelayServer, the connection tracker and FirstPackAnalyzer
-- are not modelled; nor are StateMonitorServer, EmbedWebServer, TcpTest, ConnectTestHttps, the JSON
-- reader, the log and main.cpp, which are input and output around the modelled parts. Mutexes and atomics are
-- not modelled: each method and handler runs alone. The assertions are those of a debug build, and what
-- they do is not modelled. Of a released session the handshake notes where its pointer is dereferenced,
-- which is where a user is stored; that its sockets go with the session is not modelled.
pub mod Prelude
pub mod Config
pub mod Delay
pub mod Pool
pub mod Auth
pub mod Handshake
pub mod Relay
mod Tests
