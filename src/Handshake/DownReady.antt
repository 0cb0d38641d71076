-- ===== src/Handshake/DownReady.antt =====
-- `do_whenDownReady` of ProxyHandshakeAuth: the client's request is known, the upside begins.
use socks5balancer_asio.Prelude.{true, false, some, if◌then◌else◌}
use socks5balancer_asio.Handshake.State.{State, Env}
use socks5balancer_asio.Handshake.Complete.{fail}
use socks5balancer_asio.Handshake.Client.{start}

unfoldable pub do_when_down_ready : Env → State → State
do_when_down_ready env s =
    if s.ready_down
    then fail s
    else if s.complete_up
    then fail s
    else start env (record s { ready_down = true; socks5_client = some false })
