-- ===== src/Network/Websocket.antt =====
-- `BoostWebsocketClient` of modules/network/a_BoostWebsocketClient.hpp and .cpp. Its coroutines run on
-- one strand and change the client only between their awaits, which are the steps here. What the
-- network answers (`Outcomes`, and the results of reads and writes) is an input.
pub mod Connect
pub mod Loops
pub mod Delivery
pub mod Tests
use esp32_particulate_sensor.Prelude.{
  ℕ, ◌+◌, ◌-◌, ◌<◌, ◌≡◌, Bool, true, false, ◌&&◌, Option, none, some, List, [], ◌∷◌, ◌++◌,
  if◌then◌else◌,
}
use esp32_particulate_sensor.Prelude.Strings.{Str, decimal, codes}
use esp32_particulate_sensor.Network.Proxy.{ProxySettings, has_proxysettings}

pub record WebsocketReq : Type 0 where
  pub port : ℕ
  pub host : Str
  pub path : Str

-- The calls of `doConnect` that can throw, with the texts that they are given.
pub data NetworkCall : Type 0 where
  resolve : Str → Str → NetworkCall
  tcp_connect : NetworkCall
  write_connect : Str → NetworkCall
  read_response check_response : NetworkCall
  set_server_name set_verified_host : Str → NetworkCall
  tls_handshake : NetworkCall
  websocket_handshake : Str → Str → NetworkCall

-- Whether each of them succeeds.
abbrev pub Outcomes : Type 0
Outcomes = NetworkCall → Bool

-- What the body of the `try` has called, and whether it got to its end.
abbrev pub Run : Type 0
Run = List NetworkCall × Bool

-- One call, when no exception has come yet.
unfoldable pub call : Outcomes → Run → NetworkCall → Run
call o (made, false) c = (made, false)
call o (made, true) c = (made ++ c ∷ [], o c)

abbrev pub target_of : WebsocketReq → Str
target_of req = req.host ++ (codes ":" ++ decimal req.port)

abbrev pub path_of : Str → Str
path_of [] = codes "/"
path_of (b ∷ bs) = b ∷ bs

-- The tunnel through the proxy.
unfoldable pub open_tunnel : Outcomes → WebsocketReq → Run → Run
unfolding call
open_tunnel o req run =
    call o (call o (call o run (write_connect (target_of req))) read_response) check_response

-- TLS and the handshake of the WebSocket.
unfoldable pub handshakes : Outcomes → WebsocketReq → Run → Run
unfolding call
handshakes o req run =
    let named = call o (call o run (set_server_name req.host)) (set_verified_host req.host) in
    call o (call o named tls_handshake) (websocket_handshake (target_of req) (path_of req.path))

-- The proxy, if `hasProxysettings` takes it for one.
unfoldable pub used_proxy : Option ProxySettings → Option ProxySettings
used_proxy proxy = if has_proxysettings proxy then proxy else none

-- The body of the `try`, over the proxy that is used.
unfoldable pub try_connect : Outcomes → WebsocketReq → Option ProxySettings → Run
unfolding call open_tunnel handshakes
try_connect o req none =
    handshakes o req (call o (call o ([], true) (resolve req.host (decimal req.port))) tcp_connect)
try_connect o req (some proxy) = handshakes o req (
    open_tunnel o req
      (call o (call o ([], true) (resolve proxy.host (decimal proxy.port))) tcp_connect))

-- The coroutines of the client: read loops that are spawned and those that wait for a message,
-- payloads whose `doSend` is spawned and those that are being written. `received` are the messages
-- handed to the callback.
pub record Client : Type 0 where
  pub is_connected : Bool
  pub spawned_loops : ℕ
  pub waiting_loops : ℕ
  pub spawned_sends : List Str
  pub in_flight : List Str
  pub received : List Str
  pub has_callback : Bool

abbrev pub new_client : Client
new_client = record {
  is_connected = false;
  spawned_loops = 0;
  waiting_loops = 0;
  spawned_sends = [];
  in_flight = [];
  received = [];
  has_callback = false;
}

-- `doConnect`: an exception leaves the client as it is.
unfoldable pub do_connect : Outcomes → WebsocketReq → Option ProxySettings → Client → Client
unfolding try_connect used_proxy
do_connect o req proxy c =
    if (try_connect o req (used_proxy proxy)).1
    then record c { is_connected = true; spawned_loops = c.spawned_loops + 1 }
    else c

-- `doDisconnect`, whether or not `async_close` throws.
unfoldable pub do_disconnect : Client → Client
do_disconnect c = record c { is_connected = false }

unfoldable pub on_message_received : Client → Client
on_message_received c = record c { has_callback = true }

unfoldable pub send_payload : Str → Client → Client
send_payload payload c =
    if c.is_connected then record c { spawned_sends = c.spawned_sends ++ payload ∷ [] } else c

-- `doSend` of the first payload up to its `async_write`.
abbrev pub start_first : List Str → Client → Client
start_first [] c = c
start_first (payload ∷ rest) c = record c {
  spawned_sends = rest;
  in_flight = c.in_flight ++ payload ∷ [];
}

unfoldable pub start_send : Client → Client
start_send c = start_first c.spawned_sends c

-- The rest of `doSend`.
abbrev pub finish_first : Bool → List Str → Client → Client
finish_first written [] c = c
finish_first written (payload ∷ rest) c =
    if written
    then record c { in_flight = rest }
    else record c { in_flight = rest; is_connected = false }

unfoldable pub finish_send : Bool → Client → Client
finish_send written c = finish_first written c.in_flight c

-- The condition of the loop of `doReadLoop`: it reads, or ends.
unfoldable pub read_or_end : Client → Client
read_or_end c = if c.is_connected then record c { waiting_loops = c.waiting_loops + 1 } else c

unfoldable pub start_loop : Client → Client
start_loop c = read_or_end (record c { spawned_loops = c.spawned_loops - 1 })

-- A read ends with a message, or none if it throws; `returns` tells whether the callback does.
unfoldable pub finish_read : Option Str → Bool → Client → Client
finish_read none returns c = record c { is_connected = false; waiting_loops = c.waiting_loops - 1 }
finish_read (some message) returns c =
    let woken = record c { waiting_loops = c.waiting_loops - 1 } in
    if c.has_callback
    then (let called = record woken { received = c.received ++ message ∷ [] } in
        if returns then read_or_end called else record called { is_connected = false })
    else read_or_end woken

module _ (req : WebsocketReq) (proxy : Option ProxySettings) where
  -- The steps of the client.
  pub data Step : Client → Client → Type 0 where
    connects : (o : Outcomes) (c : Client) → Step c (do_connect o req proxy c)
    disconnects : (c : Client) → Step c (do_disconnect c)
    registers : (c : Client) → Step c (on_message_received c)
    sends : (payload : Str) (c : Client) → Step c (send_payload payload c)
    starts_send : (c : Client) → Step c (start_send c)
    ends_send : (written : Bool) (c : Client) → Step c (finish_send written c)
    starts_loop : (c : Client) → 0 < c.spawned_loops → Step c (start_loop c)
    ends_read :
        (message : Option Str) (returns : Bool) (c : Client)
        → 0 < c.waiting_loops
        → Step c (finish_read message returns c)

  pub data Reaches : Client → Client → Type 0 where
    here : (c : Client) → Reaches c c
    next : {c d e : Client} → Reaches c d → Step d e → Reaches c e
