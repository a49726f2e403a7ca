-- ===== src/Network/Websocket/Tests.antt =====
-- The WebSocket client on one connection through a proxy.
use esp32_particulate_sensor.Prelude.{◌≡◌, ◌≤◌, ℕ, refl, true, false, Option, some, [], ◌∷◌}
use esp32_particulate_sensor.Prelude.Strings.{codes}
use esp32_particulate_sensor.Network.Proxy.{ProxySettings, has_proxysettings}
use esp32_particulate_sensor.Network.Websocket.{
  WebsocketReq, Outcomes, Client, new_client, do_connect, try_connect, used_proxy,
  on_message_received, Reaches, here, next, connects, registers, check_response,
}
use esp32_particulate_sensor.Network.Websocket.Connect.{until_failure, plan, do_connect_lem}
use esp32_particulate_sensor.Network.Websocket.Loops.{send_overlap}
use esp32_particulate_sensor.Network.Websocket.Delivery.{Reads, HasHeard, deliver_lem}

abbrev home : WebsocketReq
home = record { port = 443; host = codes "home"; path = [] }

abbrev proxy : Option ProxySettings
proxy = some (record { host = codes "proxy"; port = 80 })

abbrev all_well : Outcomes
all_well c = true

abbrev refused : Outcomes
refused check_response = false
refused c = true

abbrev connected : Client
connected = do_connect all_well home proxy (on_message_received new_client)

connected-reached : Reaches home proxy new_client connected
connected-reached =
    next (next (here new_client) (registers new_client))
      (connects all_well (on_message_received new_client))

do_connect_lem_example :
    ((try_connect refused home proxy).0 ≡ until_failure refused (plan home proxy))
    × ((do_connect refused home proxy new_client).is_connected ≡ false)
    × ((do_connect refused home proxy new_client).spawned_loops ≡ 0)
unfolding used_proxy has_proxysettings
do_connect_lem_example = do_connect_lem refused home proxy new_client

deliver_lem_example :
    (n : ℕ) × (d : Client) × (n ≤ 3)
    × Reads n (codes "{}" ∷ codes "[]" ∷ []) connected d
    × HasHeard connected (codes "{}" ∷ codes "[]" ∷ []) d
unfolding do_connect on_message_received has_proxysettings
deliver_lem_example = deliver_lem (codes "{}" ∷ codes "[]" ∷ []) connected-reached refl refl

send_overlap_example :
    (d : Client) × Reaches home proxy connected d × (d.in_flight ≡ codes "a" ∷ codes "b" ∷ [])
unfolding do_connect on_message_received has_proxysettings
send_overlap_example = send_overlap connected (codes "a") (codes "b") refl refl
