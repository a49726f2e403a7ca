-- ===== src/Network/Websocket/Connect.antt =====
-- What `doConnect` of modules/network/a_BoostWebsocketClient.cpp calls, and when it connects.
use mathlib.Core.List.{append_assoc, append-nil}
use esp32_particulate_sensor.Prelude.{
  ◌≡◌, refl, sym, ap, ◌∙◌, Bool, true, false, ◌&&◌, ◌||◌, Option, none, some, List, [], ◌∷◌, ◌++◌,
  if◌then◌else◌, Bool-cases, inl, inr, ◌+◌,
}
use esp32_particulate_sensor.Prelude.Strings.{decimal}
use esp32_particulate_sensor.Network.Proxy.{ProxySettings}
use esp32_particulate_sensor.Network.Websocket.{
  WebsocketReq, NetworkCall, resolve, tcp_connect, write_connect, read_response, check_response,
  set_server_name, set_verified_host, tls_handshake, websocket_handshake, Outcomes, Run, call,
  target_of, path_of, open_tunnel, handshakes, try_connect, used_proxy, do_connect, Client,
}

-- The calls up to the first that fails, that one included, and whether none fails.
abbrev pub until_failure : Outcomes → List NetworkCall → List NetworkCall
until_failure o [] = []
until_failure o (c ∷ cs) = let rest = until_failure o cs in c ∷ (if o c then rest else [])

abbrev pub all_succeed : Outcomes → List NetworkCall → Bool
all_succeed o [] = true
all_succeed o (c ∷ cs) = o c && all_succeed o cs

-- The calls of a connection, in their order.
abbrev pub handshake_plan : WebsocketReq → List NetworkCall
handshake_plan req =
    set_server_name req.host
    ∷ set_verified_host req.host
    ∷ tls_handshake
    ∷ websocket_handshake (target_of req) (path_of req.path)
    ∷ []

abbrev pub plan : WebsocketReq → Option ProxySettings → List NetworkCall
plan req none = resolve req.host (decimal req.port) ∷ tcp_connect ∷ handshake_plan req
plan req (some proxy) =
    resolve proxy.host (decimal proxy.port)
    ∷ tcp_connect
    ∷ write_connect (target_of req)
    ∷ read_response
    ∷ check_response
    ∷ handshake_plan req

abbrev calls : Outcomes → Run → List NetworkCall → Run
calls o run [] = run
calls o run (c ∷ cs) = calls o (call o run c) cs

calls_failed :
    (o : Outcomes) (made cs : List NetworkCall) → calls o (made, false) cs ≡ (made, false)
unfolding call
calls_failed o made [] = refl
calls_failed o made (c ∷ cs) = calls_failed o made cs

calls_lem :
    (o : Outcomes) (made cs : List NetworkCall)
    → calls o (made, true) cs ≡ (made ++ until_failure o cs, all_succeed o cs)
unfolding call
calls_lem o made [] = ap (λ m. (m, true)) (sym (append-nil made))
calls_lem o made (c ∷ cs) = elim (Bool-cases (o c)) [
  | inl succeeds ↦ rw succeeds (
      calls_lem o (made ++ c ∷ []) cs
      ∙ ap (λ m. (m, all_succeed o cs)) (append_assoc made (c ∷ []) (until_failure o cs)))
  | inr fails ↦ rw fails (calls_failed o (made ++ c ∷ []) cs)
]

try_connect-calls :
    (o : Outcomes) (req : WebsocketReq) (proxy : Option ProxySettings)
    → try_connect o req proxy ≡ calls o ([], true) (plan req proxy)
unfolding try_connect handshakes open_tunnel
try_connect-calls o req none = refl
try_connect-calls o req (some proxy) = refl

-- `doConnect` resolves and connects to the proxy, if there is a usable one, and else to the host; it
-- opens the tunnel only through a proxy, and makes the handshakes for the host. It makes these calls
-- in this order up to the first that fails. The client is connected afterwards exactly if none fails
-- or if it was connected before, and a read loop is spawned exactly if none fails.
pub do_connect_lem :
    (o : Outcomes) (req : WebsocketReq) (proxy : Option ProxySettings) (c : Client)
    → let tried = plan req (used_proxy proxy) in
      ((try_connect o req (used_proxy proxy)).0 ≡ until_failure o tried)
      × ((do_connect o req proxy c).is_connected ≡ (all_succeed o tried || c.is_connected))
      × ((do_connect o req proxy c).spawned_loops
          ≡ (if all_succeed o tried then c.spawned_loops + 1 else c.spawned_loops))
unfolding do_connect
do_connect_lem o req proxy c =
    let run =
      try_connect-calls o req (used_proxy proxy) ∙ calls_lem o [] (plan req (used_proxy proxy)) in
    let ends = ap (λ r. r.1) run in
    (
      ap (λ r. r.0) run,
      rw ends (elim (Bool-cases (all_succeed o (plan req (used_proxy proxy)))) [
        | inl all ↦ rw all refl
        | inr some_fails ↦ rw some_fails refl
      ]),
      rw ends (elim (Bool-cases (all_succeed o (plan req (used_proxy proxy)))) [
        | inl all ↦ rw all refl
        | inr some_fails ↦ rw some_fails refl
      ]),
    )
