-- ===== src/Network/Websocket/Loops.antt =====
-- The read loops and the writes of modules/network/a_BoostWebsocketClient.cpp, over all interleavings.
use mathlib.Core.List.{append_assoc}
use esp32_particulate_sensor.Prelude.{
  ◌≡◌, ◌<◌, ◌+◌, ◌-◌, ◌∙◌, Bool, true, false, Option, none, some, List, [], ◌∷◌, ◌++◌, arith,
  Bool-cases, inl, inr,
}
use esp32_particulate_sensor.Prelude.Strings.{Str}
use esp32_particulate_sensor.Network.Proxy.{ProxySettings}
use esp32_particulate_sensor.Network.Websocket.{
  WebsocketReq, Client, Outcomes, do_connect, try_connect, used_proxy, do_disconnect,
  on_message_received, send_payload, start_send, start_first, finish_send, finish_first,
  read_or_end, start_loop, finish_read, Step, connects, disconnects, registers, sends, starts_send,
  ends_send, starts_loop, ends_read, Reaches, here, next,
}

-- A connected client has a read loop.
abbrev pub HasReader : Client → Type 0
HasReader c = c.is_connected ≡ true → 0 < c.spawned_loops + c.waiting_loops

start_first-HasReader : (l : List Str) (c : Client) → HasReader c → HasReader (start_first l c)
start_first-HasReader [] c h = h
start_first-HasReader (p ∷ rest) c h = h

finish_first-HasReader :
    (b : Bool) (l : List Str) (c : Client) → HasReader c → HasReader (finish_first b l c)
finish_first-HasReader b [] c h = h
finish_first-HasReader true (p ∷ rest) c h = h
finish_first-HasReader false (p ∷ rest) c h = λ e. ground (arith, e)

read_or_end-HasReader : (c : Client) → HasReader (read_or_end c)
unfolding read_or_end
read_or_end-HasReader c = elim (Bool-cases c.is_connected) [
  | inl on ↦ rw on (λ h. omega arith)
  | inr off ↦ rw off (λ h. ground (arith, h, off))
]

finish_read-HasReader :
    (m : Option Str) (returns : Bool) (c : Client)
    → HasReader c
    → HasReader (finish_read m returns c)
unfolding finish_read
finish_read-HasReader none returns c h = λ e. ground (arith, e)
finish_read-HasReader (some m) returns c h = elim (Bool-cases c.has_callback) [
  | inl called ↦ rw called (elim (Bool-cases returns) [
    | inl back ↦ rw back (
        read_or_end-HasReader (record c {
          waiting_loops = c.waiting_loops - 1;
          received = c.received ++ m ∷ [];
          has_callback = true;
        }))
    | inr thrown ↦ rw thrown (λ e. ground (arith, e))
  ])
  | inr silent ↦ rw silent (
      read_or_end-HasReader
        (record c { waiting_loops = c.waiting_loops - 1; has_callback = false }))
]

do_connect-HasReader :
    (o : Outcomes) (req : WebsocketReq) (proxy : Option ProxySettings) (c : Client)
    → HasReader c
    → HasReader (do_connect o req proxy c)
unfolding do_connect
do_connect-HasReader o req proxy c h = elim (Bool-cases (try_connect o req (used_proxy proxy)).1) [
  | inl all ↦ rw all (λ e. omega arith)
  | inr failed ↦ rw failed h
]

module _ {req : WebsocketReq} {proxy : Option ProxySettings} where
  Step-HasReader : {c d : Client} → Step req proxy c d → HasReader c → HasReader d
  unfolding do_connect do_disconnect on_message_received send_payload start_send finish_send
      start_loop
  Step-HasReader (connects o c) h = do_connect-HasReader o req proxy c h
  Step-HasReader (disconnects c) h = λ e. ground (arith, e)
  Step-HasReader (registers c) h = h
  Step-HasReader (sends payload c) h = elim (Bool-cases c.is_connected) [
    | inl on ↦ rw on (λ e. h on)
    | inr off ↦ rw off (λ e. h (off ∙ e))
  ]
  Step-HasReader (starts_send c) h = start_first-HasReader c.spawned_sends c h
  Step-HasReader (ends_send written c) h = finish_first-HasReader written c.in_flight c h
  Step-HasReader (starts_loop c some_loop) h =
      read_or_end-HasReader (record c { spawned_loops = c.spawned_loops - 1 })
  Step-HasReader (ends_read message returns c waits) h = finish_read-HasReader message returns c h

  -- Whatever the network answers and however the coroutines interleave, a client that is connected has
  -- a read loop, which waits for a message or is about to.
  pub Reaches-HasReader : {c d : Client} → Reaches req proxy c d → HasReader c → HasReader d
  Reaches-HasReader (here c) h = h
  Reaches-HasReader (next reached step) h = Step-HasReader step (Reaches-HasReader reached h)

  -- From any connected client with no payload under way, two payloads that are sent one after the
  -- other can both be in `async_write` at the same time: nothing makes the second wait for the first.
  pub send_overlap :
      (c : Client) (first second : Str)
      → c.is_connected ≡ true
      → c.spawned_sends ≡ []
      → (d : Client) × Reaches req proxy c d × (d.in_flight ≡ c.in_flight ++ (first ∷ second ∷ []))
  unfolding send_payload start_send
  send_overlap c first second on idle =
      let sent = send_payload second (send_payload first c) in
      (
        start_send (start_send sent),
        next
            (next (next (next (here c) (sends first c)) (sends second (send_payload first c)))
              (starts_send sent))
            (starts_send (start_send sent)),
        rw (on, idle) (append_assoc c.in_flight (first ∷ []) (second ∷ [])),
      )
