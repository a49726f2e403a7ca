-- ===== src/Network/Websocket/Delivery.antt =====
-- The delivery of messages by the read loop of modules/network/a_BoostWebsocketClient.cpp.
use mathlib.Core.List.{append_assoc, append-nil}
use esp32_particulate_sensor.Prelude.{
  ◌≡◌, ◌<◌, ◌≤◌, ◌+◌, refl, ◌∙◌, sym, ℕ, suc, true, Option, some, List, [], ◌∷◌, ◌++◌, arith,
  Bool-cases, inl, inr, ltb, ltb→lt, length,
}
use esp32_particulate_sensor.Prelude.Strings.{Str}
use esp32_particulate_sensor.Network.Proxy.{ProxySettings}
use esp32_particulate_sensor.Network.Websocket.{
  WebsocketReq, Client, new_client, read_or_end, start_loop, finish_read, Reaches,
}
use esp32_particulate_sensor.Network.Websocket.Loops.{Reaches-HasReader}

-- Steps of the read loops alone, of which none sees an exception: their number, the messages that they
-- read, and the clients before and after.
pub data Reads : ℕ → List Str → Client → Client → Type 0 where
  no_reads : (c : Client) → Reads 0 [] c c
  begins :
      {n : ℕ} {ms : List Str} {d : Client} (c : Client)
      → 0 < c.spawned_loops
      → Reads n ms (start_loop c) d
      → Reads (suc n) ms c d
  takes :
      {n : ℕ} {ms : List Str} {d : Client} (m : Str) (c : Client)
      → 0 < c.waiting_loops
      → Reads n ms (finish_read (some m) true c) d
      → Reads (suc n) (m ∷ ms) c d

-- What a client is like that has handed over some more messages and waits for the next.
abbrev pub HasHeard : Client → List Str → Client → Type 0
HasHeard c ms d = (d.received ≡ c.received ++ ms) × (d.is_connected ≡ true) × (0 < d.waiting_loops)

-- A waiting loop takes each message in one step.
take_all :
    (ms : List Str) (c : Client)
    → c.is_connected ≡ true
    → c.has_callback ≡ true
    → 0 < c.waiting_loops
    → (d : Client) × Reads (length ms) ms c d × HasHeard c ms d
unfolding finish_read read_or_end
take_all [] c on called waits = (c, no_reads c, (sym (append-nil c.received), on, waits))
take_all (m ∷ ms) c on called waits =
    let e = finish_read (some m) true c in
    let (d, run, heard) =
      take_all ms e (rw (called, on) refl) (rw (called, on) refl) (rw (called, on) (omega arith)) in
    let taken : e.received ≡ c.received ++ m ∷ [] = rw (called, on) refl in
    (
      d,
      takes m c waits run,
      (heard.0 ∙ (rw taken (append_assoc c.received (m ∷ []) ms)), heard.1, heard.2),
    )

module _ {req : WebsocketReq} {proxy : Option ProxySettings} where
  -- A client that has been started new and is connected, with a callback, can take any messages: with
  -- one step of its read loop for each and at most one more, and with no other step, they are all
  -- handed to the callback in order, behind those before. The client is then still connected, and a
  -- read loop waits for the next message.
  pub deliver_lem :
      {c : Client} (messages : List Str)
      → Reaches req proxy new_client c
      → c.is_connected ≡ true
      → c.has_callback ≡ true
      → (n : ℕ) × (d : Client) × (n ≤ length messages + 1)
        × Reads n messages c d
        × HasHeard c messages d
  unfolding read_or_end start_loop
  deliver_lem {c} messages reached on called =
      let reads = Reaches-HasReader reached (λ e. ground (arith, e)) on in
      elim (Bool-cases (ltb 0 c.waiting_loops)) [
        | inl waits ↦
            let (d, run, heard) = take_all messages c on called (ltb→lt 0 c.waiting_loops waits) in
            (length messages, d, omega arith, run, heard)
        | inr idle ↦
            let (d, run, heard) =
              take_all messages (start_loop c) (rw on refl) (rw (on, called) refl)
                (rw on (omega arith)) in
            let same : (start_loop c).received ≡ c.received = rw on refl in
            (
              suc (length messages),
              d,
              omega arith,
              begins c (ground (arith, reads, idle)) run,
              (rw same at heard.0, heard.1, heard.2),
            )
      ]
