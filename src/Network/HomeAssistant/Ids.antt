-- ===== src/Network/HomeAssistant/Ids.antt =====
-- The message ids that modules/network/a_HomeAssistant.cpp sends.
use esp32_particulate_sensor.Prelude.{
  ℕ, suc, ◌<◌, ◌^◌, ◌%◌, ◌≡◌, length, ◌+◌, ◌≤◌, Option, List, [], ◌∷◌, ◌++◌, arith, Bool-cases, inl,
  inr,
}
use esp32_particulate_sensor.Prelude.Strings.{Str}
use esp32_particulate_sensor.Network.HomeAssistant.{
  JsonMessage, Outgoing, auth, get_states, HomeAssistantService, state, send, request_states,
  update,
}
use esp32_particulate_sensor.Network.HomeAssistant.Frame.{handle_messages-keeps}

abbrev pub ids : List Outgoing → List ℕ
ids [] = []
ids (auth token ∷ ms) = ids ms
ids (get_states i ∷ ms) = i ∷ ids ms

-- The numbers grow, from `low` on, and stay below `high`.
abbrev pub Increasing : ℕ → List ℕ → ℕ → Type 0
Increasing low [] high = low ≤ high
Increasing low (i ∷ is) high = (low ≤ i) × Increasing (i + 1) is high

-- The ids sent grow from 1 on, and stay below the next id.
abbrev pub IdsInOrder : HomeAssistantService → Type 0
IdsInOrder s = Increasing 1 (ids s.sent) s.m_message_id

Increasing-mono :
    (low : ℕ) (is : List ℕ) (high higher : ℕ)
    → high ≤ higher
    → Increasing low is high
    → Increasing low is higher
Increasing-mono low [] high higher le h = omega arith
Increasing-mono low (i ∷ is) high higher le h = (h.0, Increasing-mono (i + 1) is high higher le h.1)

ids_with_auth :
    (low high : ℕ) (ms : List Outgoing) (token : Str)
    → Increasing low (ids ms) high
    → Increasing low (ids (ms ++ auth token ∷ [])) high
ids_with_auth low high [] token h = h
ids_with_auth low high (auth t ∷ ms) token h = ids_with_auth low high ms token h
ids_with_auth low high (get_states i ∷ ms) token h = (h.0, ids_with_auth (i + 1) high ms token h.1)

ids_with_request :
    (low high : ℕ) (ms : List Outgoing)
    → Increasing low (ids ms) high
    → Increasing low (ids (ms ++ get_states high ∷ [])) (high + 1)
ids_with_request low high [] h = (h, omega arith)
ids_with_request low high (auth t ∷ ms) h = ids_with_request low high ms h
ids_with_request low high (get_states i ∷ ms) h = (h.0, ids_with_request (i + 1) high ms h.1)

-- The ids are in order, and `n` more requests leave the next id an i32.
abbrev HasRoom : ℕ → HomeAssistantService → Type 0
HasRoom n s = IdsInOrder s × (s.m_message_id + n < 2 ^ 31)

send_auth-HasRoom :
    (n : ℕ) (s : HomeAssistantService) (token : Str)
    → HasRoom (suc n) s
    → HasRoom n (send s (auth token))
unfolding send
send_auth-HasRoom n s token (h, room) = elim (Bool-cases s.is_connected) [
  | inl on ↦ rw on (ids_with_auth 1 s.m_message_id s.sent token h, omega arith)
  | inr off ↦ rw off (h, omega arith)
]

request_states-HasRoom :
    (n : ℕ) (s : HomeAssistantService) → HasRoom (suc n) s → HasRoom n (request_states s)
unfolding request_states send
request_states-HasRoom n s (h, room) =
    let small : (s.m_message_id + 1) % 2 ^ 32 ≡ s.m_message_id + 1 = omega arith in
    elim (Bool-cases s.is_connected) [
      | inl on ↦ rw (on, small) (ids_with_request 1 s.m_message_id s.sent h, omega arith)
      | inr off ↦
          rw (off, small)
            (
              Increasing-mono 1 (ids s.sent) s.m_message_id (s.m_message_id + 1) (omega arith) h,
              omega arith,
            )
    ]

-- While the next id stays an i32, also if each message in the queue takes one, `update` keeps the ids
-- of the requests sent strictly growing from 1 on and below the next id, and leaves that an i32: for
-- any messages, with the connection or without, and also where an exception leaves it.
pub update-IdsInOrder :
    (parse : Str → Option JsonMessage) (token : Option Str) (s : HomeAssistantService)
    → IdsInOrder s
    → s.m_message_id + length s.m_message_queue < 2 ^ 31
    → IdsInOrder (state (update parse token s))
      × ((state (update parse token s)).m_message_id < 2 ^ 31)
unfolding update
update-IdsInOrder parse token s h room =
    let (ordered, fits) =
      handle_messages-keeps HasRoom (λ n t q. (q.0, omega (arith, q.1))) (λ n t l q. q)
        send_auth-HasRoom request_states-HasRoom (λ n t q. (q.0, omega (arith, q.1))) parse token
        s.m_message_queue (record s { m_message_queue = [] }) (h, room) in
    (ordered, omega (arith, fits))
