-- ===== src/Network/HomeAssistant/Update.antt =====
-- `update` and `handleMessage` of modules/network/a_HomeAssistant.cpp: the queue, the authentication,
-- and exceptions.
use esp32_particulate_sensor.Prelude.{
  ◌%◌, ◌^◌, ◌+◌, ◌≡◌, refl, ap, ◌∙◌, true, Option, List, [], ◌∷◌, ◌++◌, Bool-cases, inl, inr,
}
use esp32_particulate_sensor.Prelude.Strings.{Str}
use esp32_particulate_sensor.Network.HomeAssistant.{
  JsonMessage, Outgoing, auth, get_states, HomeAssistantService, Run, finished, thrown, ◌>>=◌,
  state, send, request_states, handle_message, handle_messages, update,
}
use esp32_particulate_sensor.Network.HomeAssistant.Frame.{handle_messages-keeps}

abbrev EmptyQueue : HomeAssistantService → Type 0
EmptyQueue s = s.m_message_queue ≡ []

send-EmptyQueue : (s : HomeAssistantService) (m : Outgoing) → EmptyQueue s → EmptyQueue (send s m)
unfolding send
send-EmptyQueue s m h = elim (Bool-cases s.is_connected) [ inl on ↦ rw on h | inr off ↦ rw off h ]

request_states-EmptyQueue :
    (s : HomeAssistantService) → EmptyQueue s → EmptyQueue (request_states s)
unfolding request_states
request_states-EmptyQueue s h =
    send-EmptyQueue
      (record s { m_authenticated = true; m_message_id = (s.m_message_id + 1) % 2 ^ 32 })
      (get_states s.m_message_id) h

-- A sequence whose second part is itself a sequence.
regroup :
    (r : Run) (f g h : HomeAssistantService → Run)
    → ((t : HomeAssistantService) → f t ≡ (g t >>= h))
    → (r >>= f) ≡ ((r >>= g) >>= h)
regroup (finished t) f g h e = e t
regroup (thrown t) f g h e = refl

module _ (parse : Str → Option JsonMessage) (token : Option Str) where
  handle_messages-append :
      (pre ms : List Str) (s : HomeAssistantService)
      → handle_messages parse token (pre ++ ms) s
        ≡ (handle_messages parse token pre s >>= handle_messages parse token ms)
  unfolding handle_messages
  handle_messages-append [] ms s = refl
  handle_messages-append (m ∷ pre) ms s =
      regroup (handle_message parse token s m) (handle_messages parse token (pre ++ ms))
        (handle_messages parse token pre) (handle_messages parse token ms)
        (handle_messages-append pre ms)

  -- `update` empties the queue in every case. Where all messages are handled without an exception, it
  -- ends like handling them one by one; where one throws, the exception leaves `update`, and the
  -- messages behind it are neither handled nor put back.
  pub update_lem :
      (pre post : List Str) (bad : Str) (s t u : HomeAssistantService)
      → handle_messages parse token pre (record s { m_message_queue = [] }) ≡ finished t
      → handle_message parse token t bad ≡ thrown u
      → ((r : HomeAssistantService) → (state (update parse token r)).m_message_queue ≡ [])
        × (update parse token (record s { m_message_queue = pre }) ≡ finished t)
        × (update parse token (record s { m_message_queue = pre ++ bad ∷ post }) ≡ thrown u)
  unfolding update handle_messages
  update_lem pre post bad s t u handled fails = (
    λ r.
        handle_messages-keeps (λ n. EmptyQueue) (λ n x q. q) (λ n x l q. q)
          (λ n x tok q. send-EmptyQueue x (auth tok) q) (λ n. request_states-EmptyQueue)
          (λ n x q. q) parse token r.m_message_queue (record r { m_message_queue = [] }) refl,
    handled,
    handle_messages-append pre (bad ∷ post) (record s { m_message_queue = [] })
        ∙ ap (λ r. r >>= handle_messages parse token (bad ∷ post)) handled
        ∙ ap (λ r. r >>= handle_messages parse token post) fails,
  )
