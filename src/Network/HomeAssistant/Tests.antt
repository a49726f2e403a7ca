-- ===== src/Network/HomeAssistant/Tests.antt =====
-- Runs of modules/network/a_HomeAssistant.cpp, and the theorems at small inputs. Here a message of one
-- byte stands for its JSON: 1 for "auth_ok", 2 for a type that is no string.
use esp32_particulate_sensor.Prelude.{
  ◌≡◌, refl, true, false, Option, none, some, [], ◌∷◌, ◌++◌, arith, ◌==◌, if◌then◌else◌, ◌<◌, ◌^◌,
}
use esp32_particulate_sensor.Prelude.Strings.{Str}
use esp32_particulate_sensor.Network.HomeAssistant.{
  JsonMessage, not_string, text, auth_ok, get_states, HomeAssistantService, finished, thrown, state,
  send, request_states, handle_auth_message, handle_result, handle_message, handle_messages, update,
}
use esp32_particulate_sensor.Network.HomeAssistant.Ids.{IdsInOrder, update-IdsInOrder}
use esp32_particulate_sensor.Network.HomeAssistant.Update.{update_lem}

abbrev parse : Str → Option JsonMessage
parse [] = none
parse (b ∷ bs) =
    if b == 1
    then some (record { type = text auth_ok; result = none })
    else if b == 2
    then some (record { type = not_string; result = none })
    else none

abbrev service : HomeAssistantService
service = record {
  m_message_id = 1;
  m_authenticated = false;
  m_message_queue = (1 ∷ []) ∷ (2 ∷ []) ∷ [];
  is_connected = true;
  sent = [];
  logged = [];
}

-- After one "auth_ok".
abbrev after_ok : HomeAssistantService
after_ok = record service {
  m_message_queue = [];
  m_authenticated = true;
  m_message_id = 2;
  sent = get_states 1 ∷ [];
}

update-IdsInOrder_example :
    IdsInOrder (state (update parse none service))
    × ((state (update parse none service)).m_message_id < 2 ^ 31)
update-IdsInOrder_example = update-IdsInOrder parse none service (omega arith) (omega arith)

update_lem_example :
    ((r : HomeAssistantService) → (state (update parse none r)).m_message_queue ≡ [])
    × (update parse none (record service { m_message_queue = (1 ∷ []) ∷ [] }) ≡ finished after_ok)
    × (update parse none
          (record service { m_message_queue = ((1 ∷ []) ∷ []) ++ (2 ∷ []) ∷ (1 ∷ []) ∷ [] })
        ≡ thrown after_ok)
unfolding handle_messages handle_message handle_auth_message request_states send handle_result
update_lem_example =
    update_lem parse none ((1 ∷ []) ∷ []) ((1 ∷ []) ∷ []) (2 ∷ []) service after_ok after_ok refl
      refl
