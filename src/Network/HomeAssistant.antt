-- ===== src/Network/HomeAssistant.antt =====
-- `HomeAssistantService` of modules/network/a_HomeAssistant.hpp and a_HomeAssistant.cpp, with `send` of
-- modules/network/a_BoostWebsocketClient.cpp. The JSON library is a parameter: `parse` gives what the
-- code reads of a message, `none` for its parse error. An exception that leaves a function is `thrown`,
-- with the state at that point. The message id stays below the range of an int.
pub mod Frame
pub mod Ids
pub mod Update
pub mod Tests
use esp32_particulate_sensor.Prelude.{
  ℕ, ◌+◌, Bool, true, false, not, ◌||◌, Option, none, some, List, [], ◌∷◌, ◌++◌, if◌then◌else◌, ◌%◌,
  ◌^◌,
}
use esp32_particulate_sensor.Prelude.Strings.{Str, eq_str}

-- A member of a JSON object as a string: it may be missing, or of another type.
pub data Field : Type 0 where
  missing not_string : Field
  text : Str → Field

-- An element of the "result" array: its "entity_id" and its "state", if it is an object.
pub data Entity : Type 0 where
  not_object : Entity
  object : Field → Field → Entity

-- A message: its "type", and its "result" where that is an array.
pub record JsonMessage : Type 0 where
  pub type : Field
  pub result : Option (List Entity)

pub data Outgoing : Type 0 where
  auth : Str → Outgoing
  get_states : ℕ → Outgoing

-- The states that are logged.
pub data SensorState : Type 0 where
  pm1 pm2_5 pm10 : Str → SensorState

pub record HomeAssistantService : Type 0 where
  pub m_message_id : ℕ
  pub m_authenticated : Bool
  pub m_message_queue : List Str
  pub is_connected : Bool
  pub sent : List Outgoing
  pub logged : List SensorState

pub data Run : Type 0 where
  finished thrown : HomeAssistantService → Run

infixl 5 ◌>>=◌
abbrev pub ◌>>=◌ : Run → (HomeAssistantService → Run) → Run
finished s >>= f = f s
thrown s >>= f = thrown s

abbrev pub state : Run → HomeAssistantService
state (finished s) = s
state (thrown s) = s

-- `BoostWebsocketClient::send`: nothing is sent while there is no connection.
unfoldable pub send : HomeAssistantService → Outgoing → HomeAssistantService
send s m = if s.is_connected then record s { sent = s.sent ++ m ∷ [] } else s

-- The callback of the client.
unfoldable pub on_message_received : HomeAssistantService → Str → HomeAssistantService
on_message_received s message = record s { m_message_queue = s.m_message_queue ++ message ∷ [] }

-- "auth_required", "auth_ok", "auth_invalid" and "result"
abbrev pub auth_required : Str
auth_required = 97 ∷ 117 ∷ 116 ∷ 104 ∷ 95 ∷ 114 ∷ 101 ∷ 113 ∷ 117 ∷ 105 ∷ 114 ∷ 101 ∷ 100 ∷ []

abbrev pub auth_ok : Str
auth_ok = 97 ∷ 117 ∷ 116 ∷ 104 ∷ 95 ∷ 111 ∷ 107 ∷ []

abbrev pub auth_invalid : Str
auth_invalid = 97 ∷ 117 ∷ 116 ∷ 104 ∷ 95 ∷ 105 ∷ 110 ∷ 118 ∷ 97 ∷ 108 ∷ 105 ∷ 100 ∷ []

abbrev pub result_type : Str
result_type = 114 ∷ 101 ∷ 115 ∷ 117 ∷ 108 ∷ 116 ∷ []

-- "sensor.bmv080_bmv080_pm", and then "1", "2_5" or "10".
abbrev pub sensor_pm : Str
sensor_pm =
    115 ∷ 101 ∷ 110 ∷ 115 ∷ 111 ∷ 114 ∷ 46 ∷ 98 ∷ 109 ∷ 118 ∷ 48 ∷ 56 ∷ 48 ∷ 95 ∷ 98 ∷ 109 ∷ 118
    ∷ 48 ∷ 56 ∷ 48 ∷ 95 ∷ 112 ∷ 109 ∷ []

-- The branch of "auth_required"; `token` is what reading the secrets gives, `none` an exception.
unfoldable pub authenticate : Option Str → HomeAssistantService → Run
unfolding send
authenticate none s = thrown s
authenticate (some []) s = finished s
authenticate (some (b ∷ bs)) s = finished (send s (auth (b ∷ bs)))

-- The branch of "auth_ok"; m_MessageID is an i32, given as its 32 bits.
unfoldable pub request_states : HomeAssistantService → HomeAssistantService
unfolding send
request_states s =
    send (record s { m_authenticated = true; m_message_id = (s.m_message_id + 1) % 2 ^ 32 })
      (get_states s.m_message_id)

unfoldable pub handle_auth_message : Option Str → HomeAssistantService → Str → Run
unfolding authenticate request_states
handle_auth_message token s type =
    if eq_str type auth_required
    then authenticate token s
    else if eq_str type auth_ok
    then finished (request_states s)
    else if eq_str type auth_invalid
    then finished (record s { m_authenticated = false })
    else finished s

-- `entity.value(key, "")` on an object; `none` is its exception.
abbrev pub field_value : Field → Option Str
field_value missing = some []
field_value not_string = none
field_value (text s) = some s

unfoldable pub log_state : (Str → SensorState) → Option Str → HomeAssistantService → Run
log_state make none s = thrown s
log_state make (some value) s = finished (record s { logged = s.logged ++ make value ∷ [] })

-- One of the three tests in the loop over the entities.
unfoldable pub log_if : Str → (Str → SensorState) → Str → Field → HomeAssistantService → Run
unfolding log_state
log_if name make id value s =
    if eq_str id name then log_state make (field_value value) s else finished s

unfoldable pub log_entity : HomeAssistantService → Entity → Run
unfolding log_if
log_entity s not_object = thrown s
log_entity s (object id value) = elim (field_value id) [
  | none ↦ thrown s
  | some name ↦
      log_if (sensor_pm ++ 49 ∷ []) pm1 name value s
      >>= log_if (sensor_pm ++ 50 ∷ 95 ∷ 53 ∷ []) pm2_5 name value
      >>= log_if (sensor_pm ++ 49 ∷ 48 ∷ []) pm10 name value
]

unfoldable pub log_entities : HomeAssistantService → List Entity → Run
unfolding log_entity
log_entities s [] = finished s
log_entities s (e ∷ es) = log_entity s e >>= λ t. log_entities t es

-- What follows the handling of the type.
unfoldable pub handle_result : Option (List Entity) → Str → HomeAssistantService → Run
unfolding log_entities
handle_result none type s = finished s
handle_result (some entities) type s =
    if eq_str type result_type then log_entities s entities else finished s

module _ (parse : Str → Option JsonMessage) (token : Option Str) where
  unfoldable pub handle_message : HomeAssistantService → Str → Run
  unfolding handle_auth_message handle_result
  handle_message s message = elim (parse message) [
    | none ↦ finished s
    | some m ↦ elim m.type [
      | missing ↦ finished s
      | not_string ↦ thrown s
      | text type ↦ handle_auth_message token s type >>= handle_result m.result type
    ]
  ]

  -- The loop of `update`.
  unfoldable pub handle_messages : List Str → HomeAssistantService → Run
  unfolding handle_message
  handle_messages [] s = finished s
  handle_messages (m ∷ ms) s = handle_message s m >>= handle_messages ms

  unfoldable pub update : HomeAssistantService → Run
  unfolding handle_messages
  update s = handle_messages s.m_message_queue (record s { m_message_queue = [] })
