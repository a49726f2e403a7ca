-- ===== src/Network/HomeAssistant/Frame.antt =====
-- What the handling of messages in modules/network/a_HomeAssistant.cpp keeps: any property that
-- logging keeps and that sending the token, requesting the states and losing the authentication lead
-- on, each at most once for a message. The number counts the messages that are still allowed.
use esp32_particulate_sensor.Prelude.{
  ℕ, zero, suc, length, Bool, true, false, Option, none, some, List, [], ◌∷◌, ◌++◌, if◌then◌else◌,
}
use esp32_particulate_sensor.Prelude.Strings.{Str, eq_str}
use esp32_particulate_sensor.Network.HomeAssistant.{
  Field, missing, not_string, text, Entity, not_object, object, JsonMessage, auth, SensorState, pm1,
  pm2_5, pm10, HomeAssistantService, Run, finished, thrown, ◌>>=◌, state, send, auth_required,
  auth_ok, auth_invalid, result_type, sensor_pm, authenticate, request_states, handle_auth_message,
  field_value, log_state, log_if, log_entity, log_entities, handle_result, handle_message,
  handle_messages,
}

module _ (P : HomeAssistantService → Type 0) where
  -- A property that both parts of a sequence keep.
  pub state-bind :
      (m : Run) (f : HomeAssistantService → Run)
      → P (state m)
      → ((t : HomeAssistantService) → P t → P (state (f t)))
      → P (state (m >>= f))
  state-bind (finished s) f h g = g s h
  state-bind (thrown s) f h g = h

  state-if : (b : Bool) (x y : Run) → P (state x) → P (state y) → P (state (if b then x else y))
  state-if true x y h g = h
  state-if false x y h g = g

  module _
      (on_log : (s : HomeAssistantService) (l : List SensorState)
        → P s
        → P (record s { logged = l })) where
    log_if-keeps :
        (name : Str) (make : Str → SensorState) (id : Str) (value : Field)
        (s : HomeAssistantService)
        → P s
        → P (state (log_if name make id value s))
    unfolding log_if log_state
    log_if-keeps name make id value s h =
        state-if (eq_str id name) (log_state make (field_value value) s) (finished s)
          (made (field_value value)) h
      where
        made : (o : Option Str) → P (state (log_state make o s))
        made none = h
        made (some v) = on_log s (s.logged ++ make v ∷ []) h

    log_entity-keeps : (s : HomeAssistantService) (e : Entity) → P s → P (state (log_entity s e))
    unfolding log_entity
    log_entity-keeps s not_object h = h
    log_entity-keeps s (object id value) h = named (field_value id)
      where
        named :
            (o : Option Str)
            → P (
                state (elim o [
                  | none ↦ thrown s
                  | some name ↦
                      log_if (sensor_pm ++ 49 ∷ []) pm1 name value s
                      >>= log_if (sensor_pm ++ 50 ∷ 95 ∷ 53 ∷ []) pm2_5 name value
                      >>= log_if (sensor_pm ++ 49 ∷ 48 ∷ []) pm10 name value
                ]))
        named none = h
        named (some name) =
            state-bind
              (log_if (sensor_pm ++ 49 ∷ []) pm1 name value s
                >>= log_if (sensor_pm ++ 50 ∷ 95 ∷ 53 ∷ []) pm2_5 name value)
              (log_if (sensor_pm ++ 49 ∷ 48 ∷ []) pm10 name value)
              (state-bind (log_if (sensor_pm ++ 49 ∷ []) pm1 name value s)
                (log_if (sensor_pm ++ 50 ∷ 95 ∷ 53 ∷ []) pm2_5 name value)
                (log_if-keeps (sensor_pm ++ 49 ∷ []) pm1 name value s h)
                (log_if-keeps (sensor_pm ++ 50 ∷ 95 ∷ 53 ∷ []) pm2_5 name value))
              (log_if-keeps (sensor_pm ++ 49 ∷ 48 ∷ []) pm10 name value)

    log_entities-keeps :
        (es : List Entity) (s : HomeAssistantService) → P s → P (state (log_entities s es))
    unfolding log_entities
    log_entities-keeps [] s h = h
    log_entities-keeps (e ∷ es) s h =
        state-bind (log_entity s e) (λ t. log_entities t es) (log_entity-keeps s e h)
          (log_entities-keeps es)

    handle_result-keeps :
        (result : Option (List Entity)) (type : Str) (s : HomeAssistantService)
        → P s
        → P (state (handle_result result type s))
    unfolding handle_result
    handle_result-keeps none type s h = h
    handle_result-keeps (some es) type s h =
        state-if (eq_str type result_type) (log_entities s es) (finished s)
          (log_entities-keeps es s h) h

module _ (P : ℕ → HomeAssistantService → Type 0)
    (on_less : (n : ℕ) (s : HomeAssistantService) → P (suc n) s → P n s)
    (on_log : (n : ℕ) (s : HomeAssistantService) (l : List SensorState)
      → P n s
      → P n (record s { logged = l }))
    (on_auth : (n : ℕ) (s : HomeAssistantService) (t : Str) → P (suc n) s → P n (send s (auth t)))
    (on_request : (n : ℕ) (s : HomeAssistantService) → P (suc n) s → P n (request_states s))
    (on_invalid : (n : ℕ) (s : HomeAssistantService)
      → P (suc n) s
      → P n (record s { m_authenticated = false })) where
  handle_auth_message-keeps :
      (n : ℕ) (token : Option Str) (s : HomeAssistantService) (type : Str)
      → P (suc n) s
      → P n (state (handle_auth_message token s type))
  unfolding handle_auth_message authenticate
  handle_auth_message-keeps n token s type h =
      state-if (P n) (eq_str type auth_required) (authenticate token s) _ (asked token) (
        state-if (P n) (eq_str type auth_ok) (finished (request_states s)) _ (on_request n s h) (
          state-if (P n) (eq_str type auth_invalid)
            (finished (record s { m_authenticated = false })) (finished s) (on_invalid n s h)
            (on_less n s h)))
    where
      asked : (o : Option Str) → P n (state (authenticate o s))
      asked none = on_less n s h
      asked (some []) = on_less n s h
      asked (some (b ∷ bs)) = on_auth n s (b ∷ bs) h

  module _ (parse : Str → Option JsonMessage) (token : Option Str) where
    handle_message-keeps :
        (n : ℕ) (s : HomeAssistantService) (message : Str)
        → P (suc n) s
        → P n (state (handle_message parse token s message))
    unfolding handle_message
    handle_message-keeps n s message h = parsed (parse message)
      where
        typed :
            (r : Option (List Entity)) (f : Field)
            → P n (
                state (elim f [
                  | missing ↦ finished s
                  | not_string ↦ thrown s
                  | text type ↦ handle_auth_message token s type >>= handle_result r type
                ]))
        typed r missing = on_less n s h
        typed r not_string = on_less n s h
        typed r (text type) =
            state-bind (P n) (handle_auth_message token s type) (handle_result r type)
              (handle_auth_message-keeps n token s type h)
              (handle_result-keeps (P n) (on_log n) r type)

        parsed :
            (o : Option JsonMessage)
            → P n (
                state (elim o [
                  | none ↦ finished s
                  | some m ↦ elim m.type [
                    | missing ↦ finished s
                    | not_string ↦ thrown s
                    | text type ↦ handle_auth_message token s type >>= handle_result m.result type
                  ]
                ]))
        parsed none = on_less n s h
        parsed (some m) = typed m.result m.type

    down_to_0 : (n : ℕ) (s : HomeAssistantService) → P n s → P 0 s
    down_to_0 zero s h = h
    down_to_0 (suc n) s h = down_to_0 n s (on_less n s h)

    bind-0 :
        (n : ℕ) (m : Run) (f : HomeAssistantService → Run)
        → P n (state m)
        → ((t : HomeAssistantService) → P n t → P 0 (state (f t)))
        → P 0 (state (m >>= f))
    bind-0 n (finished s) f h g = g s h
    bind-0 n (thrown s) f h g = down_to_0 n s h

    pub handle_messages-keeps :
        (ms : List Str) (s : HomeAssistantService)
        → P (length ms) s
        → P 0 (state (handle_messages parse token ms s))
    unfolding handle_messages
    handle_messages-keeps [] s h = h
    handle_messages-keeps (m ∷ ms) s h =
        bind-0 (length ms) (handle_message parse token s m) (handle_messages parse token ms)
          (handle_message-keeps (length ms) s m h) (handle_messages-keeps ms)
