-- ===== src/Input.antt =====
-- `InputSystem` of modules/input/input_manager.hpp and input_manager.cpp, and the codes of
-- modules/definitions/Engine/a_Keycodes.hpp. SDL's scancodes, virtual keys and buttons are numbers;
-- `M` is what a mouse motion carries. `none` is an access out of range.
pub mod Held
pub mod Tests
use esp32_particulate_sensor.Prelude.{
  ℕ, ◌+◌, ◌-◌, ◌%◌, ◌^◌, Bool, true, false, ◌&&◌, Option, none, some, List, [], ◌∷◌, ◌++◌, ltb, leb,
  ◌==◌, if◌then◌else◌, ◌>>=◌, get_elem?, write, replicate,
}

-- The values of `Keycode`, a u8, that the code names.
abbrev pub unknown_key : ℕ
unknown_key = 0

abbrev pub key_a : ℕ
key_a = 4

abbrev pub key_count : ℕ
key_count = 231

pub data MouseCode : Type 0 where
  unknown_button mouse_btn_left mouse_btn_right mouse_btn_wheel : MouseCode

-- What the code reads of an SDL event.
pub data SdlEvent (M : Type 0) : Type 0 where
  key_down : ℕ → ℕ → Bool → SdlEvent M
  key_up : ℕ → ℕ → SdlEvent M
  mouse_button_down mouse_button_up : ℕ → SdlEvent M
  mouse_motion : M → SdlEvent M
  other_event : SdlEvent M

-- A call of the event manager's `Dispatch`.
pub data Dispatched (M : Type 0) : Type 0 where
  on_key_down on_key_up : ℕ → Dispatched M
  on_mouse_btn_down on_mouse_btn_up : MouseCode → Dispatched M
  on_mouse_moved : M → Dispatched M

pub record InputSystem (M : Type 0) : Type 0 where
  pub s_key_states : List Bool
  pub dispatched : List (Dispatched M)

-- The code of a key event before its range is tested, from its scancode and its virtual key: a letter
-- of either case by its place in the alphabet, any other key by its scancode, cut to a u8.
abbrev pub key_code : ℕ → ℕ → ℕ
key_code scancode key =
    if leb 97 key && leb key 122
    then (key - 97 + key_a) % 256
    else if leb 65 key && leb key 90
    then (key - 65 + key_a) % 256
    else scancode % 256

unfoldable pub sdl_key_to_andromeda : ℕ → ℕ → ℕ
sdl_key_to_andromeda scancode key =
    if ltb (key_code scancode key) key_count then key_code scancode key else unknown_key

-- SDL_BUTTON_LEFT, SDL_BUTTON_MIDDLE and SDL_BUTTON_RIGHT are 1, 2 and 3.
unfoldable pub sdl_mouse_btn_to_andromeda : ℕ → MouseCode
sdl_mouse_btn_to_andromeda button =
    if button == 1
    then mouse_btn_left
    else if button == 3
    then mouse_btn_right
    else if button == 2
    then mouse_btn_wheel
    else unknown_button

module _ {M : Type 0} where
  unfoldable pub new_input_system : InputSystem M
  new_input_system = record { s_key_states = replicate key_count false; dispatched = [] }

  unfoldable pub dispatch : InputSystem M → Dispatched M → InputSystem M
  dispatch s d = record s { dispatched = s.dispatched ++ d ∷ [] }

  unfoldable pub set_key : InputSystem M → ℕ → Bool → Option (InputSystem M)
  set_key s code held =
      write s.s_key_states code held >>= λ states. some (record s { s_key_states = states })

  unfoldable pub update_event : InputSystem M → SdlEvent M → Option (InputSystem M)
  unfolding dispatch set_key sdl_key_to_andromeda sdl_mouse_btn_to_andromeda
  update_event s (key_down scancode key repeat) =
      let code = sdl_key_to_andromeda scancode key in
      set_key s code true >>= λ t. some (if repeat then t else dispatch t (on_key_down code))
  update_event s (key_up scancode key) =
      let code = sdl_key_to_andromeda scancode key in
      set_key s code false >>= λ t. some (dispatch t (on_key_up code))
  update_event s (mouse_button_down button) =
      some (dispatch s (on_mouse_btn_down (sdl_mouse_btn_to_andromeda button)))
  update_event s (mouse_button_up button) =
      some (dispatch s (on_mouse_btn_up (sdl_mouse_btn_to_andromeda button)))
  update_event s (mouse_motion m) = some (dispatch s (on_mouse_moved m))
  update_event s other_event = some s

  -- `updateEvent` on one event after the other.
  unfoldable pub update_events : InputSystem M → List (SdlEvent M) → Option (InputSystem M)
  unfolding update_event
  update_events s [] = some s
  update_events s (e ∷ es) = update_event s e >>= λ t. update_events t es

  unfoldable pub is_key_held : InputSystem M → ℕ → Option Bool
  is_key_held s key = get_elem? s.s_key_states key
