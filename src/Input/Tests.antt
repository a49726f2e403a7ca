-- ===== src/Input/Tests.antt =====
-- Runs of modules/input/input_manager.cpp, and the theorem at one of them.
use esp32_particulate_sensor.Prelude.{ℕ, ◌≡◌, refl, true, false, some, List, [], ◌∷◌, length}
use esp32_particulate_sensor.Input.{
  InputSystem, SdlEvent, key_down, key_up, mouse_motion, new_input_system, update_events,
  is_key_held, key_count, key_a, sdl_key_to_andromeda,
}
use esp32_particulate_sensor.Input.Held.{after_events, update_events_lem}

-- A scancode of 260, which is above the u8 of the codes, with a virtual key that is no letter is taken
-- for the key A.
high_scancode : sdl_key_to_andromeda 260 0 ≡ key_a
unfolding sdl_key_to_andromeda
high_scancode = refl

-- 'w' is pressed, the mouse moves, 'w' is released, and 'a' is pressed twice.
abbrev events : List (SdlEvent ℕ)
events =
    key_down 26 119 false
    ∷ mouse_motion 5
    ∷ key_up 26 119
    ∷ key_down 4 97 false
    ∷ key_down 4 97 true
    ∷ []

abbrev start : InputSystem ℕ
start = new_input_system

update_events_lem_example :
    (t : InputSystem ℕ) × (update_events start events ≡ some t)
    × (length t.s_key_states ≡ key_count)
    × ((k : ℕ) → is_key_held t k ≡ after_events events k (is_key_held start k))
unfolding new_input_system
update_events_lem_example = update_events_lem start events refl
