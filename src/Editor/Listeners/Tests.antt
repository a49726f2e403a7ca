-- ===== src/Editor/Listeners/Tests.antt =====
-- The listeners of modules/editor/editor.cpp on an entity with one transform. Here a payload is the
-- entity and the transform, one byte each.
use esp32_particulate_sensor.Prelude.{
  ℕ, ◌≡◌, ◌++◌, refl, true, false, Option, none, some, List, [], ◌∷◌, arith, replicate,
}
use esp32_particulate_sensor.Events.{
  EventType-discrete, EventManager, new_manager, listeners_of, on_push_undo_transform,
  on_mouse_moved, on_key_down, on_scene_object_selected, add_event_listener,
}
use esp32_particulate_sensor.Ecs.Pool.{ComponentPool, empty, add, get}
use esp32_particulate_sensor.Ecs.Registry.{ComponentRegistry, find_pool, put_pool}
use esp32_particulate_sensor.Input.{InputSystem, is_key_held}
use esp32_particulate_sensor.Scene.{ComponentType, transform, ComponentType-discrete}
use esp32_particulate_sensor.Undo.{CommandType, update_transform, push_command, assign}
use esp32_particulate_sensor.Undo.Stack.{evict, represent}
use esp32_particulate_sensor.Editor.Listeners.{
  Callback, elsewhere, push_undo_event, key_event, key_z, start, stop, deliver, is_ctrl_down,
}
use esp32_particulate_sensor.Editor.Listeners.Life.{stale, stop-start}
use esp32_particulate_sensor.Editor.Listeners.Edits.{undo_edit}

abbrev payload : ℕ → ℕ → List ℕ
payload e c = e ∷ c ∷ []

abbrev read_payload : CommandType → List ℕ → Option (ℕ × ℕ)
read_payload t (e ∷ c ∷ rest) = some (e, c)
read_payload t bytes = none

abbrev ctrl_held : InputSystem ℕ
ctrl_held = record {
  s_key_states = replicate 224 false ++ (true ∷ replicate 6 false);
  dispatched = [];
}

abbrev before : ComponentPool ℕ
before = add empty 0 5

abbrev after : ComponentPool ℕ
after = add empty 0 9

abbrev scene : ComponentPool ℕ → ComponentRegistry ComponentType ℕ
scene p = record { m_active_entities = 0 ∷ []; m_pools = (transform, p) ∷ []; m_next_id = 1 }

-- The editor, and a listener of another part.
abbrev started : EventManager Callback
started = (add_event_listener (start new_manager).1 on_scene_object_selected (elsewhere 4)).1

undo_edit_example :
    let run = deliver {A = ℕ} {R = ℕ} (λ c. false) (λ r c. c) payload read_payload ctrl_held in
    let pushed = push_command (represent []) update_transform (payload 0 5) in
    (m : EventManager Callback) × (n : EventManager Callback) × (run on_push_undo_transform
        (push_undo_event 0 (some 5))
        started
        (record { camera = 3; undo_buffer = represent []; registry = scene before })
      ≡ some (m, record { camera = 3; undo_buffer = pushed; registry = scene before }))
    × (run on_key_down (key_event key_z) m (record {
      camera = 3;
      undo_buffer = pushed;
      registry = record (scene before) {
        m_pools = put_pool ComponentType-discrete transform after ((transform, before) ∷ []);
      };
    })
        ≡ some
            (n, record { camera = 3; undo_buffer = represent (evict []); registry = scene before }))
unfolding start new_manager add_event_listener EventType-discrete is_ctrl_down is_key_held find_pool
    get assign add empty ComponentType-discrete
undo_edit_example =
    undo_edit (λ c. false) (λ r c. c) payload read_payload ctrl_held started 1 2 3 []
      ((transform, before) ∷ []) (0 ∷ []) 1 before after 0 9 5 (refl, refl) refl refl refl refl refl

stop-start_example :
    let (ids, running) = start new_manager in
    listeners_of ((stop ids running).m_events on_mouse_moved) ≡ stale 0 on_mouse_moved
unfolding new_manager
stop-start_example = stop-start new_manager refl (λ t. tt) (omega arith) on_mouse_moved
