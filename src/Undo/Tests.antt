-- ===== src/Undo/Tests.antt =====
-- Runs of the undo buffer of modules/editor/a_undo_buffer.cpp, and the theorems at small inputs.
-- Here a payload starts with the entity and the old component, one byte each.
use esp32_particulate_sensor.Prelude.{ℕ, ◌≡◌, refl, Option, none, some, List, [], ◌∷◌, ℕ_discrete}
use esp32_particulate_sensor.Ecs.Pool.{ComponentPool, empty, add, get}
use esp32_particulate_sensor.Ecs.Registry.{ComponentRegistry, find_pool, put_pool}
use esp32_particulate_sensor.Undo.{
  CommandType, update_tag, update_transform, push_command, undo, assign,
}
use esp32_particulate_sensor.Undo.Stack.{Command, represent, evict, push}
use esp32_particulate_sensor.Undo.Refinement.{push_command_lem}
use esp32_particulate_sensor.Undo.Restore.{undo-push_command}

abbrev pool_type : CommandType → ℕ
pool_type update_tag = 0
pool_type update_transform = 1

abbrev read_payload : CommandType → List ℕ → Option (ℕ × ℕ)
read_payload t (e ∷ old ∷ rest) = some (e, old)
read_payload t bytes = none

abbrev before : ComponentPool ℕ
before = add empty 2 5

abbrev after : ComponentPool ℕ
after = add empty 2 9

abbrev one_command : List Command
one_command = (update_tag, 0 ∷ 1 ∷ []) ∷ []

push_command_lem_example :
    push_command (represent one_command) update_transform (2 ∷ 5 ∷ [])
    ≡ represent (push one_command (update_transform, 2 ∷ 5 ∷ []))
push_command_lem_example = push_command_lem one_command update_transform (2 ∷ 5 ∷ [])

abbrev edited : ComponentRegistry ℕ ℕ
edited = record { m_active_entities = 2 ∷ []; m_pools = (1, after) ∷ []; m_next_id = 3 }

undo-push_command_example :
    undo ℕ_discrete pool_type read_payload
      (push_command (represent one_command) update_transform (2 ∷ 5 ∷ []))
      (record {
        m_active_entities = 2 ∷ [];
        m_pools = put_pool ℕ_discrete 1 after ((1, before) ∷ []);
        m_next_id = 3;
      })
    ≡ some (
      represent (evict one_command),
      record { m_active_entities = 2 ∷ []; m_pools = (1, before) ∷ []; m_next_id = 3 },
    )
unfolding find_pool get assign add empty ℕ_discrete
undo-push_command_example =
    undo-push_command ℕ_discrete pool_type read_payload one_command update_transform (2 ∷ 5 ∷ [])
      ((1, before) ∷ []) (2 ∷ []) 3 before after 2 9 5 refl refl refl refl
