-- ===== src/Undo.antt =====
-- `UndoBuffer` of modules/editor/a_undo_buffer.hpp and a_undo_buffer.cpp, `CommandDispatcher` of
-- modules/editor/a_command_dispatcher.cpp, and the command types and jump table of
-- modules/definitions/generated_undo_commands.hpp and generated_dispatcher.inc. Bytes are numbers
-- below 256. `none` is an access out of range or a failed assertion.
pub mod Header
pub mod Stack
pub mod Refinement
pub mod Restore
pub mod Tests
use esp32_particulate_sensor.Prelude.{
  ℕ, zero, suc, ◌+◌, ◌-◌, ◌*◌, ◌/◌, ◌%◌, ◌^◌, Option, none, some, List, [], ◌∷◌, ◌++◌, map, ltb,
  leb, if◌then◌else◌, ◌>>=◌, length, get_elem?, back, pop_back, drop, take, resize, write,
}
use esp32_particulate_sensor.Ecs.Pool.{ComponentPool}
use esp32_particulate_sensor.Ecs.Registry.{ComponentRegistry, pool_of, put_pool}

pub data CommandType : Type 0 where
  update_tag update_transform : CommandType

-- The values of the enum and its COUNT.
unfoldable pub command_type_value : CommandType → ℕ
command_type_value update_tag = 0
command_type_value update_transform = 1

unfoldable pub command_type_count : ℕ
command_type_count = 2

-- The types that the queue knows.
unfoldable pub command_type_at : ℕ → Option CommandType
command_type_at zero = some update_tag
command_type_at (suc zero) = some update_transform
command_type_at (suc (suc n)) = none

pub record UndoBuffer : Type 0 where
  pub content : List ℕ
  pub command_offsets : List ℕ

unfoldable pub new_undo_buffer : UndoBuffer
new_undo_buffer = record { content = []; command_offsets = [] }

unfoldable pub max_undo_steps : ℕ
max_undo_steps = 50

-- `sizeof(CommandHeader)`: a u16, two bytes of padding, a u32.
unfoldable pub header_size : ℕ
header_size = 8

-- The bytes of a `CommandHeader`, little-endian, with the padding 0.
unfoldable pub header_bytes : CommandType → ℕ → List ℕ
unfolding command_type_value
header_bytes t size =
    command_type_value t % 256
    ∷ command_type_value t / 256 % 256
    ∷ 0
    ∷ 0
    ∷ size % 256
    ∷ size / 256 % 256
    ∷ size / 65536 % 256
    ∷ size / 16777216 % 256
    ∷ []

-- `header->type`, as the index that it is cast to.
unfoldable pub header_type : List ℕ → Option ℕ
header_type bytes = do low ← get_elem? bytes 0; high ← get_elem? bytes 1; some (low + 256 * high)

-- `header->dataSize`.
unfoldable pub header_data_size : List ℕ → Option ℕ
header_data_size bytes = do
  b0 ← get_elem? bytes 4
  b1 ← get_elem? bytes 5
  b2 ← get_elem? bytes 6
  b3 ← get_elem? bytes 7
  some (b0 + 256 * b1 + 65536 * b2 + 16777216 * b3)

unfoldable pub append_bytes : UndoBuffer → List ℕ → UndoBuffer
append_bytes b bytes = record b { content = b.content ++ bytes }

-- The end of the oldest command: the second offset, or the end of the data.
unfoldable pub first_command_size : UndoBuffer → ℕ
first_command_size b = elim (get_elem? b.command_offsets 1) [
  | none ↦ length b.content
  | some offset ↦ offset
]

unfoldable pub delete_command : UndoBuffer → UndoBuffer
unfolding first_command_size
delete_command b = elim (b.command_offsets) [
  | [] ↦ b
  | first ∷ rest ↦ record {
    content = drop (first_command_size b) b.content;
    command_offsets = map (λ offset. offset - first_command_size b) rest;
  }
]

-- `pushCommand`; the payload is the bytes of the struct behind `commandData`.
unfoldable pub push_command : UndoBuffer → CommandType → List ℕ → UndoBuffer
unfolding append_bytes delete_command
push_command b t payload =
    let c = if leb max_undo_steps (length b.command_offsets) then delete_command b else b in
    let marked = record c { command_offsets = c.command_offsets ++ length c.content ∷ [] } in
    append_bytes (append_bytes marked (header_bytes t (length payload % 2 ^ 32))) payload

-- `pool.get(entity) = value`
unfoldable pub assign : {C : Type 0} → ComponentPool C → ℕ → C → Option (ComponentPool C)
assign p entity value = do
  index ← get_elem? p.m_sparse entity
  m_data ← write p.m_data index value
  some (record p { m_data = m_data })

-- How the compiler lays out the payload structs is a parameter: `read_payload` gives the entity
-- and the old component of an UndoTagData or UndoTransformData that starts a list of bytes. `K`
-- stands for std::type_index.
module _ {K C : Type 0} (same_type : Discrete K) (pool_type : CommandType → K)
    (read_payload : CommandType → List ℕ → Option (ℕ × C)) where
  -- `undo_func_Tag` and `undo_func_Transform`: the old state is put back.
  unfoldable pub undo_func :
      CommandType → List ℕ → ComponentRegistry K C → Option (ComponentRegistry K C)
  unfolding assign
  undo_func t payload r = do
    (entity, old_state) ← read_payload t payload
    pool ← assign (pool_of same_type r (pool_type t)) entity old_state
    some (record r { m_pools = put_pool same_type (pool_type t) pool r.m_pools })

  unfoldable pub dispatch : List ℕ → ComponentRegistry K C → Option (ComponentRegistry K C)
  unfolding undo_func header_type command_type_at
  dispatch raw r = do
    index ← header_type raw
    t ← command_type_at index
    undo_func t (drop header_size raw) r

  unfoldable pub undo :
      UndoBuffer → ComponentRegistry K C → Option (UndoBuffer × ComponentRegistry K C)
  unfolding dispatch
  undo b r = elim (back b.command_offsets) [
    | none ↦ some (b, r)
    | some last_offset ↦ do
      after ← dispatch (drop last_offset b.content) r
      some (
        record {
          content = resize b.content last_offset 0;
          command_offsets = pop_back b.command_offsets;
        },
        after,
      )
  ]
