-- ===== src/Ecs/Pool.antt =====
-- `ComponentPool` of modules/core/a_registry.hpp: a sparse set. `none` is an access out of the
-- bounds of a vector, or a failed assertion. Entities are u32, indices size_t.
pub mod Invariant
pub mod Remove
pub mod Lookup
pub mod Replace
pub mod Serialize
use esp32_particulate_sensor.Prelude.{
  ℕ, ◌+◌, ◌-◌, ◌^◌, Bool, true, false, not, ◌&&◌, ◌||◌, Option, none, some, List, [], ◌∷◌, ◌++◌,
  ltb, leb, ◌==◌, if◌then◌else◌, ◌>>=◌, length, get_elem?, get_or, resize, write, pop_back, set,
}

-- `std::numeric_limits<size_t>::max()`
abbrev pub invalid_index : ℕ
invalid_index = 2 ^ 64 - 1

pub record ComponentPool {ℓ} (T : Type ℓ) : Type ℓ where
  pub m_data : List T
  pub m_entities : List ℕ
  pub m_sparse : List ℕ

-- What `serializePool` puts into the JSON object, under its two keys.
pub record SerializedPool {ℓ} (T : Type ℓ) : Type ℓ where
  pub entities : List ℕ
  pub components : List T

-- The growth of the sparse array in `add`.
abbrev pub grow : List ℕ → ℕ → List ℕ
grow sparse entity =
    if leb (length sparse) entity then resize sparse (entity + 1) invalid_index else sparse

module _ {ℓ} {T : Type ℓ} where
  unfoldable pub empty : ComponentPool T
  empty = record { m_data = []; m_entities = []; m_sparse = [] }

  unfoldable pub add : ComponentPool T → ℕ → T → ComponentPool T
  add p entity component = record {
    m_sparse = set (grow p.m_sparse entity) entity (length p.m_data);
    m_entities = p.m_entities ++ entity ∷ [];
    m_data = p.m_data ++ component ∷ [];
  }

  unfoldable pub has : ComponentPool T → ℕ → Bool
  has p entity =
      ltb entity (length p.m_sparse)
      && not (get_or p.m_sparse entity invalid_index == invalid_index)

  unfoldable pub get : ComponentPool T → ℕ → Option T
  get p entity = do index ← get_elem? p.m_sparse entity; get_elem? p.m_data index

  -- The writes of `removeEntity`, once the last component and its entity are read.
  swap_and_pop : ComponentPool T → ℕ → ℕ → T → ℕ → Option (ComponentPool T)
  swap_and_pop p entity index_to_remove last_component last_entity = do
    m_data ← write p.m_data index_to_remove last_component
    m_entities ← write p.m_entities index_to_remove last_entity
    moved ← write p.m_sparse last_entity index_to_remove
    m_sparse ← write moved entity invalid_index
    some
        (record { m_data = pop_back m_data; m_entities = pop_back m_entities; m_sparse = m_sparse })

  unfoldable pub remove_entity : ComponentPool T → ℕ → Option (ComponentPool T)
  unfolding swap_and_pop
  remove_entity p entity =
      if leb (length p.m_sparse) entity || get_or p.m_sparse entity invalid_index == invalid_index
      then some p
      else do
        let last_index = length p.m_data - 1
        last_entity ← get_elem? p.m_entities last_index
        last_component ← get_elem? p.m_data last_index
        swap_and_pop p entity (get_or p.m_sparse entity invalid_index) last_component last_entity

  unfoldable pub serialize_pool : ComponentPool T → SerializedPool T
  serialize_pool p = record { entities = p.m_entities; components = p.m_data }

-- The largest entity, 0 for none: the first loop of `deserializePool`.
abbrev pub max_entity : ℕ → List ℕ → ℕ
max_entity m [] = m
max_entity m (e ∷ es) = max_entity (if ltb m e then e else m) es

-- The second loop: entity number `i` is sent to `i`.
abbrev pub index_entities : List ℕ → ℕ → List ℕ → List ℕ
index_entities sparse i [] = sparse
index_entities sparse i (e ∷ es) = index_entities (set sparse e i) (i + 1) es

abbrev rebuild_sparse : List ℕ → List ℕ
rebuild_sparse [] = []
rebuild_sparse (e ∷ es) =
    index_entities (resize [] (max_entity 0 (e ∷ es) + 1) invalid_index) 0 (e ∷ es)

unfoldable pub deserialize_pool {ℓ} : {T : Type ℓ} → SerializedPool T → ComponentPool T
deserialize_pool j = record {
  m_entities = j.entities;
  m_data = j.components;
  m_sparse = rebuild_sparse j.entities;
}
