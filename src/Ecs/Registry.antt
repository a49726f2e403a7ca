-- ===== src/Ecs/Registry.antt =====
-- `ComponentRegistry` and `EntityHandle` of modules/core/a_registry.hpp. `K` stands for
-- std::type_index and `C` for the component types behind `IComponentPool`; the pools are the
-- unordered_map `m_Pools`, as an association list with one entry for each type.
pub mod Pools
pub mod Create
pub mod Filled
pub mod Destroy
pub mod Rebuild
use mathlib.Core.Logic.{ite}
use esp32_particulate_sensor.Prelude.{
  ℕ, ◌+◌, ◌-◌, ◌%◌, ◌^◌, Bool, true, false, Option, none, some, List, [], ◌∷◌, ◌++◌, if◌then◌else◌,
  ◌>>=◌, is_some,
}
use esp32_particulate_sensor.Prelude.Places.{find_index, contains, swap_pop}
use esp32_particulate_sensor.Ecs.Pool.{ComponentPool, empty, add, has, get, remove_entity}

-- `static_cast<Entity>(-1)` on uint32_t.
abbrev pub invalid_entity_id : ℕ
invalid_entity_id = 2 ^ 32 - 1

pub record ComponentRegistry (K C : Type 0) : Type 0 where
  pub m_active_entities : List ℕ
  pub m_pools : List (K × ComponentPool C)
  pub m_next_id : ℕ

-- The end of `destroyEntity`: std::find, and the last entity moved into the gap.
unfoldable pub deactivate : List ℕ → ℕ → List ℕ
deactivate active e = elim (find_index active e) [ none ↦ active | some i ↦ swap_pop active i ]

-- The unordered_set of `rebuildActiveEntities`. Its order of iteration is not specified; here it
-- is the order of insertion.
unfoldable pub insert_all : List ℕ → List ℕ → List ℕ
insert_all unique [] = unique
insert_all unique (e ∷ es) = insert_all (if contains unique e then unique else unique ++ e ∷ []) es

module _ {K C : Type 0} where
  unfoldable pub new_registry : ComponentRegistry K C
  new_registry = record { m_active_entities = []; m_pools = []; m_next_id = 0 }

  -- The entity is returned beside the new state. `m_NextID++` wraps at 32 bits.
  unfoldable pub create_entity : ComponentRegistry K C → ℕ × ComponentRegistry K C
  create_entity r = (
    r.m_next_id,
    record r {
      m_next_id = (r.m_next_id + 1) % 2 ^ 32;
      m_active_entities = r.m_active_entities ++ r.m_next_id ∷ [];
    },
  )

  unfoldable pub clear_registry : ComponentRegistry K C → ComponentRegistry K C
  clear_registry r = record r { m_active_entities = []; m_pools = []; m_next_id = 0 }

  -- `pool->removeEntity(entity)` over all pools.
  unfoldable pub remove_from_pools :
      List (K × ComponentPool C) → ℕ → Option (List (K × ComponentPool C))
  remove_from_pools [] e = some []
  remove_from_pools ((k, p) ∷ pools) e = do
    q ← remove_entity p e
    rest ← remove_from_pools pools e
    some ((k, q) ∷ rest)

  unfoldable pub destroy_entity : ComponentRegistry K C → ℕ → Option (ComponentRegistry K C)
  destroy_entity r e = do
    pools ← remove_from_pools r.m_pools e
    some (record r { m_pools = pools; m_active_entities = deactivate r.m_active_entities e })

  unfoldable pub unique_entities : List ℕ → List (K × ComponentPool C) → List ℕ
  unfolding insert_all
  unique_entities unique [] = unique
  unique_entities unique ((k, p) ∷ pools) = unique_entities (insert_all unique p.m_entities) pools

  unfoldable pub rebuild_active_entities : ComponentRegistry K C → ComponentRegistry K C
  rebuild_active_entities r = record r { m_active_entities = unique_entities [] r.m_pools }

  module _ (same_type : Discrete K) where
    unfoldable pub find_pool : K → List (K × ComponentPool C) → Option (ComponentPool C)
    find_pool k [] = none
    find_pool k ((j, p) ∷ pools) = ite (same_type j k) (some p) (find_pool k pools)

    unfoldable pub put_pool :
        K → ComponentPool C → List (K × ComponentPool C) → List (K × ComponentPool C)
    put_pool k p [] = (k, p) ∷ []
    put_pool k p ((j, q) ∷ pools) =
        ite (same_type j k) ((j, p) ∷ pools) ((j, q) ∷ put_pool k p pools)

    -- The pool that `getPool<T>()` refers to: a new one where the map has none.
    unfoldable pub pool_of : ComponentRegistry K C → K → ComponentPool C
    pool_of r k = elim (find_pool k r.m_pools) [ none ↦ empty | some p ↦ p ]

    -- `getPool<T>()` on the map: it makes a missing pool.
    unfoldable pub get_pool : ComponentRegistry K C → K → ComponentRegistry K C
    unfolding pool_of
    get_pool r k = record r { m_pools = put_pool k (pool_of r k) r.m_pools }

    unfoldable pub add_component : ComponentRegistry K C → K → ℕ → C → ComponentRegistry K C
    unfolding pool_of
    add_component r k e c = record r { m_pools = put_pool k (add (pool_of r k) e c) r.m_pools }

    unfoldable pub has_component : ComponentRegistry K C → K → ℕ → Bool
    has_component r k e = elim (find_pool k r.m_pools) [ none ↦ false | some p ↦ has p e ]

    -- `EntityHandle::get` and `EntityHandle::has` go through `getPool`, which may make a pool.
    unfoldable pub handle_get : ComponentRegistry K C → K → ℕ → Option C × ComponentRegistry K C
    unfolding pool_of
    handle_get r k e = (get (pool_of r k) e, get_pool r k)

    unfoldable pub handle_has : ComponentRegistry K C → K → ℕ → Bool × ComponentRegistry K C
    unfolding pool_of
    handle_has r k e = (has (pool_of r k) e, get_pool r k)
