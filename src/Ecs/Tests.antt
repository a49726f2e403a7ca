-- ===== src/Ecs/Tests.antt =====
-- Runs of the pools and the registry of modules/core/a_registry.hpp on small inputs, and the
-- theorems at such inputs.
use esp32_particulate_sensor.Prelude.{
  ℕ, zero, suc, ◌≡◌, refl, false, some, none, [], ◌∷◌, arith, ℕ_discrete, ◌==◌, if◌then◌else◌,
}
use esp32_particulate_sensor.Ecs.Registry.{
  ComponentRegistry, new_registry, create_entity, add_component, has_component, pool_of, find_pool,
  put_pool, destroy_entity,
}
use esp32_particulate_sensor.Ecs.Registry.Pools.{component, add_component_lem}
use esp32_particulate_sensor.Ecs.Registry.Create.{IsValid, new_registry-IsValid, create_entity_lem}
use esp32_particulate_sensor.Ecs.Registry.Destroy.{destroy_entity_lem}
use esp32_particulate_sensor.Prelude.Places.{Distinct, contains}
use esp32_particulate_sensor.Ecs.Pool.{
  ComponentPool, SerializedPool, empty, add, has, get, remove_entity,
}
use esp32_particulate_sensor.Ecs.Pool.Invariant.{IsWellFormed, empty-IsWellFormed, add-IsWellFormed}
use esp32_particulate_sensor.Ecs.Pool.Remove.{remove_entity_lem}

abbrev one : ComponentPool ℕ
one = add empty 3 70

abbrev two : ComponentPool ℕ
two = add one 1 90

one-IsWellFormed : IsWellFormed one
unfolding empty has
one-IsWellFormed = add-IsWellFormed empty 3 70 empty-IsWellFormed refl (omega arith)

two-IsWellFormed : IsWellFormed two
unfolding empty add has
two-IsWellFormed = add-IsWellFormed one 1 90 one-IsWellFormed refl (omega arith)

swap_and_pop_run :
    remove_entity two 3
    ≡ some (record {
      m_data = 90 ∷ [];
      m_entities = 1 ∷ [];
      m_sparse = 0xffff_ffff_ffff_ffff ∷ 0 ∷ 0xffff_ffff_ffff_ffff ∷ 0xffff_ffff_ffff_ffff ∷ [];
    })
unfolding remove_entity add empty
swap_and_pop_run = refl

remove_entity_lem_example :
    (q : ComponentPool ℕ) × (remove_entity two 3 ≡ some q)
    × IsWellFormed q
    × ((j : ℕ) → get q j ≡ (if 3 == j then none else get two j))
remove_entity_lem_example = remove_entity_lem two 3 two-IsWellFormed

abbrev saved : SerializedPool ℕ
saved = record { entities = 4 ∷ 2 ∷ []; components = 10 ∷ 20 ∷ [] }

saved-Distinct : Distinct (4 ∷ 2 ∷ [])
saved-Distinct zero zero e p q = refl
saved-Distinct zero (suc zero) e p q = ground arith
saved-Distinct (suc zero) zero e p q = ground arith
saved-Distinct (suc zero) (suc zero) e p q = refl
saved-Distinct zero (suc (suc k)) e p q = ground arith
saved-Distinct (suc zero) (suc (suc k)) e p q = ground arith
saved-Distinct (suc (suc i)) k e p q = ground arith

abbrev Scene : Type 0
Scene = ComponentRegistry ℕ ℕ

abbrev with_entity : Scene
with_entity = (create_entity new_registry).1

with_entity-IsValid : IsValid with_entity
unfolding new_registry
with_entity-IsValid = (create_entity_lem new_registry new_registry-IsValid (omega arith)).1

abbrev with_component : Scene
with_component = add_component ℕ_discrete with_entity 8 0 55

with_component-IsValid : IsValid with_component
unfolding create_entity new_registry add_component pool_of find_pool put_pool add empty has
    has_component
with_component-IsValid = record {
  pools = (add_component_lem ℕ_discrete with_entity 8 0 55 tt refl (omega arith)).0;
  distinct = with_entity-IsValid.distinct;
  active_below = with_entity-IsValid.active_below;
  pools_below = (λ i e h. ground arith, tt);
}

destroy_entity_lem_example :
    (s : Scene) × (destroy_entity with_component 0 ≡ some s)
    × IsValid s
    × ((j : ℕ)
        → contains s.m_active_entities j
          ≡ (if 0 == j then false else contains (with_component.m_active_entities) j))
    × ((k : ℕ) (j : ℕ)
        → component ℕ_discrete s k j
          ≡ (if 0 == j then none else component ℕ_discrete with_component k j))
destroy_entity_lem_example = destroy_entity_lem ℕ_discrete with_component 0 with_component-IsValid
