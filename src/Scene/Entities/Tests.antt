-- ===== src/Scene/Entities/Tests.antt =====
-- `addEntity` on small registries.
use esp32_particulate_sensor.Prelude.{
  ℕ, zero, suc, ◌≡◌, refl, true, false, none, some, Option, [], ◌∷◌, arith,
}
use esp32_particulate_sensor.Prelude.Strings.{codes}
use esp32_particulate_sensor.Ecs.Pool.{empty}
use esp32_particulate_sensor.Ecs.Registry.{
  ComponentRegistry, new_registry, find_pool, pool_of, add_component, create_entity,
}
use esp32_particulate_sensor.Ecs.Registry.Create.{new_registry-IsValid}
use esp32_particulate_sensor.Scene.{ComponentType}
use esp32_particulate_sensor.Scene.Entities.{Components, add_entity}
use esp32_particulate_sensor.Scene.Entities.Added.{IsAdded, add_entity_lem}

abbrev make : Components ℕ
make = record { mesh_renderer = λ i. i; material_named = λ n. 100; tag_named = λ n. 200 }

abbrev one_mesh : ℕ → Option ℕ
one_mesh zero = some 7
one_mesh (suc i) = none

abbrev Scene : Type 0
Scene = ComponentRegistry ComponentType ℕ

abbrev start : Scene
start = new_registry

add_entity_lem_example :
    let (returned, s) = add_entity make one_mesh 0 (codes "lamp") 9 start in
    (returned ≡ true) × IsAdded make one_mesh 0 (codes "lamp") 9 start s
unfolding new_registry pool_of find_pool empty
add_entity_lem_example =
    add_entity_lem make one_mesh 0 (codes "lamp") 9 start new_registry-IsValid (omega arith)
      (λ k. omega arith)

-- Without a mesh the exception leaves an active entity.
no_mesh :
    let (returned, s) = add_entity make (λ i. none) 0 (codes "lamp") 9 start in
    (returned ≡ false) × (s.m_active_entities ≡ 0 ∷ [])
unfolding add_entity new_registry add_component create_entity
no_mesh = (refl, refl)
