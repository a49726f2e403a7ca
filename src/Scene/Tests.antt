-- ===== src/Scene/Tests.antt =====
-- A scene saved and loaded, modules/serialization/sceneSerializer.cpp: the theorem at a small one.
-- Floats are numbers here, and a mesh's name is the one byte of its id.
use esp32_particulate_sensor.Prelude.{
  ℕ, ◌≡◌, refl, Bool, true, false, Option, some, none, [], ◌∷◌, arith, ltb, map, map,
}
use mathlib.Core.Option.{some-injective}
use mathlib.Core.Path.{subst}
use esp32_particulate_sensor.Prelude.Strings.{Str, codes, all_bytes}
use esp32_particulate_sensor.Ecs.Pool.{ComponentPool, empty, add, has}
use esp32_particulate_sensor.Ecs.Pool.Invariant.{IsWellFormed, empty-IsWellFormed, add-IsWellFormed}
use esp32_particulate_sensor.Ecs.Registry.{ComponentRegistry, new_registry, find_pool}
use esp32_particulate_sensor.Ecs.Registry.Pools.{component}
use esp32_particulate_sensor.Scene.{
  ComponentType, ComponentType-discrete, transform, tag, mesh_renderer_type, device, is_loaded,
  Root,
}
use esp32_particulate_sensor.Scene.Saved.{KnownMeshes}
use esp32_particulate_sensor.Scene.Reload.{MeshesKnown}
use esp32_particulate_sensor.Scene.File.{save_file, load_file, all_dumped}
use esp32_particulate_sensor.Scene.RoundTrip.{NamesDumped}
use esp32_particulate_sensor.Scene.Json.{
  Json, null, Component, transform_of, tag_of, mesh_renderer_of, device_of, mesh_id, Vec3,
  from_json, to_json,
}
use esp32_particulate_sensor.Scene.Json.RoundTrip.{write, load-save}

abbrev name_of : ℕ → Str
name_of id = id ∷ []

abbrev find_mesh : Str → Option ℕ
find_mesh [] = none
find_mesh (b ∷ bs) = some b

-- ASCII.
abbrev dumps : Str → Bool
dumps s = all_bytes (λ b. ltb b 128) s

-- A text that loses nothing.
abbrev text : Json ℕ → Option (Json ℕ)
text j = some j

abbrev float_of : ℕ → ℕ
float_of n = n

abbrev pool : Component ℕ → ComponentPool (Component ℕ)
pool c = add empty 2 c

pool-IsWellFormed : (c : Component ℕ) → IsWellFormed (pool c)
unfolding empty has
pool-IsWellFormed c = add-IsWellFormed empty 2 c empty-IsWellFormed refl (omega arith)

abbrev ones : Vec3 ℕ
ones = record { x = 1; y = 1; z = 1 }

abbrev placed : Component ℕ
placed = transform_of ones (record { x = 0; y = 0; z = 0; w = 1 }) ones

abbrev Scene : Type 0
Scene = ComponentRegistry ComponentType (Component ℕ)

-- An entity with a transform, a tag, a mesh and a device.
abbrev scene : Scene
scene = record {
  m_active_entities = 2 ∷ [];
  m_pools =
      (transform, pool placed)
      ∷ (tag, pool (tag_of (codes "Lamp")))
      ∷ (mesh_renderer_type, pool (mesh_renderer_of 7))
      ∷ (device, pool (device_of null))
      ∷ [];
  m_next_id = 3;
}

meshes_known : MeshesKnown mesh_id name_of mesh_renderer_of find_mesh scene
unfolding find_pool ComponentType-discrete add empty
meshes_known p h =
    subst (λ q. KnownMeshes mesh_id name_of mesh_renderer_of find_mesh q.m_data)
      (some-injective (pool (mesh_renderer_of 7)) p h) (refl, refl, tt)

names_dumped :
    NamesDumped
      (write float_of text)
      (from_json float_of)
      dumps
      mesh_id
      name_of
      mesh_renderer_of
      find_mesh
      scene
unfolding find_pool ComponentType-discrete add empty
names_dumped p h =
    subst (λ q. all_dumped dumps (map (λ c. name_of (mesh_id c)) q.m_data) ≡ true)
      (some-injective (pool (mesh_renderer_of 7)) p h) refl

load-save_example :
    (file : Root (Json ℕ)) × (s : Scene) × (save_file
        (write float_of text)
        dumps
        mesh_id
        name_of
        scene
      ≡ some file)
    × (load_file (from_json float_of) mesh_renderer_of find_mesh file new_registry ≡ some s)
    × ((k : ComponentType) (e : ℕ)
        → is_loaded k ≡ true
        → component ComponentType-discrete s k e ≡ component ComponentType-discrete scene k e)
    × ((k : ComponentType) (e : ℕ)
        → is_loaded k ≡ false
        → component ComponentType-discrete s k e ≡ none)
unfolding add empty to_json
load-save_example =
    load-save float_of text dumps name_of find_mesh scene new_registry
      (
        pool-IsWellFormed placed,
        (
          pool-IsWellFormed (tag_of (codes "Lamp")),
          (pool-IsWellFormed (mesh_renderer_of 7), (pool-IsWellFormed (device_of null), tt)),
        ),
      )
      meshes_known
      (
        λ plain. (refl, refl, tt),
        (λ plain. (refl, refl, tt), (λ plain. cc, (λ plain. (refl, refl, tt), tt))),
      )
      names_dumped
