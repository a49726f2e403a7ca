-- ===== src/Scene/Json/RoundTrip.antt =====
-- A scene saved as JSON and loaded: modules/serialization/sceneSerializer.cpp with the conversions of
-- definitions/ECS/a_component_parser.hpp.
use mathlib.Core.Path.{subst}
use esp32_particulate_sensor.Prelude.{
  ℕ, ◌≡◌, refl, Bool, true, false, Option, some, List, [], ◌∷◌, none,
}
use esp32_particulate_sensor.Prelude.Strings.{Str}
use esp32_particulate_sensor.Ecs.Pool.{ComponentPool}
use esp32_particulate_sensor.Ecs.Registry.{ComponentRegistry}
use esp32_particulate_sensor.Ecs.Registry.Pools.{PoolsWellFormed, component}
use esp32_particulate_sensor.Scene.{
  ComponentType, ComponentType-discrete, is_loaded, is_mesh_renderer, Root,
}
use esp32_particulate_sensor.Scene.Reload.{MeshesKnown}
use esp32_particulate_sensor.Scene.File.{save_file, load_file}
use esp32_particulate_sensor.Scene.RoundTrip.{
  AllSurvive, PoolsSurvive, NamesDumped, load_file-save_file,
}
use esp32_particulate_sensor.Scene.Json.{
  Json, Component, transform_of, aabb_of, tag_of, material_of, mesh_renderer_of, device_of,
  particle_system_of, type_of, mesh_id, to_json, from_json, json_of_vec3, json_of_quat,
  vec3_of_json, quat_of_json,
}

-- Reading what was written of a component gives it back.
pub from_json-to_json :
    {F : Type 0} (float_of : ℕ → F) (c : Component F)
    → from_json float_of (type_of c) (to_json c) ≡ some c
unfolding from_json to_json json_of_vec3 json_of_quat vec3_of_json quat_of_json
from_json-to_json float_of (transform_of p q s) = refl
from_json-to_json float_of (aabb_of a b c) = refl
from_json-to_json float_of (tag_of n) = refl
from_json-to_json float_of (material_of n) = refl
from_json-to_json float_of (mesh_renderer_of i) = refl
from_json-to_json float_of (device_of j) = refl
from_json-to_json float_of (particle_system_of j) = refl

-- `text` is `dump` and the parsing of its text, for one value: none if `dump` throws.
module _ {F : Type 0} (float_of : ℕ → F) (text : Json F → Option (Json F)) where
  abbrev pub write : Component F → Option (Json F)
  write c = text (to_json c)

  -- The components are of the pool's type, and the text gives their values back, as it does for finite
  -- floats and strings of UTF-8.
  abbrev pub AllKept : ComponentType → List (Component F) → Type 0
  AllKept t [] = Unit {0}
  AllKept t (c ∷ cs) = (type_of c ≡ t) × (text (to_json c) ≡ some (to_json c)) × AllKept t cs

  abbrev pub PoolsKept : List (ComponentType × ComponentPool (Component F)) → Type 0
  PoolsKept [] = Unit {0}
  PoolsKept ((t, p) ∷ pools) = (is_mesh_renderer t ≡ false → AllKept t p.m_data) × PoolsKept pools

  components_survive :
      (t : ComponentType) (cs : List (Component F))
      → AllKept t cs
      → AllSurvive write (from_json float_of) t cs
  components_survive t [] h = tt
  components_survive t (c ∷ cs) (typed, kept, h) = (
    (
      to_json c,
      kept,
      λ l.
          subst (λ u. from_json float_of u (to_json c) ≡ some c) typed
            (from_json-to_json float_of c),
    ),
    components_survive t cs h,
  )

  pools_survive :
      (pools : List (ComponentType × ComponentPool (Component F)))
      → PoolsKept pools
      → PoolsSurvive write (from_json float_of) pools
  pools_survive [] h = tt
  pools_survive ((t, p) ∷ pools) h =
      (λ plain. components_survive t p.m_data (h.0 plain), pools_survive pools h.1)

  -- A scene with well-formed pools, each of components of its type, whose meshes are still registered
  -- under their names is saved to a file that loads again, into any registry, as long as `dump` takes
  -- the names of its meshes, and the text gives back the JSON values of its components, as it does for
  -- finite floats and strings of UTF-8: every transform, tag, material, mesh renderer and bounding box is then that of before, and
  -- no entity has a device or a particle system.
  pub load-save :
      (dumps : Str → Bool) (name_of : ℕ → Str) (find_mesh : Str → Option ℕ)
      (r s0 : ComponentRegistry ComponentType (Component F))
      → PoolsWellFormed r.m_pools
      → MeshesKnown mesh_id name_of mesh_renderer_of find_mesh r
      → PoolsKept r.m_pools
      → NamesDumped write (from_json float_of) dumps mesh_id name_of mesh_renderer_of find_mesh r
      → (file : Root (Json F)) × (s : ComponentRegistry ComponentType (Component F)) × (save_file
            write dumps mesh_id name_of r
          ≡ some file)
        × (load_file (from_json float_of) mesh_renderer_of find_mesh file s0 ≡ some s)
        × ((k : ComponentType) (e : ℕ)
            → is_loaded k ≡ true
            → component ComponentType-discrete s k e ≡ component ComponentType-discrete r k e)
        × ((k : ComponentType) (e : ℕ)
            → is_loaded k ≡ false
            → component ComponentType-discrete s k e ≡ none)
  load-save dumps name_of find_mesh r s0 w known kept named =
      load_file-save_file write (from_json float_of) dumps mesh_id name_of mesh_renderer_of
        find_mesh r s0 w known (pools_survive r.m_pools kept) named
