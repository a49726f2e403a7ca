-- ===== src/Scene.antt =====
-- `SceneSerializer` of modules/serialization/sceneSerializer.cpp. `C` is the type of all components;
-- `mesh_id` and `mesh_renderer` are the member of the MeshRenderer struct and its constructor;
-- `name_of` and `find_mesh` are `getMeshNameByID` and `tryGetMeshIDByName` of the resource manager. The
-- file is its JSON object: the pools under their types' names, and that of the mesh renderers apart.
-- `none` is an access out of range.
pub mod Saved
pub mod Reload
pub mod File
pub mod RoundTrip
pub mod Json
pub mod Entities
pub mod Tests
use mathlib.Core.Logic.{ite}
use esp32_particulate_sensor.Prelude.{
  ℕ, ◌+◌, ◌%◌, ◌^◌, Bool, true, false, not, ◌&&◌, ◌||◌, Option, none, some, List, [], ◌∷◌, map, ltb,
  if◌then◌else◌, ◌>>=◌, is_some,
}
use esp32_particulate_sensor.Prelude.Strings.{Str}
use esp32_particulate_sensor.Ecs.Pool.{
  ComponentPool, SerializedPool, serialize_pool, deserialize_pool, max_entity,
}
use esp32_particulate_sensor.Ecs.Registry.{
  ComponentRegistry, clear_registry, find_pool, put_pool, rebuild_active_entities,
}

-- The types of the components of definitions/ECS/a_components.hpp.
pub data ComponentType : Type 0 where
  transform tag material mesh_renderer_type aabb device particle_system : ComponentType

unfoldable pub ComponentType-discrete : Discrete ComponentType
ComponentType-discrete = hlevel

abbrev pub is_mesh_renderer : ComponentType → Bool
is_mesh_renderer mesh_renderer_type = true
is_mesh_renderer t = false

-- The types whose pools `load` reads.
abbrev pub is_loaded : ComponentType → Bool
is_loaded device = false
is_loaded particle_system = false
is_loaded t = true

-- The mesh renderers in the file: "entities" and "meshNames".
pub record MeshEntries : Type 0 where
  pub entities : List ℕ
  pub mesh_names : List Str

pub record Root (C : Type 0) : Type 0 where
  pub pools : List (ComponentType × SerializedPool C)
  pub meshes : Option MeshEntries

module _ {C : Type 0} where
  -- The loop of `save` over the pools.
  unfoldable pub save_pools :
      List (ComponentType × ComponentPool C) → List (ComponentType × SerializedPool C)
  save_pools [] = []
  save_pools ((t, p) ∷ pools) =
      let rest = save_pools pools in
      if is_mesh_renderer t then rest else (t, serialize_pool p) ∷ rest

  unfoldable pub find_saved :
      ComponentType → List (ComponentType × SerializedPool C) → Option (SerializedPool C)
  find_saved t [] = none
  find_saved t ((u, j) ∷ pools) = ite (ComponentType-discrete u t) (some j) (find_saved t pools)

  -- One block of `load`: the pool of type `t`, if the file has it, and the largest entity so far.
  unfoldable pub load_pool :
      ComponentType
      → Root C
      → ComponentRegistry ComponentType C × ℕ
      → ComponentRegistry ComponentType C × ℕ
  unfolding find_saved
  load_pool t root (r, max_id) = elim (find_saved t root.pools) [
    | none ↦ (r, max_id)
    | some j ↦
        let pool = deserialize_pool j in
        (
          record r { m_pools = put_pool ComponentType-discrete t pool r.m_pools },
          max_entity max_id pool.m_entities,
        )
  ]

  abbrev pub is_empty_root : Root C → Bool
  is_empty_root root = is_nil root.pools && not (is_some root.meshes)
    where
      is_nil : List (ComponentType × SerializedPool C) → Bool
      is_nil [] = true
      is_nil (x ∷ xs) = false

  -- The end of `load`: the next id, a u32, and the active entities.
  unfoldable pub finish :
      Root C → ComponentRegistry ComponentType C × ℕ → ComponentRegistry ComponentType C
  finish root (r, max_id) =
      let next =
        if ltb 0 max_id || not (is_empty_root root) then (max_id + 1) % 2 ^ 32 else r.m_next_id in
      rebuild_active_entities (record r { m_next_id = next })

module _ {C : Type 0} (mesh_id : C → ℕ) (name_of : ℕ → Str) where
  unfoldable pub save_meshes : Option (ComponentPool C) → Option MeshEntries
  save_meshes none = none
  save_meshes (some p) =
      some
        (record { entities = p.m_entities; mesh_names = map (λ c. name_of (mesh_id c)) p.m_data })

  -- `save`, as the object that it writes.
  unfoldable pub save : ComponentRegistry ComponentType C → Root C
  unfolding save_pools save_meshes
  save r = record {
    pools = save_pools r.m_pools;
    meshes = save_meshes (find_pool ComponentType-discrete mesh_renderer_type r.m_pools);
  }

module _ {C : Type 0} (mesh_renderer : ℕ → C) (find_mesh : Str → Option ℕ) where
  -- The loop that turns names back into ids: an entity whose mesh is unknown is left out.
  unfoldable pub resolve : List ℕ → List Str → Option (List ℕ × List C)
  resolve [] names = some ([], [])
  resolve (e ∷ es) [] = none
  resolve (e ∷ es) (name ∷ names) = elim (find_mesh name) [
    | none ↦ resolve es names
    | some id ↦ resolve es names >>= λ rest. some (e ∷ rest.0, mesh_renderer id ∷ rest.1)
  ]

  unfoldable pub load_meshes :
      Root C
      → ComponentRegistry ComponentType C × ℕ
      → Option (ComponentRegistry ComponentType C × ℕ)
  unfolding resolve
  load_meshes root (r, max_id) = elim root.meshes [
    | none ↦ some (r, max_id)
    | some m ↦ resolve m.entities m.mesh_names >>= λ rebuilt.
        let pool = deserialize_pool (record { entities = rebuilt.0; components = rebuilt.1 }) in
        some (
          record r { m_pools = put_pool ComponentType-discrete mesh_renderer_type pool r.m_pools },
          max_entity max_id pool.m_entities,
        )
  ]

  -- `load`, of a file that can be opened.
  unfoldable pub load :
      Root C → ComponentRegistry ComponentType C → Option (ComponentRegistry ComponentType C)
  unfolding load_pool load_meshes finish
  load root r =
      load_meshes root (
        load_pool material root
          (load_pool tag root (load_pool transform root (clear_registry r, 0))))
      >>= λ loaded. some (finish root (load_pool aabb root loaded))
