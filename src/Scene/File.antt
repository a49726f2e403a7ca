-- ===== src/Scene/File.antt =====
-- The file of `SceneSerializer`, modules/serialization/sceneSerializer.cpp: the components as the JSON
-- values `J` of the file. `written` is the `to_json` of a component with the `dump` of its value, and
-- `read` the parsing with its `from_json`; `dumps` tells whether `dump` takes a string. `none` is an
-- exception.
use esp32_particulate_sensor.Prelude.{
  ℕ, Bool, true, ◌&&◌, Option, none, some, List, [], ◌∷◌, if◌then◌else◌, ◌>>=◌,
}
use esp32_particulate_sensor.Prelude.Strings.{Str}
use esp32_particulate_sensor.Ecs.Pool.{SerializedPool}
use esp32_particulate_sensor.Ecs.Registry.{ComponentRegistry}
use esp32_particulate_sensor.Scene.{ComponentType, is_loaded, MeshEntries, Root, save, load}

-- Each element converted, or none if one cannot be.
abbrev pub convert_all : {A B : Type 0} → (A → Option B) → List A → Option (List B)
convert_all f [] = some []
convert_all f (x ∷ xs) = f x >>= λ y. convert_all f xs >>= λ ys. some (y ∷ ys)

abbrev pub with_components : {C J : Type 0} → SerializedPool C → List J → SerializedPool J
with_components j cs = record { entities = j.entities; components = cs }

abbrev pub all_dumped : (Str → Bool) → List Str → Bool
all_dumped dumps [] = true
all_dumped dumps (name ∷ names) = dumps name && all_dumped dumps names

abbrev pub write_meshes : (Str → Bool) → Option MeshEntries → Option (Option MeshEntries)
write_meshes dumps none = some none
write_meshes dumps (some m) = if all_dumped dumps m.mesh_names then some (some m) else none

module _ {C J : Type 0} (written : C → Option J) where
  abbrev pub write_pool :
      ComponentType × SerializedPool C → Option (ComponentType × SerializedPool J)
  write_pool (t, j) = convert_all written j.components >>= λ cs. some (t, with_components j cs)

  -- `save` to a file that can be opened: what `operator<<` writes.
  unfoldable pub save_file :
      (Str → Bool) → (C → ℕ) → (ℕ → Str) → ComponentRegistry ComponentType C → Option (Root J)
  unfolding save
  save_file dumps mesh_id name_of r =
      let root = save mesh_id name_of r in
      convert_all write_pool root.pools >>= λ pools.
      write_meshes dumps root.meshes >>= λ meshes. some (record { pools = pools; meshes = meshes })

module _ {C J : Type 0} (read : ComponentType → J → Option C) where
  -- The components of a type that `load` does not read stay unread.
  abbrev pub read_pool :
      ComponentType × SerializedPool J → Option (ComponentType × SerializedPool C)
  read_pool (t, j) =
      if is_loaded t
      then (convert_all (read t) j.components >>= λ cs. some (t, with_components j cs))
      else some (t, with_components j [])

  -- `load` of a file that can be opened. An exception ends it wherever it comes, so the components
  -- are read first.
  unfoldable pub load_file :
      (ℕ → C)
      → (Str → Option ℕ)
      → Root J
      → ComponentRegistry ComponentType C
      → Option (ComponentRegistry ComponentType C)
  unfolding load
  load_file mesh_renderer find_mesh file r = convert_all read_pool file.pools >>= λ pools.
      load mesh_renderer find_mesh (record { pools = pools; meshes = file.meshes }) r
