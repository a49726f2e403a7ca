-- ===== src/Editor/Spawn.antt =====
-- `spawnPrimitive` of modules/gui/Panels/a_HierarchyPanel.cpp: a mesh for the resource manager, and an
-- entity that shows it. `create_mesh` is the upload to the GPU and `box_of` computes the
-- box around some vertices, with floats.
use esp32_particulate_sensor.Prelude.{
  ℕ, ◌≡◌, ◌<◌, ◌+◌, ◌^◌, ◌∙◌, Bool, none, ap, some, ◌++◌, is_some, length, List,
}
use esp32_particulate_sensor.Prelude.Strings.{Str, codes}
use esp32_particulate_sensor.Resource.{
  Mesh, ResourceManager, register_custom_mesh, get_mesh_by_id, try_get_mesh_id_by_name,
}
use esp32_particulate_sensor.Resource.Valid
use esp32_particulate_sensor.Resource.Registration.{
  register_custom_mesh_lem, register_custom_mesh-mesh,
}
use esp32_particulate_sensor.Ecs.Pool.{invalid_index}
use esp32_particulate_sensor.Ecs.Registry.{ComponentRegistry, pool_of}
use esp32_particulate_sensor.Ecs.Registry.Create.{IsValid}
use esp32_particulate_sensor.Scene.{ComponentType, ComponentType-discrete}
use esp32_particulate_sensor.Scene.Entities.{Components, add_entity}
use esp32_particulate_sensor.Scene.Entities.Added.{IsAdded, add_entity_lem}
use esp32_particulate_sensor.Editor.Browser.{box_if}
use esp32_particulate_sensor.Editor.Browser.Grid.{has_vertices, is_some-get_aabb}

module _ {V G C P : Type 0} (make : Components C) (transform_at : P → C) (box_of : V → List V → C)
    (create_mesh : Mesh V → G) where
  -- The generated mesh is an argument. The result is false for the exception of `addEntity`.
  unfoldable pub spawn_primitive :
      Str
      → P
      → Mesh V
      → ResourceManager V G
      → ComponentRegistry ComponentType C
      → Bool × ResourceManager V G × ComponentRegistry ComponentType C
  spawn_primitive name position mesh r registry =
      let (id, s) = register_custom_mesh create_mesh r mesh (codes "Default_" ++ name) in
      let (returned, after) =
        add_entity make (λ i. box_if box_of (get_mesh_by_id s i)) id name (transform_at position)
          registry in
      (returned, s, after)

  -- While the ids last and no pool is full, `spawnPrimitive` on valid tables and a valid registry
  -- leaves valid tables, which lead from the name with "Default_" before it to the mesh that the new
  -- entity shows: the one given, if that name is new. It ends without an exception exactly if the mesh
  -- has a vertex; the registry is as `addEntity` promises in both cases.
  pub spawn_primitive_lem :
      (name : Str) (position : P) (mesh : Mesh V) (r : ResourceManager V G)
      (registry : ComponentRegistry ComponentType C)
      → Valid.IsValid r
      → r.m_next_mesh_id + 1 < 2 ^ 32
      → IsValid registry
      → registry.m_next_id + 1 < 2 ^ 32
      → ((k : ComponentType)
          → length (pool_of ComponentType-discrete registry k).m_data < invalid_index)
      → let (returned, s, after) = spawn_primitive name position mesh r registry in
        Valid.IsValid s
        × ((id : ℕ) × (m : Mesh V) × (try_get_mesh_id_by_name s (codes "Default_" ++ name)
              ≡ some id)
            × (get_mesh_by_id s id ≡ some m)
            × (try_get_mesh_id_by_name r (codes "Default_" ++ name) ≡ none → m ≡ mesh)
            × (returned ≡ has_vertices m)
            × IsAdded make
                (λ i. box_if box_of (get_mesh_by_id s i))
                id
                name
                (transform_at position)
                registry
                after)
  unfolding spawn_primitive
  spawn_primitive_lem name position mesh r registry v ids w counter room =
      let full_name = codes "Default_" ++ name in
      let entered = register_custom_mesh create_mesh r mesh full_name in
      let promised = register_custom_mesh_lem create_mesh r mesh mesh full_name v ids in
      let (m, held, given) = register_custom_mesh-mesh create_mesh r mesh full_name v in
      let find_box = λ (i : ℕ). box_if box_of (get_mesh_by_id entered.1 i) in
      let (returns, added) =
        add_entity_lem make find_box entered.0 name (transform_at position) registry w counter
          room in
      (
        promised.0,
        (
          entered.0,
          m,
          promised.1,
          held,
          given,
          returns ∙ ap (λ o. is_some (box_if box_of o)) held ∙ is_some-get_aabb box_of m,
          added,
        ),
      )
