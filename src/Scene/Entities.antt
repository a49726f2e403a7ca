-- ===== src/Scene/Entities.antt =====
-- `SceneManager` of modules/scene/scene.cpp: entities of the scene. `C` is the type of all components,
-- with the constructors that addEntity uses; `aabb_of` gives the box of the mesh of an id, and
-- `none` for an exception: of `getMeshByID` if there is no such mesh, or of `Mesh::getAABB` if it has no
-- vertices.
pub mod Added
pub mod Tests
use esp32_particulate_sensor.Prelude.{ℕ, ◌≡◌, Bool, true, false, Option, none, some, List, [], ◌∷◌}
use esp32_particulate_sensor.Prelude.Strings.{Str, codes}
use esp32_particulate_sensor.Ecs.Registry.{
  ComponentRegistry, create_entity, add_component, destroy_entity,
}
use esp32_particulate_sensor.Scene.{
  ComponentType, transform, tag, material, mesh_renderer_type, aabb, ComponentType-discrete,
}

pub record Components (C : Type 0) : Type 0 where
  pub mesh_renderer : ℕ → C
  pub material_named : Str → C
  pub tag_named : Str → C

module _ {C : Type 0} (make : Components C) (aabb_of : ℕ → Option C) where
  abbrev pub add_to :
      ComponentType → ℕ → C → ComponentRegistry ComponentType C → ComponentRegistry ComponentType C
  add_to k e c r = add_component ComponentType-discrete r k e c

  -- The four components that need no mesh.
  unfoldable pub add_plain :
      ℕ → ℕ → Str → C → ComponentRegistry ComponentType C → ComponentRegistry ComponentType C
  add_plain e mesh_id name t r = add_to tag e (make.tag_named name) (
      add_to material e (make.material_named (codes "PBRMaterial"))
        (add_to mesh_renderer_type e (make.mesh_renderer mesh_id) (add_to transform e t r)))

  -- The box of the mesh; false is the exception. The registry stays as it is in both cases.
  abbrev pub add_box :
      Option C → ℕ → ComponentRegistry ComponentType C → Bool × ComponentRegistry ComponentType C
  add_box none e r = (false, r)
  add_box (some box) e r = (true, add_to aabb e box r)

  unfoldable pub add_entity :
      ℕ → Str → C → ComponentRegistry ComponentType C → Bool × ComponentRegistry ComponentType C
  unfolding add_plain
  add_entity mesh_id name t r =
      let (e, created) = create_entity r in
      add_box (aabb_of mesh_id) e (add_plain e mesh_id name t created)

unfoldable pub delete_entity :
    {C : Type 0}
    → ℕ
    → ComponentRegistry ComponentType C
    → Option (ComponentRegistry ComponentType C)
delete_entity id r = destroy_entity r id
