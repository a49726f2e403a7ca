-- ===== src/Scene/Entities/Added.antt =====
-- What `SceneManager::addEntity` of modules/scene/scene.cpp does to the registry.
use esp32_particulate_sensor.Prelude.{Option-cases, inl, inr}
use esp32_particulate_sensor.Prelude.{
  ℕ, ◌≡◌, ◌<◌, ◌∙◌, refl, ap, false, none, some, arith, if◌then◌else◌, ◌==◌, length, is_some,
  Option,
}
use esp32_particulate_sensor.Ecs.Pool.{invalid_index}
use esp32_particulate_sensor.Ecs.Registry.{ComponentRegistry, pool_of}
use esp32_particulate_sensor.Ecs.Registry.Pools.{component}
use esp32_particulate_sensor.Ecs.Registry.Create.{IsValid}
use esp32_particulate_sensor.Prelude.Strings.{Str, codes}
use esp32_particulate_sensor.Scene.{
  device, particle_system, ComponentType, transform, tag, material, mesh_renderer_type, aabb,
  ComponentType-discrete,
}
use esp32_particulate_sensor.Scene.Entities.{Components, add_plain, add_entity, add_box}
use esp32_particulate_sensor.Ecs.Registry.{create_entity}
use esp32_particulate_sensor.Ecs.Registry.Create.{create_entity_lem}
use esp32_particulate_sensor.Prelude.Places.{contains}
use esp32_particulate_sensor.Prelude.{◌^◌, ◌+◌, false, ◌||◌}
use esp32_particulate_sensor.Ecs.Registry.Filled.{
  none_above, Lacks, with_type, Filled, new-Filled, add_component-Filled,
}

module _ {C : Type 0} (make : Components C) (aabb_of : ℕ → Option C) where
  -- The components of an added entity.
  abbrev pub components_of : ℕ → Str → C → ComponentType → Option C
  components_of mesh_id name t transform = some t
  components_of mesh_id name t mesh_renderer_type = some (make.mesh_renderer mesh_id)
  components_of mesh_id name t material = some (make.material_named (codes "PBRMaterial"))
  components_of mesh_id name t tag = some (make.tag_named name)
  components_of mesh_id name t aabb = aabb_of mesh_id
  components_of mesh_id name t k = none

  -- The components but the box.
  abbrev plain_of : ℕ → Str → C → ComponentType → Option C
  plain_of mesh_id name t = with_type ComponentType-discrete tag (make.tag_named name) (
      with_type ComponentType-discrete material (make.material_named (codes "PBRMaterial")) (
        with_type ComponentType-discrete mesh_renderer_type (make.mesh_renderer mesh_id)
          (with_type ComponentType-discrete transform t (λ j. none))))

  add_plain-Filled :
      (mesh_id : ℕ) (name : Str) (t : C) (r : ComponentRegistry ComponentType C) (e : ℕ)
      → IsValid r
      → e < r.m_next_id
      → ((k : ComponentType) → Lacks ComponentType-discrete r e k)
      → Filled ComponentType-discrete r e
          (plain_of mesh_id name t)
          (add_plain make aabb_of e mesh_id name t r)
  unfolding add_plain ComponentType-discrete
  add_plain-Filled mesh_id name t r e v below lacks =
      let fill = add_component-Filled ComponentType-discrete r e in
      let first =
        fill (λ j. none) r transform t (new-Filled ComponentType-discrete r e v below lacks) refl in
      let second = fill _ _ mesh_renderer_type (make.mesh_renderer mesh_id) first refl in
      let third = fill _ _ material (make.material_named (codes "PBRMaterial")) second refl in
      fill _ _ tag (make.tag_named name) third refl

  created-Lacks :
      (r : ComponentRegistry ComponentType C)
      → IsValid r
      → ((k : ComponentType) → length (pool_of ComponentType-discrete r k).m_data < invalid_index)
      → (k : ComponentType) → Lacks ComponentType-discrete (create_entity r).1 r.m_next_id k
  unfolding create_entity pool_of
  created-Lacks r v room k = (
    none_above ComponentType-discrete r r.m_next_id r.m_next_id k v.pools v.pools_below
        (λ h. omega arith),
    room k,
  )

  -- What `addEntity` promises of the registry it leaves.
  abbrev pub IsAdded :
      ℕ → Str → C → ComponentRegistry ComponentType C → ComponentRegistry ComponentType C → Type 0
  IsAdded mesh_id name t r s =
      IsValid s
      × (contains r.m_active_entities r.m_next_id ≡ false)
      × ((j : ℕ)
          → contains s.m_active_entities j ≡ (r.m_next_id == j || contains r.m_active_entities j))
      × ((k : ComponentType) (j : ℕ)
          → component ComponentType-discrete s k j ≡ (
              if r.m_next_id == j
              then components_of mesh_id name t k
              else component ComponentType-discrete r k j))

  Filled-IsAdded :
      (mesh_id : ℕ) (name : Str) (t : C) (r s : ComponentRegistry ComponentType C)
      (given : ComponentType → Option C)
      → IsValid r
      → r.m_next_id + 1 < 2 ^ 32
      → Filled ComponentType-discrete (create_entity r).1 r.m_next_id given s
      → ((k : ComponentType) → given k ≡ components_of mesh_id name t k)
      → IsAdded mesh_id name t r s
  unfolding create_entity pool_of
  Filled-IsAdded mesh_id name t r s given v counter f same =
      let made = create_entity_lem r v counter in
      (
        f.valid,
        made.0,
        λ j. ap (λ es. contains es j) f.active ∙ made.2 j,
        λ k j.
            f.reads k j
            ∙ ap (λ c. if r.m_next_id == j then c else component ComponentType-discrete r k j)
                (same k),
      )

  plain_of-none :
      (mesh_id : ℕ) (name : Str) (t : C) (k : ComponentType)
      → none ≡ aabb_of mesh_id
      → plain_of mesh_id name t k ≡ components_of mesh_id name t k
  unfolding ComponentType-discrete
  plain_of-none mesh_id name t transform h = refl
  plain_of-none mesh_id name t tag h = refl
  plain_of-none mesh_id name t material h = refl
  plain_of-none mesh_id name t mesh_renderer_type h = refl
  plain_of-none mesh_id name t aabb h = h
  plain_of-none mesh_id name t device h = refl
  plain_of-none mesh_id name t particle_system h = refl

  plain_of-some :
      (mesh_id : ℕ) (name : Str) (t box : C) (k : ComponentType)
      → some box ≡ aabb_of mesh_id
      → with_type ComponentType-discrete aabb box (plain_of mesh_id name t) k
        ≡ components_of mesh_id name t k
  unfolding ComponentType-discrete
  plain_of-some mesh_id name t box transform h = refl
  plain_of-some mesh_id name t box tag h = refl
  plain_of-some mesh_id name t box material h = refl
  plain_of-some mesh_id name t box mesh_renderer_type h = refl
  plain_of-some mesh_id name t box aabb h = h
  plain_of-some mesh_id name t box device h = refl
  plain_of-some mesh_id name t box particle_system h = refl

  add_box-IsAdded :
      (mesh_id : ℕ) (name : Str) (t : C) (r plain : ComponentRegistry ComponentType C)
      → IsValid r
      → r.m_next_id + 1 < 2 ^ 32
      → Filled ComponentType-discrete
          (create_entity r).1
          r.m_next_id
          (plain_of mesh_id name t)
          plain
      → (found : Option C) → found ≡ aabb_of mesh_id
      → let (returned, s) = add_box make aabb_of found r.m_next_id plain in
        (returned ≡ is_some found) × IsAdded mesh_id name t r s
  unfolding ComponentType-discrete
  add_box-IsAdded mesh_id name t r plain v counter f none same = (
    refl,
    Filled-IsAdded mesh_id name t r _ _ v counter f (λ k. plain_of-none mesh_id name t k same),
  )
  add_box-IsAdded mesh_id name t r plain v counter f (some box) same =
      let boxed =
        add_component-Filled ComponentType-discrete (create_entity r).1 r.m_next_id _ _ aabb box f
          refl in
      (
        refl,
        Filled-IsAdded mesh_id name t r _ _ v counter boxed
            (λ k. plain_of-some mesh_id name t box k same),
      )

  pub add_entity-returns :
      (mesh_id : ℕ) (name : Str) (t : C) (r : ComponentRegistry ComponentType C)
      → (add_entity make aabb_of mesh_id name t r).0 ≡ is_some (aabb_of mesh_id)
  unfolding add_entity
  add_entity-returns mesh_id name t r = elim (Option-cases (aabb_of mesh_id)) [
    | inl out ↦ rw out refl
    | inr (box, found) ↦ rw found refl
  ]

  -- Until the 32-bit counter is used up or a pool is full, `addEntity` keeps a valid registry valid,
  -- makes one new entity active that was not active before, and gives it the transform, the mesh
  -- renderer, the material, the tag and the mesh's box, and no other component; the components of
  -- every other entity stay. It ends without the exception exactly if the mesh is found and has a box,
  -- which a mesh without vertices has not; otherwise the new entity stays active, with all its components but the box.
  pub add_entity_lem :
      (mesh_id : ℕ) (name : Str) (t : C) (r : ComponentRegistry ComponentType C)
      → IsValid r
      → r.m_next_id + 1 < 2 ^ 32
      → ((k : ComponentType) → length (pool_of ComponentType-discrete r k).m_data < invalid_index)
      → let (returned, s) = add_entity make aabb_of mesh_id name t r in
        (returned ≡ is_some (aabb_of mesh_id)) × IsAdded mesh_id name t r s
  unfolding add_entity create_entity
  add_entity_lem mesh_id name t r v counter room =
      let plain =
        add_plain-Filled mesh_id name t (create_entity r).1 r.m_next_id
          (create_entity_lem r v counter).1 (omega arith) (created-Lacks r v room) in
      add_box-IsAdded mesh_id name t r _ v counter plain (aabb_of mesh_id) refl
