-- ===== src/Scene/Reload.antt =====
-- What `load` of modules/serialization/sceneSerializer.cpp makes of the pools that `save` wrote.
use mathlib.Core.Logic.{if_pos, if_neg}
use esp32_particulate_sensor.Prelude.{
  ℕ, ◌≡◌, ◌≢◌, refl, sym, ap, ◌∙◌, true, false, Option, none, some, Option-cases, inl, inr,
}
use esp32_particulate_sensor.Prelude.Strings.{Str}
use esp32_particulate_sensor.Ecs.Pool.{
  ComponentPool, serialize_pool, deserialize_pool, empty, get, max_entity,
}
use esp32_particulate_sensor.Ecs.Pool.Serialize.{deserialize_pool-serialize_pool}
use esp32_particulate_sensor.Ecs.Registry.{
  ComponentRegistry, find_pool, put_pool, pool_of, clear_registry, rebuild_active_entities,
}
use esp32_particulate_sensor.Ecs.Registry.Pools.{
  find_pool-put_pool, find_pool-WellFormed, PoolsWellFormed, component,
}
use esp32_particulate_sensor.Scene.{
  ComponentType, ComponentType-discrete, transform, tag, material, mesh_renderer_type, device,
  particle_system, is_mesh_renderer, is_loaded, Root, save_meshes, find_saved, load_pool,
  load_meshes, load, aabb, finish,
}
use esp32_particulate_sensor.Scene.Saved.{
  reload, loaded, load_pool-find_same, load_pool-find_other, KnownMeshes, resolve_lem,
}

abbrev pub pool_at :
    {C : Type 0} → ComponentType → ComponentRegistry ComponentType C → Option (ComponentPool C)
pool_at t r = find_pool ComponentType-discrete t r.m_pools

module _ {C : Type 0} where
  reload-component :
      (r s : ComponentRegistry ComponentType C) (k : ComponentType) (e : ℕ)
      → PoolsWellFormed r.m_pools
      → pool_at k s ≡ reload (pool_at k r)
      → component ComponentType-discrete s k e ≡ component ComponentType-discrete r k e
  unfolding pool_of
  reload-component r s k e w h = elim (Option-cases (pool_at k r)) [
    | inl out ↦ let gone : pool_at k s ≡ none = h ∙ ap reload out in rw (pool_of, gone, out) refl
    | inr (p, at) ↦
        let back : pool_at k s ≡ some (deserialize_pool (serialize_pool p)) = h ∙ ap reload at in
        rw (pool_of, back, at)
          ((deserialize_pool-serialize_pool p
              (find_pool-WellFormed ComponentType-discrete k r.m_pools p w at)).1
            e)
  ]

  no-component :
      (s : ComponentRegistry ComponentType C) (k : ComponentType) (e : ℕ)
      → pool_at k s ≡ none
      → component ComponentType-discrete s k e ≡ none
  unfolding pool_of empty get
  no-component s k e h = rw (pool_of, h) refl

module _ {C : Type 0} (mesh_id : C → ℕ) (name_of : ℕ → Str) (mesh_renderer : ℕ → C)
    (find_mesh : Str → Option ℕ) (r : ComponentRegistry ComponentType C) where
  -- The meshes of the scene are still registered when it is loaded.
  abbrev pub MeshesKnown : Type 0
  MeshesKnown =
      (p : ComponentPool C)
      → pool_at mesh_renderer_type r ≡ some p
      → KnownMeshes mesh_id name_of mesh_renderer find_mesh p.m_data

-- A file that gives back what `save` wrote of the pools that `load` reads.
module _ {C : Type 0} (mesh_id : C → ℕ) (name_of : ℕ → Str) (mesh_renderer : ℕ → C)
    (find_mesh : Str → Option ℕ) (r : ComponentRegistry ComponentType C) (root : Root C)
    (saved : (k : ComponentType)
      → is_loaded k ≡ true
      → is_mesh_renderer k ≡ false
      → loaded (find_saved k root.pools) ≡ reload (pool_at k r))
    (same_meshes : root.meshes ≡ save_meshes mesh_id name_of (pool_at mesh_renderer_type r)) where
  -- What the block of `load` for the mesh renderers does.
  mesh_step :
      (c : ComponentRegistry ComponentType C × ℕ)
      → PoolsWellFormed r.m_pools
      → MeshesKnown mesh_id name_of mesh_renderer find_mesh r
      → pool_at mesh_renderer_type c.0 ≡ none
      → (d : ComponentRegistry ComponentType C × ℕ) × (load_meshes mesh_renderer find_mesh root c
          ≡ some d)
        × (pool_at mesh_renderer_type d.0 ≡ reload (pool_at mesh_renderer_type r))
        × ((k : ComponentType) → mesh_renderer_type ≢ k → pool_at k d.0 ≡ pool_at k c.0)
  unfolding load_meshes save_meshes serialize_pool
  mesh_step c w known fresh = elim (Option-cases (pool_at mesh_renderer_type r)) [
    | inl out ↦ (
      c,
      rw (load_meshes, same_meshes ∙ ap (save_meshes mesh_id name_of) out) refl,
      fresh ∙ sym (ap reload out),
      λ k apart. refl,
    )
    | inr (p, at) ↦
        let v = find_pool-WellFormed ComponentType-discrete mesh_renderer_type r.m_pools p w at in
        let back =
          resolve_lem mesh_id name_of mesh_renderer find_mesh p.m_entities p.m_data v.same_length
            (known p at) in
        let pool = deserialize_pool (record { entities = p.m_entities; components = p.m_data }) in
        (
          (
            record c.0 {
              m_pools = put_pool ComponentType-discrete mesh_renderer_type pool (c.0).m_pools;
            },
            max_entity c.1 pool.m_entities,
          ),
          rw (load_meshes, same_meshes ∙ ap (save_meshes mesh_id name_of) at, back) refl,
          find_pool-put_pool ComponentType-discrete mesh_renderer_type mesh_renderer_type pool
                (c.0).m_pools
              ∙ if_pos (ComponentType-discrete mesh_renderer_type mesh_renderer_type) refl _ _
              ∙ sym (ap reload at),
          λ k apart.
              find_pool-put_pool ComponentType-discrete mesh_renderer_type k pool (c.0).m_pools
              ∙ if_neg (ComponentType-discrete mesh_renderer_type k) apart _ _,
        )
  ]

  module _ (s0 : ComponentRegistry ComponentType C) where
    after_transform : ComponentRegistry ComponentType C × ℕ
    after_transform = load_pool transform root (clear_registry s0, 0)

    after_tag : ComponentRegistry ComponentType C × ℕ
    unfolding after_transform
    after_tag = load_pool tag root after_transform

    after_material : ComponentRegistry ComponentType C × ℕ
    unfolding after_tag
    after_material = load_pool material root after_tag

    cleared : (k : ComponentType) → pool_at k (clear_registry s0) ≡ none
    unfolding clear_registry find_pool
    cleared k = refl

    -- A type that none of the first three blocks is about.
    untouched :
        (k : ComponentType)
        → transform ≢ k
        → tag ≢ k
        → material ≢ k
        → pool_at k after_material.0 ≡ none
    unfolding after_transform after_tag after_material
    untouched k a b c =
        load_pool-find_other root after_tag.0 after_tag.1 material k c
        ∙ load_pool-find_other root after_transform.0 after_transform.1 tag k b
        ∙ load_pool-find_other root (clear_registry s0) 0 transform k a
        ∙ cleared k

    transform_back : pool_at transform after_material.0 ≡ reload (pool_at transform r)
    unfolding after_transform after_tag after_material
    transform_back =
        load_pool-find_other root after_tag.0 after_tag.1 material transform (λ e. cc)
        ∙ load_pool-find_other root after_transform.0 after_transform.1 tag transform (λ e. cc)
        ∙ load_pool-find_same root (clear_registry s0) 0 transform (cleared transform)
        ∙ saved transform refl refl

    tag_back : pool_at tag after_material.0 ≡ reload (pool_at tag r)
    unfolding after_transform after_tag after_material
    tag_back =
        load_pool-find_other root after_tag.0 after_tag.1 material tag (λ e. cc)
        ∙ load_pool-find_same root after_transform.0 after_transform.1 tag
            (load_pool-find_other root (clear_registry s0) 0 transform tag (λ e. cc) ∙ cleared tag)
        ∙ saved tag refl refl

    material_back : pool_at material after_material.0 ≡ reload (pool_at material r)
    unfolding after_transform after_tag after_material
    material_back =
        load_pool-find_same root after_tag.0 after_tag.1 material (
          load_pool-find_other root after_transform.0 after_transform.1 tag material (λ e. cc)
          ∙ load_pool-find_other root (clear_registry s0) 0 transform material (λ e. cc)
          ∙ cleared material)
        ∙ saved material refl refl

    -- The pools after all blocks, from the state after the block of the mesh renderers.
    all_back :
        (d : ComponentRegistry ComponentType C × ℕ)
        → pool_at mesh_renderer_type d.0 ≡ reload (pool_at mesh_renderer_type r)
        → ((k : ComponentType)
            → mesh_renderer_type ≢ k
            → pool_at k d.0 ≡ pool_at k after_material.0)
        → (k : ComponentType) → is_loaded k ≡ true
        → pool_at k (load_pool aabb root d).0 ≡ reload (pool_at k r)
    all_back d mesh others transform h =
        load_pool-find_other root d.0 d.1 aabb transform (λ e. cc)
        ∙ others transform (λ e. cc)
        ∙ transform_back
    all_back d mesh others tag h =
        load_pool-find_other root d.0 d.1 aabb tag (λ e. cc) ∙ others tag (λ e. cc) ∙ tag_back
    all_back d mesh others material h =
        load_pool-find_other root d.0 d.1 aabb material (λ e. cc)
        ∙ others material (λ e. cc)
        ∙ material_back
    all_back d mesh others mesh_renderer_type h =
        load_pool-find_other root d.0 d.1 aabb mesh_renderer_type (λ e. cc) ∙ mesh
    all_back d mesh others aabb h =
        load_pool-find_same root d.0 d.1 aabb
          (others aabb (λ e. cc) ∙ untouched aabb (λ e. cc) (λ e. cc) (λ e. cc))
        ∙ saved aabb refl refl
    all_back d mesh others device h = cc
    all_back d mesh others particle_system h = cc

    none_back :
        (d : ComponentRegistry ComponentType C × ℕ)
        → ((k : ComponentType)
            → mesh_renderer_type ≢ k
            → pool_at k d.0 ≡ pool_at k after_material.0)
        → (k : ComponentType) → is_loaded k ≡ false
        → pool_at k (load_pool aabb root d).0 ≡ none
    none_back d others device h =
        load_pool-find_other root d.0 d.1 aabb device (λ e. cc)
        ∙ others device (λ e. cc)
        ∙ untouched device (λ e. cc) (λ e. cc) (λ e. cc)
    none_back d others particle_system h =
        load_pool-find_other root d.0 d.1 aabb particle_system (λ e. cc)
        ∙ others particle_system (λ e. cc)
        ∙ untouched particle_system (λ e. cc) (λ e. cc) (λ e. cc)
    none_back d others transform h = cc
    none_back d others tag h = cc
    none_back d others material h = cc
    none_back d others mesh_renderer_type h = cc
    none_back d others aabb h = cc

    pub load_lem :
        PoolsWellFormed r.m_pools
        → MeshesKnown mesh_id name_of mesh_renderer find_mesh r
        → (s : ComponentRegistry ComponentType C) × (load mesh_renderer find_mesh root s0 ≡ some s)
          × ((k : ComponentType) (e : ℕ)
              → is_loaded k ≡ true
              → component ComponentType-discrete s k e ≡ component ComponentType-discrete r k e)
          × ((k : ComponentType) (e : ℕ)
              → is_loaded k ≡ false
              → component ComponentType-discrete s k e ≡ none)
    unfolding load finish rebuild_active_entities after_transform after_tag after_material
    load_lem w known =
        let (d, run, mesh, others) =
          mesh_step after_material w known
            (untouched mesh_renderer_type (λ e. cc) (λ e. cc) (λ e. cc)) in
        let s = finish root (load_pool aabb root d) in
        (
          s,
          rw (load, run) refl,
          λ k e h. reload-component r s k e w (all_back d mesh others k h),
          λ k e h. no-component s k e (none_back d others k h),
        )
