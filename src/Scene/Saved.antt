-- ===== src/Scene/Saved.antt =====
-- What `load` finds of what `save` wrote, modules/serialization/sceneSerializer.cpp.
use mathlib.Core.Logic.{if_pos, if_neg}
use mathlib.Core.Path.{subst}
use esp32_particulate_sensor.Prelude.{
  ◌≢◌, ℕ, ◌≡◌, refl, sym, ap, ◌∙◌, false, Option, none, some, List, [], ◌∷◌, map, arith, Bool-cases,
  Option-cases, inl, inr, length,
}
use esp32_particulate_sensor.Prelude.Strings.{Str}
use esp32_particulate_sensor.Ecs.Pool.{
  ComponentPool, SerializedPool, serialize_pool, deserialize_pool,
}
use esp32_particulate_sensor.Ecs.Registry.{ComponentRegistry, find_pool}
use esp32_particulate_sensor.Ecs.Registry.Pools.{find_pool-put_pool}
use esp32_particulate_sensor.Scene.{
  ComponentType, ComponentType-discrete, is_mesh_renderer, Root, save_pools, find_saved, load_pool,
  resolve,
}

-- A pool that was saved and loaded.
abbrev pub reload : {C : Type 0} → Option (ComponentPool C) → Option (ComponentPool C)
reload none = none
reload (some p) = some (deserialize_pool (serialize_pool p))

abbrev pub loaded : {C : Type 0} → Option (SerializedPool C) → Option (ComponentPool C)
loaded none = none
loaded (some j) = some (deserialize_pool j)

module _ {C : Type 0} where
  pub find_saved-save_pools :
      (t : ComponentType) (pools : List (ComponentType × ComponentPool C))
      → is_mesh_renderer t ≡ false
      → loaded (find_saved t (save_pools pools)) ≡ reload (find_pool ComponentType-discrete t pools)
  unfolding find_saved save_pools find_pool
  find_saved-save_pools t [] h = refl
  find_saved-save_pools t ((u, p) ∷ pools) h =
      let rest = find_saved-save_pools t pools h in
      elim (ComponentType-discrete u t) [
        | yes e ↦
            let plain : is_mesh_renderer u ≡ false =
              subst (λ x. is_mesh_renderer x ≡ false) (sym e) h in
            rw plain (
              ap loaded (if_pos (ComponentType-discrete u t) e _ _)
              ∙ sym (ap reload (if_pos (ComponentType-discrete u t) e _ _)))
        | no n ↦ elim (Bool-cases (is_mesh_renderer u)) [
          | inl mesh ↦ rw mesh (rest ∙ sym (ap reload (if_neg (ComponentType-discrete u t) n _ _)))
          | inr plain ↦ rw plain (
              ap loaded (if_neg (ComponentType-discrete u t) n _ _)
              ∙ rest
              ∙ sym (ap reload (if_neg (ComponentType-discrete u t) n _ _)))
        ]
      ]

  module _ (root : Root C) (r : ComponentRegistry ComponentType C) (m : ℕ) where
    pub load_pool-find_same :
        (t : ComponentType)
        → find_pool ComponentType-discrete t r.m_pools ≡ none
        → find_pool ComponentType-discrete t (load_pool t root (r, m)).0.m_pools
          ≡ loaded (find_saved t root.pools)
    unfolding load_pool
    load_pool-find_same t fresh = elim (Option-cases (find_saved t root.pools)) [
      | inl out ↦ rw (out, load_pool) fresh
      | inr (j, at) ↦
          rw (at, load_pool)
            (find_pool-put_pool ComponentType-discrete t t (deserialize_pool j) r.m_pools
              ∙ if_pos (ComponentType-discrete t t) refl _ _)
    ]

    pub load_pool-find_other :
        (t k : ComponentType)
        → t ≢ k
        → find_pool ComponentType-discrete k (load_pool t root (r, m)).0.m_pools
          ≡ find_pool ComponentType-discrete k r.m_pools
    unfolding load_pool
    load_pool-find_other t k apart = elim (Option-cases (find_saved t root.pools)) [
      | inl out ↦ rw (out, load_pool) refl
      | inr (j, at) ↦
          rw (at, load_pool)
            (find_pool-put_pool ComponentType-discrete t k (deserialize_pool j) r.m_pools
              ∙ if_neg (ComponentType-discrete t k) apart _ _)
    ]

-- The mesh renderers whose meshes' names lead back to their ids.
abbrev pub KnownMeshes :
    {C : Type 0} → (C → ℕ) → (ℕ → Str) → (ℕ → C) → (Str → Option ℕ) → List C → Type 0
KnownMeshes mesh_id name_of mesh_renderer find_mesh [] = Unit {0}
KnownMeshes mesh_id name_of mesh_renderer find_mesh (c ∷ cs) =
    (find_mesh (name_of (mesh_id c)) ≡ some (mesh_id c))
    × (mesh_renderer (mesh_id c) ≡ c)
    × KnownMeshes mesh_id name_of mesh_renderer find_mesh cs

pub resolve_lem :
    {C : Type 0} (mesh_id : C → ℕ) (name_of : ℕ → Str) (mesh_renderer : ℕ → C)
    (find_mesh : Str → Option ℕ) (es : List ℕ) (cs : List C)
    → length cs ≡ length es
    → KnownMeshes mesh_id name_of mesh_renderer find_mesh cs
    → resolve mesh_renderer find_mesh es (map (λ c. name_of (mesh_id c)) cs) ≡ some (es, cs)
unfolding resolve
resolve_lem mesh_id name_of mesh_renderer find_mesh [] [] same known = refl
resolve_lem mesh_id name_of mesh_renderer find_mesh [] (c ∷ cs) same known =
    absurd (omega (arith, same))
resolve_lem mesh_id name_of mesh_renderer find_mesh (e ∷ es) [] same known =
    absurd (omega (arith, same))
resolve_lem mesh_id name_of mesh_renderer find_mesh (e ∷ es) (c ∷ cs) same known =
    let rest =
      resolve_lem mesh_id name_of mesh_renderer find_mesh es cs (omega (arith, same)) known.2 in
    rw (known.0, rest) (ap (λ x. some (e ∷ es, x ∷ cs)) known.1)
