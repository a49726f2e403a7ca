-- ===== src/Scene/RoundTrip.antt =====
-- A scene that is saved to a file and loaded, for any conversion of its components, modules/serialization/sceneSerializer.cpp.
use mathlib.Core.Logic.{ite, if_neg}
use esp32_particulate_sensor.Prelude.{
  ℕ, ◌≡◌, ◌≢◌, refl, sym, ap, ◌∙◌, Bool, true, false, Option, none, some, List, [], ◌∷◌, ◌>>=◌, map,
  Bool-cases, Option-cases, inl, inr,
}
use esp32_particulate_sensor.Prelude.Strings.{Str}
use esp32_particulate_sensor.Ecs.Pool.{ComponentPool, SerializedPool, serialize_pool}
use esp32_particulate_sensor.Ecs.Registry.{ComponentRegistry}
use esp32_particulate_sensor.Ecs.Registry.Pools.{PoolsWellFormed, component}
use esp32_particulate_sensor.Scene.{
  ComponentType, ComponentType-discrete, is_loaded, is_mesh_renderer, mesh_renderer_type, Root,
  save, save_pools, save_meshes, find_saved,
}
use esp32_particulate_sensor.Scene.Saved.{loaded, find_saved-save_pools}
use esp32_particulate_sensor.Scene.Reload.{pool_at, MeshesKnown, load_lem}
use esp32_particulate_sensor.Scene.File.{
  convert_all, with_components, all_dumped, write_pool, write_meshes, save_file, read_pool,
  load_file,
}

-- What of the saved pools is found again.
module _ {C : Type 0} where
  abbrev Found :
      List (ComponentType × SerializedPool C) → List (ComponentType × SerializedPool C) → Type 0
  Found saved again =
      (k : ComponentType) → is_loaded k ≡ true → find_saved k again ≡ find_saved k saved

  unread :
      (t : ComponentType) (j i : SerializedPool C)
      (saved again : List (ComponentType × SerializedPool C))
      → is_loaded t ≡ false
      → Found saved again
      → Found ((t, j) ∷ saved) ((t, i) ∷ again)
  unfolding find_saved
  unread t j i saved again out same k h =
      let apart : t ≢ k =
        λ e. let bad : true ≡ false = sym h ∙ ap is_loaded (sym e) ∙ out in cc bad in
      if_neg (ComponentType-discrete t k) apart _ _
      ∙ same k h
      ∙ sym (if_neg (ComponentType-discrete t k) apart _ _)

module _ {C J : Type 0} (written : C → Option J) (read : ComponentType → J → Option C) where
  -- The components can be written, and those of a type that `load` reads come back.
  abbrev pub AllSurvive : ComponentType → List C → Type 0
  AllSurvive t [] = Unit {0}
  AllSurvive t (c ∷ cs) =
      ((j : J) × (written c ≡ some j) × (is_loaded t ≡ true → read t j ≡ some c)) × AllSurvive t cs

  -- The pools but that of the mesh renderers, which `save` writes by their names.
  abbrev pub PoolsSurvive : List (ComponentType × ComponentPool C) → Type 0
  PoolsSurvive [] = Unit {0}
  PoolsSurvive ((t, p) ∷ pools) =
      (is_mesh_renderer t ≡ false → AllSurvive t p.m_data) × PoolsSurvive pools

  survive_components :
      (t : ComponentType) (cs : List C)
      → AllSurvive t cs
      → (js : List J) × (convert_all written cs ≡ some js)
        × (is_loaded t ≡ true → convert_all (read t) js ≡ some cs)
  survive_components t [] h = ([], refl, λ l. refl)
  survive_components t (c ∷ cs) ((j, out, back), h) =
      let (js, outs, backs) = survive_components t cs h in
      (j ∷ js, rw (out, ◌>>=◌, outs) refl, λ l. rw (back l, ◌>>=◌, backs l) refl)

  survive_pools :
      (pools : List (ComponentType × ComponentPool C))
      → PoolsSurvive pools
      → (ws : List (ComponentType × SerializedPool J)) × (again : List
          (ComponentType × SerializedPool C))
        × (convert_all (write_pool written) (save_pools pools) ≡ some ws)
        × (convert_all (read_pool read) ws ≡ some again)
        × Found (save_pools pools) again
  unfolding save_pools serialize_pool find_saved
  survive_pools [] h = ([], [], refl, refl, λ k l. refl)
  survive_pools ((t, p) ∷ pools) (here, h) =
      let (ws, again, outs, backs, same) = survive_pools pools h in
      elim (Bool-cases (is_mesh_renderer t)) [
        | inl mesh ↦ (ws, again, rw mesh outs, backs, rw mesh same)
        | inr plain ↦
            let (js, out, back) = survive_components t p.m_data (here plain) in
            let j : SerializedPool J = record { entities = p.m_entities; components = js } in
            elim (Bool-cases (is_loaded t)) [
              | inl used ↦ (
                (t, j) ∷ ws,
                (t, serialize_pool p) ∷ again,
                rw (plain, out, ◌>>=◌, outs) refl,
                rw (used, back used, ◌>>=◌, backs) refl,
                rw plain (λ k l. ap (ite (ComponentType-discrete t k) (some _)) (same k l)),
              )
              | inr unused ↦ (
                (t, j) ∷ ws,
                (t, with_components j []) ∷ again,
                rw (plain, out, ◌>>=◌, outs) refl,
                rw (unused, ◌>>=◌, backs) refl,
                rw plain (unread t _ _ (save_pools pools) again unused same),
              )
            ]
      ]

  module _ (dumps : Str → Bool) (mesh_id : C → ℕ) (name_of : ℕ → Str) (mesh_renderer : ℕ → C)
      (find_mesh : Str → Option ℕ) (r : ComponentRegistry ComponentType C) where
    -- The names of the meshes can be written.
    abbrev pub NamesDumped : Type 0
    NamesDumped =
        (p : ComponentPool C)
        → pool_at mesh_renderer_type r ≡ some p
        → all_dumped dumps (map (λ c. name_of (mesh_id c)) p.m_data) ≡ true

    meshes_written :
        NamesDumped
        → write_meshes dumps (save_meshes mesh_id name_of (pool_at mesh_renderer_type r))
          ≡ some (save_meshes mesh_id name_of (pool_at mesh_renderer_type r))
    unfolding save_meshes
    meshes_written named = elim (Option-cases (pool_at mesh_renderer_type r)) [
      | inl out ↦ rw out refl
      | inr (p, at) ↦ rw (at, named p at) refl
    ]

    pub load_file-save_file :
        (s0 : ComponentRegistry ComponentType C)
        → PoolsWellFormed r.m_pools
        → MeshesKnown mesh_id name_of mesh_renderer find_mesh r
        → PoolsSurvive r.m_pools
        → NamesDumped
        → (file : Root J) × (s : ComponentRegistry ComponentType C) × (save_file written dumps
              mesh_id name_of r
            ≡ some file)
          × (load_file read mesh_renderer find_mesh file s0 ≡ some s)
          × ((k : ComponentType) (e : ℕ)
              → is_loaded k ≡ true
              → component ComponentType-discrete s k e ≡ component ComponentType-discrete r k e)
          × ((k : ComponentType) (e : ℕ)
              → is_loaded k ≡ false
              → component ComponentType-discrete s k e ≡ none)
    unfolding save_file load_file save
    load_file-save_file s0 w known survive named =
        let (ws, again, outs, backs, same) = survive_pools r.m_pools survive in
        let meshes = save_meshes mesh_id name_of (pool_at mesh_renderer_type r) in
        let (s, run, kept, gone) =
          load_lem mesh_id name_of mesh_renderer find_mesh r
            (record { pools = again; meshes = meshes })
            (λ k l plain. ap loaded (same k l) ∙ find_saved-save_pools k r.m_pools plain) refl s0 w
            known in
        (
          record { pools = ws; meshes = meshes },
          s,
          rw (outs, ◌>>=◌, meshes_written named) refl,
          rw (backs, ◌>>=◌) run,
          kept,
          gone,
        )
