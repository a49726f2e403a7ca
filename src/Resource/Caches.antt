-- ===== src/Resource/Caches.antt =====
-- The shader and material caches of `ResourceManager`, modules/resource/resource_manager.cpp. The
-- graphics context is a parameter: `create` gives the handle of a new program, `make` a material.
use mathlib.Core.Path.{subst}
use esp32_particulate_sensor.Prelude.{
  ◌++◌, ℕ, ◌≡◌, refl, sym, false, Option, none, some, List, [], ◌∷◌, Option-cases, inl, inr, map,
}
use esp32_particulate_sensor.Prelude.Strings.{Str, eq_str}
use esp32_particulate_sensor.Prelude.Maps.{
  str_keys, lookup, assign_key, lookup-assign_key_same, lookup-assign_key_other,
}

pub record Caches (M : Type 0) : Type 0 where
  pub m_rhi_shaders : List (Str × ℕ)
  pub m_materials : List (Str × M)
  pub created : List (Str × ℕ)
  pub destroyed : List ℕ

module _ {M : Type 0} where
  -- `loadShaderRHI` and `loadComputeShaderRHI`: the cache is asked first, and the context makes the
  -- program of the path, or paths, `source`.
  unfoldable pub load_shader_rhi : (Str → ℕ) → Caches M → Str → Str → ℕ × Caches M
  load_shader_rhi create c name source = elim (lookup str_keys name c.m_rhi_shaders) [
    | some handle ↦ (handle, c)
    | none ↦ (
      create source,
      record c {
        m_rhi_shaders = assign_key str_keys name (create source) c.m_rhi_shaders;
        created = c.created ++ (source, create source) ∷ [];
      },
    )
  ]

  -- The handle 0 where the name is unknown.
  unfoldable pub get_shader_rhi : Caches M → Str → ℕ
  get_shader_rhi c name = elim (lookup str_keys name c.m_rhi_shaders) [
    | none ↦ 0
    | some handle ↦ handle
  ]

  unfoldable pub create_material : (ℕ → M) → Caches M → Str → ℕ → M × Caches M
  create_material make c name handle = elim (lookup str_keys name c.m_materials) [
    | some material ↦ (material, c)
    | none ↦ (
      make handle,
      record c { m_materials = assign_key str_keys name (make handle) c.m_materials },
    )
  ]

  unfoldable pub get_material : Caches M → Str → Option M
  get_material c name = lookup str_keys name c.m_materials

  -- The handles go in the order of the list; the hash map's own order is not specified.
  unfoldable pub destroy_rhi_resources : Caches M → Caches M
  destroy_rhi_resources c = record c {
    destroyed = c.destroyed ++ map (λ e. e.1) c.m_rhi_shaders;
    m_rhi_shaders = [];
    m_materials = [];
  }

  load_known :
      (create : Str → ℕ) (c : Caches M) (name source : Str) (handle : ℕ)
      → lookup str_keys name c.m_rhi_shaders ≡ some handle
      → load_shader_rhi create c name source ≡ (handle, c)
  unfolding load_shader_rhi
  load_known create c name source handle h = rw (load_shader_rhi, h) refl

  load_new :
      (create : Str → ℕ) (c : Caches M) (name source : Str)
      → lookup str_keys name c.m_rhi_shaders ≡ none
      → load_shader_rhi create c name source ≡ (
        create source,
        record c {
          m_rhi_shaders = assign_key str_keys name (create source) c.m_rhi_shaders;
          created = c.created ++ (source, create source) ∷ [];
        },
      )
  unfolding load_shader_rhi
  load_new create c name source h = rw (load_shader_rhi, h) refl

  -- What loading a program under `name` promises.
  abbrev pub IsCached : (Str → ℕ) → Caches M → Str → ℕ × Caches M → Type 0
  IsCached create c name (handle, d) =
      (get_shader_rhi d name ≡ handle)
      × ((other_source : Str) → load_shader_rhi create d name other_source ≡ (handle, d))
      × ((other : Str)
          → eq_str name other ≡ false
          → get_shader_rhi d other ≡ get_shader_rhi c other)

  -- A loaded program is found under its name; loading the name again, from whatever source, gives the
  -- same handle, creates nothing and changes nothing; other names keep their programs.
  pub load_shader_rhi_lem :
      (create : Str → ℕ) (c : Caches M) (name source : Str)
      → IsCached create c name (load_shader_rhi create c name source)
  unfolding get_shader_rhi str_keys
  load_shader_rhi_lem create c name source =
      elim (Option-cases (lookup str_keys name c.m_rhi_shaders)) [
        | inr (handle, known) ↦
            subst (IsCached create c name) (sym (load_known create c name source handle known)) (
              rw (get_shader_rhi, known) refl,
              λ other_source. load_known create c name other_source handle known,
              λ other apart. refl,
            )
        | inl new ↦
            let shaders = assign_key str_keys name (create source) c.m_rhi_shaders in
            let d = record c {
              m_rhi_shaders = shaders;
              created = c.created ++ (source, create source) ∷ [];
            } in
            let found = lookup-assign_key_same str_keys name (create source) c.m_rhi_shaders in
            subst (IsCached create c name) (sym (load_new create c name source new)) (
              rw (get_shader_rhi, found) refl,
              λ other_source. load_known create d name other_source (create source) found,
              λ other apart.
                  rw
                    (
                      get_shader_rhi,
                      lookup-assign_key_other str_keys name other (create source) c.m_rhi_shaders
                          apart,
                    )
                    refl,
            )
      ]
