-- ===== src/Rhi/Material/Tests.antt =====
-- Uniforms that are set in a material of modules/renderer_rhi/a_Material.hpp.
use esp32_particulate_sensor.Prelude.{ℕ, ◌≡◌, refl, [], ◌∷◌, Option, some, arith, map, ◌>>=◌}
use esp32_particulate_sensor.Prelude.Strings.{codes}
use esp32_particulate_sensor.Prelude.Maps.{lookup, str_keys}
use esp32_particulate_sensor.Rhi.Material.{
  Material, UniformData, new_material, set_parameter, submit_queue,
}
use esp32_particulate_sensor.Rhi.Material.Values.{Represents, put, set_parameter-Represents}

-- A type is its number here.
abbrev shaded : Material ℕ
shaded = record (new_material 1 []) {
  m_uniform_table = (codes "roughness", (4, 5)) ∷ (codes "metal", (7, 6)) ∷ [];
}

abbrev rough : Option (Material ℕ)
rough = set_parameter (codes "roughness") (1 ∷ 2 ∷ 3 ∷ 4 ∷ []) 5 shaded

-- Larger data under a name that holds four bytes overwrite the neighbour.
neighbour_overwritten :
    (rough >>= λ m. set_parameter (codes "metal") (9 ∷ 9 ∷ 9 ∷ 9 ∷ []) 6 m >>= λ n.
    set_parameter (codes "roughness") (1 ∷ 1 ∷ 1 ∷ 1 ∷ 1 ∷ 1 ∷ []) 5 n >>= λ k.
    some (map (λ (u : UniformData ℕ). u.data_bytes) (submit_queue k)))
    ≡ some ((1 ∷ 1 ∷ 1 ∷ 1 ∷ []) ∷ (1 ∷ 1 ∷ 9 ∷ 9 ∷ []) ∷ [])
unfolding set_parameter new_material lookup str_keys submit_queue
neighbour_overwritten = refl

roughness_known : lookup str_keys (codes "roughness") shaded.m_uniform_table ≡ some (4, 5)
unfolding lookup str_keys
roughness_known = refl

shaded-Represents : Represents shaded []
unfolding new_material
shaded-Represents = record { laid_out = refl; stored = refl }

set_parameter-Represents_example :
    (m' : Material ℕ) × (set_parameter (codes "roughness") (1 ∷ 2 ∷ 3 ∷ 4 ∷ []) 5 shaded ≡ some m')
    × Represents m' (put 4 5 (1 ∷ 2 ∷ 3 ∷ 4 ∷ []) [])
    × (submit_queue m' ≡ put 4 5 (1 ∷ 2 ∷ 3 ∷ 4 ∷ []) [])
    × (m'.m_uniform_table ≡ shaded.m_uniform_table)
unfolding new_material
set_parameter-Represents_example =
    set_parameter-Represents (codes "roughness") (1 ∷ 2 ∷ 3 ∷ 4 ∷ []) 5 5 shaded [] 4
      shaded-Represents roughness_known tt (omega arith)
