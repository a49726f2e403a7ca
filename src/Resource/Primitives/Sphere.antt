-- ===== src/Resource/Primitives/Sphere.antt =====
-- The sphere of modules/resource/a_primitiveGenerator.hpp: its vertices and the bounds of its indices.
use esp32_particulate_sensor.Prelude.{
  ℕ, zero, suc, ◌+◌, ◌-◌, ◌*◌, ◌<◌, ◌≤◌, ◌≡◌, refl, ap, [], ◌∷◌, length, length-append, ◌==◌,
  if◌then◌else◌, arith, Bool-cases, inl, inr,
}
use esp32_particulate_sensor.Resource.Nodes.{AllBelow, AllBelow-append, InBounds}
use esp32_particulate_sensor.Resource.Primitives.{
  sphere_row, sphere_vertices, sector_indices, stack_indices, sphere_indices, sphere_of,
}

length-sphere_row : (i k j : ℕ) → length (sphere_row i k j) ≡ k
unfolding sphere_row
length-sphere_row i zero j = refl
length-sphere_row i (suc k) j = ap suc (length-sphere_row i k (j + 1))

length-sphere_vertices :
    (sectors k i : ℕ) → length (sphere_vertices sectors k i) ≡ k * (sectors + 1)
unfolding sphere_vertices
length-sphere_vertices sectors zero i = omega arith
length-sphere_vertices sectors (suc k) i = omega (
  arith,
  length-append (sphere_row i (sectors + 1) 0) (sphere_vertices sectors k (i + 1)),
  length-sphere_row i (sectors + 1) 0,
  length-sphere_vertices sectors k (i + 1),
)

sector_indices-AllBelow :
    (n stacks i k1 k2 : ℕ) → k1 < k2 → k2 + 1 < n → AllBelow n (sector_indices stacks i k1 k2)
unfolding sector_indices
sector_indices-AllBelow n stacks i k1 k2 order room =
    AllBelow-append n (if i == 0 then [] else k1 ∷ k2 ∷ (k1 + 1) ∷ [])
      (if i == stacks - 1 then [] else (k1 + 1) ∷ k2 ∷ (k2 + 1) ∷ [])
      (elim (Bool-cases (i == 0)) [
        | inl pole ↦ rw pole tt
        | inr inside ↦ rw inside (omega arith, (omega arith, (omega arith, tt)))
      ])
      (elim (Bool-cases (i == stacks - 1)) [
        | inl pole ↦ rw pole tt
        | inr inside ↦ rw inside (omega arith, (omega arith, (omega arith, tt)))
      ])

stack_indices-AllBelow :
    (n stacks i k k1 k2 : ℕ) → k1 < k2 → k2 + k < n → AllBelow n (stack_indices stacks i k k1 k2)
unfolding stack_indices
stack_indices-AllBelow n stacks i zero k1 k2 order room = tt
stack_indices-AllBelow n stacks i (suc k) k1 k2 order room =
    AllBelow-append n (sector_indices stacks i k1 k2) (stack_indices stacks i k (k1 + 1) (k2 + 1))
      (sector_indices-AllBelow n stacks i k1 k2 order (omega arith))
      (stack_indices-AllBelow n stacks i k (k1 + 1) (k2 + 1) (omega arith) (omega arith))

sphere_indices-AllBelow :
    (n sectors stacks k i : ℕ)
    → (i + k + 1) * (sectors + 1) ≤ n
    → AllBelow n (sphere_indices sectors stacks k i)
unfolding sphere_indices
sphere_indices-AllBelow n sectors stacks zero i room = tt
sphere_indices-AllBelow n sectors stacks (suc k) i room =
    let k1 = i * (sectors + 1) in
    AllBelow-append n (stack_indices stacks i sectors k1 (k1 + sectors + 1))
      (sphere_indices sectors stacks k (i + 1))
      (stack_indices-AllBelow n stacks i sectors k1 (k1 + sectors + 1) (omega arith) (omega arith))
      (sphere_indices-AllBelow n sectors stacks k (i + 1) (omega arith))

-- The sphere has a vertex for each corner of its grid of stacks and sectors, and every index is that
-- of a vertex.
pub sphere_of-InBounds :
    (sectors stacks : ℕ)
    → (length (sphere_of sectors stacks).vertexbuffer ≡ (stacks + 1) * (sectors + 1))
      × InBounds (sphere_of sectors stacks)
unfolding sphere_of
sphere_of-InBounds sectors stacks = (
  length-sphere_vertices sectors (stacks + 1) 0,
  sphere_indices-AllBelow (length (sphere_vertices sectors (stacks + 1) 0)) sectors stacks stacks 0
      (omega (arith, length-sphere_vertices sectors (stacks + 1) 0)),
)
