-- ===== src/Resource/Primitives.antt =====
-- `PrimitiveGenerator` of modules/resource/a_primitiveGenerator.hpp. Positions, normals and colours
-- are floats, which are left out: a vertex is the pair of counters that it is made from.
pub mod Cube
pub mod Sphere
use esp32_particulate_sensor.Prelude.{
  ℕ, zero, suc, ◌+◌, ◌-◌, ◌*◌, ◌%◌, ◌^◌, Bool, true, false, not, List, [], ◌∷◌, ◌++◌, length, ◌==◌,
  if◌then◌else◌,
}
use esp32_particulate_sensor.Resource.{Mesh}

-- The corner of a face, and the stack and sector of the sphere.
abbrev pub Vertex : Type 0
Vertex = ℕ × ℕ

-- One round of the loop over the faces: four corners, then six indices.
unfoldable pub add_face : Mesh Vertex → ℕ → Mesh Vertex
add_face m i =
    let offset = length m.vertexbuffer % 2 ^ 32 in
    record {
      vertexbuffer = m.vertexbuffer ++ (i, 0) ∷ (i, 1) ∷ (i, 2) ∷ (i, 3) ∷ [];
      index_buffer =
          m.index_buffer
          ++ (offset + 0)
            ∷ (offset + 2)
            ∷ (offset + 1)
            ∷ (offset + 0)
            ∷ (offset + 3)
            ∷ (offset + 2)
            ∷ [];
    }

-- The rounds from `i` on, `k` of them.
unfoldable pub add_faces : ℕ → ℕ → Mesh Vertex → Mesh Vertex
unfolding add_face
add_faces zero i m = m
add_faces (suc k) i m = add_faces k (i + 1) (add_face m i)

unfoldable pub generate_cube : Mesh Vertex
unfolding add_faces
generate_cube = add_faces 6 0 (record { vertexbuffer = []; index_buffer = [] })

unfoldable pub generate_plane : Mesh Vertex
generate_plane = record {
  vertexbuffer = (0, 0) ∷ (0, 1) ∷ (0, 2) ∷ (0, 3) ∷ [];
  index_buffer = 0 ∷ 1 ∷ 2 ∷ 0 ∷ 2 ∷ 3 ∷ [];
}

-- The loops over the vertices of the sphere: the sectors of a stack, and the stacks.
unfoldable pub sphere_row : ℕ → ℕ → ℕ → List Vertex
sphere_row i zero j = []
sphere_row i (suc k) j = (i, j) ∷ sphere_row i k (j + 1)

unfoldable pub sphere_vertices : ℕ → ℕ → ℕ → List Vertex
unfolding sphere_row
sphere_vertices sectors zero i = []
sphere_vertices sectors (suc k) i =
    sphere_row i (sectors + 1) 0 ++ sphere_vertices sectors k (i + 1)

-- The indices of one sector of stack `i`, the loop over the sectors, and that over the stacks.
unfoldable pub sector_indices : ℕ → ℕ → ℕ → ℕ → List ℕ
sector_indices stacks i k1 k2 =
    (if i == 0 then [] else k1 ∷ k2 ∷ (k1 + 1) ∷ [])
    ++ (if i == stacks - 1 then [] else (k1 + 1) ∷ k2 ∷ (k2 + 1) ∷ [])

unfoldable pub stack_indices : ℕ → ℕ → ℕ → ℕ → ℕ → List ℕ
unfolding sector_indices
stack_indices stacks i zero k1 k2 = []
stack_indices stacks i (suc k) k1 k2 =
    sector_indices stacks i k1 k2 ++ stack_indices stacks i k (k1 + 1) (k2 + 1)

unfoldable pub sphere_indices : ℕ → ℕ → ℕ → ℕ → List ℕ
unfolding stack_indices
sphere_indices sectors stacks zero i = []
sphere_indices sectors stacks (suc k) i =
    let k1 = i * (sectors + 1) in
    stack_indices stacks i sectors k1 (k1 + sectors + 1) ++ sphere_indices sectors stacks k (i + 1)

-- `generateSphere`, for any numbers of sectors and stacks; the source has 32 of each.
unfoldable pub sphere_of : ℕ → ℕ → Mesh Vertex
unfolding sphere_vertices sphere_indices
sphere_of sectors stacks = record {
  vertexbuffer = sphere_vertices sectors (stacks + 1) 0;
  index_buffer = sphere_indices sectors stacks stacks 0;
}

unfoldable pub generate_sphere : Mesh Vertex
unfolding sphere_of
generate_sphere = sphere_of 32 32
