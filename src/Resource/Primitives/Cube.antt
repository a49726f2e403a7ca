-- ===== src/Resource/Primitives/Cube.antt =====
-- The cube of modules/resource/a_primitiveGenerator.hpp.
use esp32_particulate_sensor.Prelude.{
  Bool, true, ltb, ◌&&◌, ℕ, ◌*◌, ◌≡◌, refl, List, [], ◌∷◌, length, arith,
}
use esp32_particulate_sensor.Resource.Nodes.{AllBelow, InBounds}
use esp32_particulate_sensor.Resource.Primitives.{
  add_face, add_faces, generate_cube, generate_plane,
}

abbrev all_below : ℕ → List ℕ → Bool
all_below n [] = true
all_below n (i ∷ is) = ltb i n && all_below n is

AllBelow-all_below : (n : ℕ) (xs : List ℕ) → all_below n xs ≡ true → AllBelow n xs
AllBelow-all_below n [] h = tt
AllBelow-all_below n (i ∷ is) h = (ground arith, AllBelow-all_below n is (ground arith))

-- The cube has four vertices and six indices for each of its faces, the plane has those of one face,
-- and every index of both is that of a vertex.
pub generate_cube_lem :
    (length generate_cube.vertexbuffer ≡ 6 * 4)
    × (length generate_cube.index_buffer ≡ 6 * 6)
    × InBounds generate_cube
    × InBounds generate_plane
unfolding generate_cube add_faces add_face generate_plane
generate_cube_lem = (
  refl,
  refl,
  AllBelow-all_below 24 generate_cube.index_buffer refl,
  AllBelow-all_below 4 generate_plane.index_buffer refl,
)
