-- ===== src/Resource/Cubemap.antt =====
-- The cubemaps of `ResourceManager`, modules/resource/resource_manager.cpp: which file is which face.
-- Reading the images and their upload are left out.
use esp32_particulate_sensor.Prelude.{
  ℕ, zero, suc, ◌<◌, ◌≡◌, ◌≢◌, refl, ◌∙◌, true, false, Option, none, some, List, [], ◌∷◌, ◌==◌,
  arith, replicate, set, length, length-set, get_elem?, get_elem?-set, Bool-cases, inl, inr,
  if◌then◌else◌,
}
use esp32_particulate_sensor.Prelude.Strings.{Str, contains_sub}
use esp32_particulate_sensor.Prelude.Maps.{str_keys, lookup, assign_key, lookup-assign_key_same}
use esp32_particulate_sensor.Filesystem.{get_file_name, string_to_lower}

-- "right", "left", "top", "bottom", "back" and "front"
abbrev pub right : Str
right = 114 ∷ 105 ∷ 103 ∷ 104 ∷ 116 ∷ []

abbrev pub left : Str
left = 108 ∷ 101 ∷ 102 ∷ 116 ∷ []

abbrev pub top : Str
top = 116 ∷ 111 ∷ 112 ∷ []

abbrev pub bottom : Str
bottom = 98 ∷ 111 ∷ 116 ∷ 116 ∷ 111 ∷ 109 ∷ []

abbrev pub back_face : Str
back_face = 98 ∷ 97 ∷ 99 ∷ 107 ∷ []

abbrev pub front : Str
front = 102 ∷ 114 ∷ 111 ∷ 110 ∷ 116 ∷ []

-- The face of a file by its lower-case name.
unfoldable pub face_of : Str → Option ℕ
face_of name =
    if contains_sub right name
    then some 0
    else if contains_sub left name
    then some 1
    else if contains_sub top name
    then some 2
    else if contains_sub bottom name
    then some 3
    else if contains_sub back_face name
    then some 4
    else if contains_sub front name
    then some 5
    else none

abbrev pub face_of_path : Str → Option ℕ
face_of_path path = face_of (string_to_lower (get_file_name path))

-- `data.texturePath` is a list of six paths.
unfoldable pub put_path : Option ℕ → List Str → Str → List Str
put_path none paths path = paths
put_path (some i) paths path = set paths i path

unfoldable pub map_cubemap_faces_ldr : List Str → Str → List Str
unfolding put_path
map_cubemap_faces_ldr paths path = put_path (face_of_path path) paths path

unfoldable pub map_all : List Str → List Str → List Str
unfolding map_cubemap_faces_ldr
map_all paths [] = paths
map_all paths (p ∷ ps) = map_all (map_cubemap_faces_ldr paths p) ps

-- `loadAndStoreCubemap` of six files, on `m_CubemapData`.
unfoldable pub load_and_store_cubemap :
    List (Str × List Str) → Str → List Str → List (Str × List Str)
unfolding map_all
load_and_store_cubemap cubemaps name paths =
    if length paths == 6
    then assign_key str_keys name (map_all (replicate 6 []) paths) cubemaps
    else cubemaps

face_of_below : (name : Str) (i : ℕ) → face_of name ≡ some i → i < 6
unfolding face_of
face_of_below name i h = ground arith

-- What stands at face `i` after a path with the face `face`, if it has one.
abbrev pub path_at : Option ℕ → ℕ → Str → Str → Str
path_at none i p path = path
path_at (some j) i p path = if j == i then p else path

-- The last of the paths with face `i`, else `path`.
abbrev pub last_for : ℕ → Str → List Str → Str
last_for i path [] = path
last_for i path (p ∷ ps) = last_for i (path_at (face_of_path p) i p path) ps

put_path_lem :
    (face : Option ℕ) (paths : List Str) (p : Str)
    → length paths ≡ 6
    → ((j : ℕ) → face ≡ some j → j < 6)
    → (length (put_path face paths p) ≡ 6)
      × ((i : ℕ) (path : Str)
          → get_elem? paths i ≡ some path
          → get_elem? (put_path face paths p) i ≡ some (path_at face i p path))
unfolding put_path
put_path_lem none paths p size low = (size, λ i path h. h)
put_path_lem (some j) paths p size low = (
  length-set paths j p ∙ size,
  λ i path h.
      get_elem?-set paths j i p (omega (arith, low j refl, size))
      ∙ elim (Bool-cases (j == i)) [ inl same ↦ rw same refl | inr other ↦ rw other h ],
)

map_all_lem :
    (paths ps : List Str)
    → length paths ≡ 6
    → (length (map_all paths ps) ≡ 6)
      × ((i : ℕ) (path : Str)
          → get_elem? paths i ≡ some path
          → get_elem? (map_all paths ps) i ≡ some (last_for i path ps))
unfolding map_all map_cubemap_faces_ldr
map_all_lem paths [] size = (size, λ i path h. h)
map_all_lem paths (p ∷ ps) size =
    let face = face_of_path p in
    let step = put_path_lem face paths p size (face_of_below (string_to_lower (get_file_name p))) in
    let rest = map_all_lem (put_path face paths p) ps step.0 in
    (rest.0, λ i path h. rest.1 i (path_at face i p path) (step.1 i path h))

-- A directory of six files becomes a cubemap of six faces under its name, each the last file that is
-- for this face, or empty where none is; a directory of any other number of files changes nothing.
pub load_and_store_cubemap_lem :
    (cubemaps : List (Str × List Str)) (name : Str) (paths : List Str)
    → (length paths ≡ 6
        → (faces : List Str) × (lookup str_keys name (load_and_store_cubemap cubemaps name paths)
            ≡ some faces)
          × (length faces ≡ 6)
          × ((i : ℕ) → i < 6 → get_elem? faces i ≡ some (last_for i [] paths)))
      × (length paths ≢ 6 → load_and_store_cubemap cubemaps name paths ≡ cubemaps)
unfolding load_and_store_cubemap
load_and_store_cubemap_lem cubemaps name paths = (
  λ six.
      let test : (length paths == 6) ≡ true = ground arith in
      let faces = map_all (replicate 6 []) paths in
      let mapped = map_all_lem (replicate 6 []) paths refl in
      (
        faces,
        rw test (lookup-assign_key_same str_keys name faces cubemaps),
        mapped.0,
        λ i low. mapped.1 i [] (empty_slot i low),
      ),
  λ other. let test : (length paths == 6) ≡ false = ground arith in rw test refl,
)
  where
    empty_slot : (i : ℕ) → i < 6 → get_elem? (replicate {A = Str} 6 []) i ≡ some []
    empty_slot zero h = refl
    empty_slot (suc zero) h = refl
    empty_slot (suc (suc zero)) h = refl
    empty_slot (suc (suc (suc zero))) h = refl
    empty_slot (suc (suc (suc (suc zero)))) h = refl
    empty_slot (suc (suc (suc (suc (suc zero))))) h = refl
    empty_slot (suc (suc (suc (suc (suc (suc i)))))) h = absurd (omega arith)
