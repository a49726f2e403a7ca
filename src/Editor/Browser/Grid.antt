-- ===== src/Editor/Browser/Grid.antt =====
-- The tiles that gui/Panels/a_BrowserPanel.cpp shows, over the tables of the resource manager.
use esp32_particulate_sensor.Prelude.{
  ℕ, suc, ◌≡◌, refl, Bool, true, false, Option, some, List, [], ◌∷◌, if◌then◌else◌, is_some,
}
use esp32_particulate_sensor.Prelude.Strings.{Str}
use esp32_particulate_sensor.Filesystem.{DeviceType}
use esp32_particulate_sensor.Resource.{Mesh, ResourceManager, get_mesh_by_id, get_mesh_name_by_id}
use esp32_particulate_sensor.Scene.Entities.{Components}
use esp32_particulate_sensor.Editor.Browser.{is_hidden, box_around, get_aabb}

abbrev pub is_nonempty : {A : Type 0} → List A → Bool
is_nonempty [] = false
is_nonempty (x ∷ xs) = true

abbrev pub has_vertices : {V : Type 0} → Mesh V → Bool
has_vertices mesh = is_nonempty mesh.vertexbuffer

is_some-box_around :
    {V C : Type 0} (box_of : V → List V → C) (vs : List V)
    → is_some (box_around box_of vs) ≡ is_nonempty vs
is_some-box_around box_of [] = refl
is_some-box_around box_of (v ∷ vs) = refl

pub is_some-get_aabb :
    {V C : Type 0} (box_of : V → List V → C) (mesh : Mesh V)
    → is_some (get_aabb box_of mesh) ≡ has_vertices mesh
is_some-get_aabb box_of mesh = is_some-box_around box_of mesh.vertexbuffer

-- Every mesh that the resource manager holds has a vertex.
abbrev pub MeshesDrawn : {V G : Type 0} → ResourceManager V G → Type 0
MeshesDrawn {V} r =
    (id : ℕ) (mesh : Mesh V) → get_mesh_by_id r id ≡ some mesh → has_vertices mesh ≡ true

module _ {V G C P : Type 0} (make : Components C) (transform_at : P → C) (box_of : V → List V → C)
    (icon_of : DeviceType → Option ℕ) where
  -- The places in a list of models, counted from `i`, whose name the search does not hide.
  abbrev pub matching : ResourceManager V G → Str → ℕ → List ℕ → List ℕ
  matching r query i [] = []
  matching r query i (id ∷ ids) =
      let rest = matching r query (suc i) ids in
      if is_hidden query (get_mesh_name_by_id r id) then rest else i ∷ rest
