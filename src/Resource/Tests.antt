-- ===== src/Resource/Tests.antt =====
-- Runs of modules/resource/resource_manager.cpp, and the theorems at small inputs.
use esp32_particulate_sensor.Prelude.{
  ◌++◌, ◌+◌, ℕ, ◌^◌, ◌<◌, ◌≡◌, refl, some, none, [], ◌∷◌, arith, length, List,
}
use esp32_particulate_sensor.Prelude.Strings.{Str}
use esp32_particulate_sensor.Filesystem.{get_file_name}
use esp32_particulate_sensor.Resource.{
  Mesh, ResourceManager, AiMesh, AiScene, AiNode, node, no_nodes, more_nodes, new_manager,
  empty_mesh, register_custom_mesh, load_scene, process_node, try_get_mesh_id_by_name,
  append_meshes, append_mesh, shift_faces,
}
use esp32_particulate_sensor.Resource.Valid.{new_manager-IsValid}
use esp32_particulate_sensor.Resource.Registration.{
  IsRegistered, IsLoaded, register_custom_mesh_lem, load_scene_lem,
}
use esp32_particulate_sensor.Resource.Nodes.{InBounds, process_node_lem}
use esp32_particulate_sensor.Prelude.Strings.{find_last}
use esp32_particulate_sensor.Resource.Caches.{Caches}
use esp32_particulate_sensor.Resource.Cubemap.{
  right, left, top, bottom, back_face, front, face_of, face_of_path,
}

abbrev start : ResourceManager ℕ ℕ
start = new_manager

abbrev triangle : Mesh ℕ
triangle = record { vertexbuffer = 7 ∷ 8 ∷ 9 ∷ []; index_buffer = 0 ∷ 1 ∷ 2 ∷ [] }

-- "a"
abbrev name : Str
name = 97 ∷ []

register_custom_mesh_lem_example :
    IsRegistered
      (λ m. length m.vertexbuffer)
      start
      name
      empty_mesh
      (register_custom_mesh (λ m. length m.vertexbuffer) start triangle name)
unfolding new_manager
register_custom_mesh_lem_example =
    register_custom_mesh_lem (λ m. length m.vertexbuffer) start triangle empty_mesh name
      new_manager-IsValid (omega arith)

abbrev ai : AiMesh ℕ
ai = record { m_vertices = 7 ∷ 8 ∷ []; m_faces = (0 ∷ 1 ∷ 1 ∷ []) ∷ []; m_material_index = 1 }

-- The second material adds 10.
abbrev ai_scene : AiScene ℕ
ai_scene = record { m_meshes = ai ∷ []; m_materials = (λ v. v) ∷ (λ v. v + 10) ∷ [] }

abbrev root : AiNode
root = node (0 ∷ []) (more_nodes (node (0 ∷ []) no_nodes) no_nodes)

-- The second copy's indices are moved by the first one's vertices.
abbrev twice : Mesh ℕ
twice = record { vertexbuffer = 17 ∷ 18 ∷ 17 ∷ 18 ∷ []; index_buffer = 0 ∷ 1 ∷ 1 ∷ 2 ∷ 3 ∷ 3 ∷ [] }

twice_processed : process_node ai_scene root empty_mesh ≡ some twice
unfolding process_node append_meshes append_mesh shift_faces
twice_processed = refl

load_scene_lem_example :
    ((s : ResourceManager ℕ ℕ) × (load_scene (some (ai_scene, root)) start name ≡ some s)
      × IsLoaded start name s)
    × ((id : ℕ)
        → try_get_mesh_id_by_name start (get_file_name name) ≡ some id
        → load_scene (some (ai_scene, root)) start name ≡ some start)
    × (load_scene none start name ≡ none)
unfolding new_manager process_node append_meshes append_mesh shift_faces
load_scene_lem_example =
    load_scene_lem ai_scene root start name twice new_manager-IsValid (omega arith) refl

process_node_lem_example :
    (out : Mesh ℕ) × (process_node ai_scene root empty_mesh ≡ some out)
    × (length out.vertexbuffer < 2 ^ 32 → InBounds out)
process_node_lem_example =
    process_node_lem ai_scene root (((omega arith, (omega arith, (omega arith, tt))), tt), tt)
      (omega arith, tt) ((omega arith, tt), (((omega arith, tt), tt), tt))

-- A cache with one program.
abbrev caches : Caches ℕ
caches = record { m_rhi_shaders = (name, 5) ∷ []; m_materials = []; created = []; destroyed = [] }

-- "top" twice and "bright_left", which is taken for the right face.
abbrev paths : List Str
paths = top ∷ (98 ∷ (right ++ 95 ∷ left)) ∷ bottom ∷ back_face ∷ front ∷ top ∷ []

bright_left : face_of_path (98 ∷ (right ++ 95 ∷ left)) ≡ some 0
unfolding face_of get_file_name find_last
bright_left = refl
