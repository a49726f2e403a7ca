-- ===== src/Resource.antt =====
-- The meshes of `ResourceManager`, modules/resource/resource_manager.h and resource_manager.cpp, with
-- `Mesh` of modules/definitions/Math/a_geometry.hpp. `V` is the type of a vertex, `G` that of a GPU
-- handle; the scenes that Assimp reads, and the upload `createMesh`, are parameters. `none` is the
-- exception of `at`, or one that the code throws. Ids are u32.
pub mod Valid
pub mod Registration
pub mod Nodes
pub mod Caches
pub mod Cubemap
pub mod Primitives
pub mod Tests
use esp32_particulate_sensor.Prelude.{
  ℕ, ◌+◌, ◌%◌, ◌^◌, Bool, true, false, Option, none, some, List, [], ◌∷◌, ◌++◌, if◌then◌else◌,
  ◌>>=◌, length, get_elem?, is_some, map,
}
use esp32_particulate_sensor.Prelude.Strings.{Str}
use esp32_particulate_sensor.Prelude.Maps.{str_keys, nat_keys, lookup, assign_key}
use esp32_particulate_sensor.Filesystem.{
  DeviceType, default_device, find_device_type_by_path, get_file_name,
}

pub record Mesh (V : Type 0) : Type 0 where
  pub vertexbuffer : List V
  pub index_buffer : List ℕ

pub record ModelRecord : Type 0 where
  pub mesh_id : ℕ
  pub name : Str
  pub type : DeviceType

pub record ResourceManager (V G : Type 0) : Type 0 where
  pub m_meshes : List (ℕ × Mesh V)
  pub m_gpu_meshes : List (ℕ × G)
  pub m_model_records : List (ℕ × ModelRecord)
  pub m_model_index_list : List ℕ
  pub m_mesh_id_by_name : List (Str × ℕ)
  pub m_next_mesh_id : ℕ

-- What the code reads of Assimp's `aiMesh`: its vertices, already turned into the engine's but for the
-- color, the indices of its faces, and the number of its material.
pub record AiMesh (V : Type 0) : Type 0 where
  pub m_vertices : List V
  pub m_faces : List (List ℕ)
  pub m_material_index : ℕ

-- `aiScene`: its meshes, and its materials, each as the color that it gives to a vertex.
pub record AiScene (V : Type 0) : Type 0 where
  pub m_meshes : List (AiMesh V)
  pub m_materials : List (V → V)

-- `aiNode`: the numbers of its meshes, and its children.
mutual
  pub data AiNode : Type 0 where
    node : List ℕ → AiNodes → AiNode

  pub data AiNodes : Type 0 where
    no_nodes : AiNodes
    more_nodes : AiNode → AiNodes → AiNodes

abbrev pub empty_mesh : {V : Type 0} → Mesh V
empty_mesh = record { vertexbuffer = []; index_buffer = [] }

-- The index buffer of a mesh, moved to where its vertices stand; u32 additions.
unfoldable pub shift_faces : ℕ → List (List ℕ) → List ℕ
shift_faces base [] = []
shift_faces base (face ∷ faces) = map (λ i. (base + i) % 2 ^ 32) face ++ shift_faces base faces

module _ {V : Type 0} where
  unfoldable pub append_mesh : Mesh V → AiMesh V → (V → V) → Mesh V
  unfolding shift_faces
  append_mesh mesh ai material = record {
    vertexbuffer = mesh.vertexbuffer ++ map material ai.m_vertices;
    index_buffer = mesh.index_buffer ++ shift_faces (length mesh.vertexbuffer % 2 ^ 32) ai.m_faces;
  }

  -- The loop over the meshes of a node; `none` is the number of a mesh or of a material that is out of
  -- the scene's range.
  unfoldable pub append_meshes : AiScene V → List ℕ → Mesh V → Option (Mesh V)
  unfolding append_mesh
  append_meshes scene [] mesh = some mesh
  append_meshes scene (n ∷ ns) mesh = get_elem? scene.m_meshes n >>= λ ai.
      get_elem? scene.m_materials ai.m_material_index >>= λ material.
      append_meshes scene ns (append_mesh mesh ai material)

  unfoldable mutual
    unfolding append_meshes

    pub process_node : AiScene V → AiNode → Mesh V → Option (Mesh V)
    process_node scene (node meshes children) mesh =
        append_meshes scene meshes mesh >>= process_nodes scene children

    pub process_nodes : AiScene V → AiNodes → Mesh V → Option (Mesh V)
    process_nodes scene no_nodes mesh = some mesh
    process_nodes scene (more_nodes n ns) mesh =
        process_node scene n mesh >>= process_nodes scene ns

module _ {V G : Type 0} where
  unfoldable pub new_manager : ResourceManager V G
  new_manager = record {
    m_meshes = [];
    m_gpu_meshes = [];
    m_model_records = [];
    m_model_index_list = [];
    m_mesh_id_by_name = [];
    m_next_mesh_id = 0;
  }

  -- What `registerCustomMesh` and `loadScene` write for a new name, beside the GPU handle.
  unfoldable pub enter_model : ResourceManager V G → Str → DeviceType → Mesh V → ResourceManager V G
  enter_model r name type mesh =
      let id = r.m_next_mesh_id in
      record r {
        m_next_mesh_id = (id + 1) % 2 ^ 32;
        m_meshes = assign_key nat_keys id mesh r.m_meshes;
        m_model_records =
            assign_key nat_keys id (record { mesh_id = id; name = name; type = type })
              r.m_model_records;
        m_model_index_list = r.m_model_index_list ++ id ∷ [];
        m_mesh_id_by_name = assign_key str_keys name id r.m_mesh_id_by_name;
      }

  unfoldable pub register_custom_mesh :
      (Mesh V → G) → ResourceManager V G → Mesh V → Str → ℕ × ResourceManager V G
  unfolding enter_model
  register_custom_mesh create_mesh r mesh name = elim (lookup str_keys name r.m_mesh_id_by_name) [
    | some id ↦ (id, r)
    | none ↦ (
      r.m_next_mesh_id,
      record (enter_model r name default_device mesh) {
        m_gpu_meshes = assign_key nat_keys r.m_next_mesh_id (create_mesh mesh) r.m_gpu_meshes;
      },
    )
  ]

  -- `loadScene`; `scene` is what the importer reads, `none` for its failure.
  unfoldable pub load_scene :
      Option (AiScene V × AiNode) → ResourceManager V G → Str → Option (ResourceManager V G)
  unfolding enter_model process_node
  load_scene none r path = none
  load_scene (some (scene, root)) r path =
      let name = get_file_name path in
      if is_some (lookup str_keys name r.m_mesh_id_by_name)
      then some r
      else (process_node scene root empty_mesh >>= λ mesh.
          some (enter_model r name (find_device_type_by_path path) mesh))

  unfoldable pub get_mesh_index_size_by_id : ResourceManager V G → ℕ → ℕ
  get_mesh_index_size_by_id r id = elim (lookup nat_keys id r.m_meshes) [
    | none ↦ 0
    | some mesh ↦ length mesh.index_buffer % 2 ^ 32
  ]

  unfoldable pub get_mesh_by_id : ResourceManager V G → ℕ → Option (Mesh V)
  get_mesh_by_id r id = lookup nat_keys id r.m_meshes

  unfoldable pub get_mesh_name_by_id : ResourceManager V G → ℕ → Str
  get_mesh_name_by_id r id = elim (lookup nat_keys id r.m_model_records) [
    | none ↦ []
    | some m ↦ m.name
  ]

  unfoldable pub try_get_mesh_id_by_name : ResourceManager V G → Str → Option ℕ
  try_get_mesh_id_by_name r name = lookup str_keys name r.m_mesh_id_by_name

  unfoldable pub get_model_count : ResourceManager V G → ℕ
  get_model_count r = length r.m_model_records % 2 ^ 32

  unfoldable pub get_model_data : ResourceManager V G → ℕ → Option ModelRecord
  get_model_data r index =
      get_elem? r.m_model_index_list index >>= λ id. lookup nat_keys id r.m_model_records
