-- ===== src/Resource/Registration.antt =====
-- `registerCustomMesh` and `loadScene` of modules/resource/resource_manager.cpp on the tables.
use mathlib.Core.Path.{subst}
use esp32_particulate_sensor.Prelude.{
  ◌∙◌, ℕ, ◌+◌, ◌^◌, ◌<◌, ◌≡◌, refl, sym, false, none, some, List, inl, inr, Option-cases, true,
}
use esp32_particulate_sensor.Prelude.Strings.{Str, eq_str}
use esp32_particulate_sensor.Prelude.Maps.{
  str_keys, nat_keys, lookup, assign_key, lookup-assign_key_same, lookup-assign_key_other,
}
use esp32_particulate_sensor.Filesystem.{
  DeviceType, default_device, get_file_name, find_device_type_by_path,
}
use esp32_particulate_sensor.Resource.{
  Mesh, ResourceManager, AiScene, AiNode, enter_model, register_custom_mesh,
  try_get_mesh_id_by_name, get_mesh_name_by_id, get_mesh_by_id, load_scene, process_node,
  empty_mesh,
}
use esp32_particulate_sensor.Resource.Valid.{IsValid, new_record, enter_model-IsValid}

module _ {V G : Type 0} where
  -- What a new model's name and id lead to.
  enter_model_lem :
      (r : ResourceManager V G) (name : Str) (type : DeviceType) (mesh : Mesh V)
      → let s = enter_model r name type mesh in
        (try_get_mesh_id_by_name s name ≡ some r.m_next_mesh_id)
        × (get_mesh_name_by_id s r.m_next_mesh_id ≡ name)
        × (get_mesh_by_id s r.m_next_mesh_id ≡ some mesh)
        × ((other : Str)
            → eq_str name other ≡ false
            → try_get_mesh_id_by_name s other ≡ try_get_mesh_id_by_name r other)
  unfolding enter_model try_get_mesh_id_by_name get_mesh_name_by_id get_mesh_by_id str_keys
  enter_model_lem r name type mesh = (
    lookup-assign_key_same str_keys name r.m_next_mesh_id r.m_mesh_id_by_name,
    rw
        (
          get_mesh_name_by_id,
          lookup-assign_key_same nat_keys r.m_next_mesh_id (new_record r name type)
              r.m_model_records,
        )
        refl,
    lookup-assign_key_same nat_keys r.m_next_mesh_id mesh r.m_meshes,
    λ other apart.
        lookup-assign_key_other str_keys name other r.m_next_mesh_id r.m_mesh_id_by_name apart,
  )

  register_known :
      (create_mesh : Mesh V → G) (r : ResourceManager V G) (mesh : Mesh V) (name : Str) (id : ℕ)
      → lookup str_keys name r.m_mesh_id_by_name ≡ some id
      → register_custom_mesh create_mesh r mesh name ≡ (id, r)
  unfolding register_custom_mesh
  register_known create_mesh r mesh name id h = rw (register_custom_mesh, h) refl

  register_new :
      (create_mesh : Mesh V → G) (r : ResourceManager V G) (mesh : Mesh V) (name : Str)
      → lookup str_keys name r.m_mesh_id_by_name ≡ none
      → register_custom_mesh create_mesh r mesh name ≡ (
        r.m_next_mesh_id,
        record (enter_model r name default_device mesh) {
          m_gpu_meshes = assign_key nat_keys r.m_next_mesh_id (create_mesh mesh) r.m_gpu_meshes;
        },
      )
  unfolding register_custom_mesh
  register_new create_mesh r mesh name h = rw (register_custom_mesh, h) refl

  -- The handles of the GPU are not part of what must fit together.
  with_gpu-IsValid :
      (r : ResourceManager V G) (g : List (ℕ × G))
      → IsValid r
      → IsValid (record r { m_gpu_meshes = g })
  with_gpu-IsValid r g v = record {
    named = v.named;
    recorded = v.recorded;
    listed = v.listed;
    distinct = v.distinct;
    counted = v.counted;
  }

  -- What registering `name` promises of the result, from the manager `r`.
  abbrev pub IsRegistered :
      (Mesh V → G) → ResourceManager V G → Str → Mesh V → ℕ × ResourceManager V G → Type 0
  IsRegistered create_mesh r name mesh' (id, s) =
      IsValid s
      × (try_get_mesh_id_by_name s name ≡ some id)
      × (get_mesh_name_by_id s id ≡ name)
      × (register_custom_mesh create_mesh s mesh' name ≡ (id, s))
      × ((other : Str)
          → eq_str name other ≡ false
          → try_get_mesh_id_by_name s other ≡ try_get_mesh_id_by_name r other)

  -- While the ids last, `registerCustomMesh` keeps the tables valid and returns an id that the name
  -- leads to and that leads to the name; a second registration of the name returns the same id and
  -- changes nothing; every other name leads where it led.
  pub register_custom_mesh_lem :
      (create_mesh : Mesh V → G) (r : ResourceManager V G) (mesh mesh' : Mesh V) (name : Str)
      → IsValid r
      → r.m_next_mesh_id + 1 < 2 ^ 32
      → IsRegistered create_mesh r name mesh' (register_custom_mesh create_mesh r mesh name)
  unfolding try_get_mesh_id_by_name get_mesh_name_by_id
  register_custom_mesh_lem create_mesh r mesh mesh' name v room =
      elim (Option-cases (lookup str_keys name r.m_mesh_id_by_name)) [
        | inr (id, known) ↦
            let (m, found, same) = v.named name id known in
            subst (IsRegistered create_mesh r name mesh')
              (sym (register_known create_mesh r mesh name id known))
              (
                v,
                known,
                rw (get_mesh_name_by_id, found) same,
                register_known create_mesh r mesh' name id known,
                λ other apart. refl,
              )
        | inl new ↦
            let s = enter_model r name default_device mesh in
            let g = assign_key nat_keys r.m_next_mesh_id (create_mesh mesh) r.m_gpu_meshes in
            let entered = enter_model_lem r name default_device mesh in
            subst (IsRegistered create_mesh r name mesh')
              (sym (register_new create_mesh r mesh name new))
              (
                with_gpu-IsValid s g (enter_model-IsValid r name default_device mesh v new room),
                entered.0,
                entered.1,
                register_known create_mesh (record s { m_gpu_meshes = g }) mesh' name
                    r.m_next_mesh_id entered.0,
                entered.3,
              )
      ]

  -- What loading `path` promises of the result.
  abbrev pub IsLoaded : ResourceManager V G → Str → ResourceManager V G → Type 0
  IsLoaded r path s =
      IsValid s
      × ((id : ℕ) × (try_get_mesh_id_by_name s (get_file_name path) ≡ some id)
          × (get_mesh_name_by_id s id ≡ get_file_name path))
      × ((other : Str)
          → eq_str (get_file_name path) other ≡ false
          → try_get_mesh_id_by_name s other ≡ try_get_mesh_id_by_name r other)

  -- While the ids last, a scene that the importer reads and whose nodes can be processed is loaded:
  -- the tables stay valid, the file's name leads to an id that leads to the name, and every other name
  -- leads where it led; a file whose name is known changes nothing, and a failed import is an error.
  pub load_scene_lem :
      (meshes : AiScene V) (root : AiNode) (r : ResourceManager V G) (path : Str) (mesh : Mesh V)
      → IsValid r
      → r.m_next_mesh_id + 1 < 2 ^ 32
      → process_node meshes root empty_mesh ≡ some mesh
      → ((s : ResourceManager V G) × (load_scene (some (meshes, root)) r path ≡ some s)
          × IsLoaded r path s)
        × ((id : ℕ)
            → try_get_mesh_id_by_name r (get_file_name path) ≡ some id
            → load_scene (some (meshes, root)) r path ≡ some r)
        × (load_scene none r path ≡ none)
  unfolding load_scene try_get_mesh_id_by_name get_mesh_name_by_id
  load_scene_lem meshes root r path mesh v room processed =
      let name = get_file_name path in
      let type = find_device_type_by_path path in
      (
        elim (Option-cases (lookup str_keys name r.m_mesh_id_by_name)) [
          | inr (id, known) ↦
              let (m, found, same) = v.named name id known in
              (
                r,
                rw (load_scene, known) refl,
                (v, (id, known, rw (get_mesh_name_by_id, found) same), λ other apart. refl),
              )
          | inl new ↦
              let entered = enter_model_lem r name type mesh in
              (
                enter_model r name type mesh,
                rw (load_scene, new, processed) refl,
                (
                  enter_model-IsValid r name type mesh v new room,
                  (r.m_next_mesh_id, entered.0, entered.1),
                  entered.3,
                ),
              )
        ],
        λ id known. rw (load_scene, known) refl,
        refl,
      )

  -- The mesh that the returned id leads to: for a new name it is the one that is registered.
  pub register_custom_mesh-mesh :
      (create_mesh : Mesh V → G) (r : ResourceManager V G) (mesh : Mesh V) (name : Str)
      → IsValid r
      → let (id, s) = register_custom_mesh create_mesh r mesh name in
        (m : Mesh V) × (get_mesh_by_id s id ≡ some m)
        × (try_get_mesh_id_by_name r name ≡ none → m ≡ mesh)
  unfolding try_get_mesh_id_by_name get_mesh_by_id
  register_custom_mesh-mesh create_mesh r mesh name v =
      elim (Option-cases (lookup str_keys name r.m_mesh_id_by_name)) [
        | inr (id, known) ↦
            let (record', found, same) = v.named name id known in
            elim (Option-cases (lookup nat_keys id r.m_meshes)) [
              | inl out ↦
                  let bad : false ≡ true = rw out at ((v.recorded id record' found).3) in cc bad
              | inr (m, held) ↦ (
                m,
                rw (register_known create_mesh r mesh name id known) held,
                λ new. let bad : none ≡ some id = sym new ∙ known in cc bad,
              )
            ]
        | inl new ↦ (
          mesh,
          rw (register_new create_mesh r mesh name new)
              ((enter_model_lem r name default_device mesh).2),
          λ same. refl,
        )
      ]
