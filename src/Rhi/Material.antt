-- ===== src/Rhi/Material.antt =====
-- `Material` of modules/renderer_rhi/a_Material.hpp: the uniforms' bytes in one buffer. `T` is the type
-- of uniform data types; a value is its bytes. `none` is a copy past the end of the buffer.
pub mod Values
pub mod Tests
use esp32_particulate_sensor.Prelude.{
  ℕ, ◌≡◌, ◌+◌, ◌%◌, ◌^◌, Bool, true, false, List, [], ◌∷◌, ◌++◌, map, Option, none, some,
  if◌then◌else◌, leb, ◌==◌, length, take, drop, resize,
}
use esp32_particulate_sensor.Prelude.Strings.{Str}
use esp32_particulate_sensor.Prelude.Maps.{assign_key, lookup, str_keys}

pub record ReflectedUniform (T : Type 0) : Type 0 where
  pub name : Str
  pub location : ℕ
  pub type : T

pub record PropertyLayout (T : Type 0) : Type 0 where
  pub location : ℕ
  pub type : T
  pub offset : ℕ
  pub size : ℕ

pub record TextureBinding : Type 0 where
  pub api_id : ℕ
  pub slot : ℕ

-- The uniform block is its size, its bytes and the binding point.
pub record Material (T : Type 0) : Type 0 where
  pub m_shader_handle : ℕ
  pub m_material_ubo : Option (ℕ × List ℕ)
  pub m_ubo_binding_slot : ℕ
  pub m_uniform_table : List (Str × (ℕ × T))
  pub m_cpu_storage : List ℕ
  pub m_properties : List (PropertyLayout T)
  pub m_textures : List TextureBinding

-- One entry of the queue of `bind`: the bytes that the pointer leads to.
pub record UniformData (T : Type 0) : Type 0 where
  pub location : ℕ
  pub data_bytes : List ℕ
  pub type : T

-- `memcpy` to an offset; the bytes around stay.
abbrev pub copy_to : List ℕ → ℕ → List ℕ → Option (List ℕ)
copy_to storage offset value =
    if leb (offset + length value) (length storage)
    then some (take offset storage ++ (value ++ drop (offset + length value) storage))
    else none

abbrev pub ubo_size : List ℕ → Option (ℕ × List ℕ) → ℕ
ubo_size bytes none = length bytes
ubo_size bytes (some (size, old)) = size

module _ {T : Type 0} where
  unfoldable pub table_of : List (ReflectedUniform T) → List (Str × (ℕ × T)) → List (Str × (ℕ × T))
  table_of [] table = table
  table_of (u ∷ us) table = table_of us (assign_key str_keys u.name (u.location, u.type) table)

  unfoldable pub new_material : ℕ → List (ReflectedUniform T) → Material T
  unfolding table_of
  new_material shader_handle reflected = record {
    m_shader_handle = shader_handle;
    m_material_ubo = none;
    m_ubo_binding_slot = 0;
    m_uniform_table = table_of reflected [];
    m_cpu_storage = [];
    m_properties = [];
    m_textures = [];
  }

  -- The buffer is made for the size of the first data; a larger value later does not fit it.
  unfoldable pub set_ubo_data : List ℕ → ℕ → Material T → Option (Material T)
  set_ubo_data bytes binding_slot m =
      let size = ubo_size bytes m.m_material_ubo in
      if leb (length bytes) size
      then some
          (record m { m_material_ubo = some (size, bytes); m_ubo_binding_slot = binding_slot })
      else none

  unfoldable pub find_property : ℕ → List (PropertyLayout T) → Option (PropertyLayout T)
  find_property loc [] = none
  find_property loc (p ∷ ps) = if p.location == loc then some p else find_property loc ps

  -- A value under a name that the shader has; offsets and sizes are u32.
  unfoldable pub set_parameter : Str → List ℕ → T → Material T → Option (Material T)
  unfolding find_property
  set_parameter name value type m = elim (lookup str_keys name m.m_uniform_table) [
    | none ↦ some m
    | some (loc, declared) ↦ elim (find_property loc m.m_properties) [
      | some p ↦ elim (copy_to m.m_cpu_storage p.offset value) [
        | none ↦ none
        | some storage ↦ some (record m { m_cpu_storage = storage })
      ]
      | none ↦
          let offset = length m.m_cpu_storage % 2 ^ 32 in
          elim (copy_to (resize m.m_cpu_storage ((offset + length value) % 2 ^ 32) 0) offset
            value) [
              | none ↦ none
              | some storage ↦ some (record m {
                m_cpu_storage = storage;
                m_properties =
                    m.m_properties
                    ++ record { location = loc; type = type; offset = offset; size = length value }
                      ∷ [];
              })
            ]
    ]
  ]

  unfoldable pub add_texture : TextureBinding → Material T → Material T
  add_texture texture m = record m { m_textures = m.m_textures ++ texture ∷ [] }

  abbrev pub entry_of : List ℕ → PropertyLayout T → UniformData T
  entry_of storage p = record {
    location = p.location;
    data_bytes = take p.size (drop p.offset storage);
    type = p.type;
  }

  -- What `bind` submits for the uniforms.
  unfoldable pub submit_queue : Material T → List (UniformData T)
  submit_queue m = map (entry_of m.m_cpu_storage) m.m_properties

  unfoldable pub get_uniform_name_by_location : ℕ → List (Str × (ℕ × T)) → Str
  get_uniform_name_by_location loc [] = []
  get_uniform_name_by_location loc ((name, (l, t)) ∷ table) =
      if l == loc then name else get_uniform_name_by_location loc table
