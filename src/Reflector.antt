-- ===== src/Reflector.antt =====
-- The tool tools/shader_reflector/main.cpp that writes C++ structs for the blocks of compiled
-- shaders. What SPIRV-Reflect and the file system give it is an argument, as is the type `F` of
-- floats with std::stof and their printing. A null pointer is `none`, and so is a run that ends by
-- its use or by an exception that nothing catches.
pub mod Annotations
pub mod Run
pub mod Largest
pub mod Body
pub mod Tests
use esp32_particulate_sensor.Prelude.{
  ℕ, ◌≡◌, Bool, true, false, ◌&&◌, ◌||◌, not, List, [], ◌∷◌, ◌++◌, Option, none, some, leb, ltb,
  ◌==◌, if◌then◌else◌, ◌>>=◌, drop, take, pop_back, back,
}
use esp32_particulate_sensor.Prelude.Strings.{
  Str, codes, eq_str, contains_sub, find_last, starts_with, decimal,
}
use esp32_particulate_sensor.Prelude.Maps.{assign_key, lookup, str_keys}
use esp32_particulate_sensor.Reflector.Annotations.{
  Floats, PropertyUiMetadata, parse_glsl_annotations,
}

-- `SpvReflectTypeDescription`: the type flags, the traits and the name.
pub record TypeDescription : Type 0 where
  pub is_matrix : Bool
  pub is_vector : Bool
  pub is_float : Bool
  pub is_int : Bool
  pub is_struct : Bool
  pub column_count : ℕ
  pub row_count : ℕ
  pub component_count : ℕ
  pub dims : List ℕ
  pub type_name : Option Str

-- `SpvReflectBlockVariable` without its members; `stride` and `array_dims_count` are those of
-- `array`.
pub record Variable : Type 0 where
  pub name : Option Str
  pub offset : ℕ
  pub size : ℕ
  pub padded_size : ℕ
  pub array_dims_count : ℕ
  pub stride : ℕ
  pub type_description : Option TypeDescription

-- `p && strlen(p) > 0`, and the text there.
abbrev pub has_text : Option Str → Bool
has_text none = false
has_text (some []) = false
has_text (some (c ∷ s)) = true

abbrev pub text_of : Option Str → Str
text_of none = []
text_of (some s) = s

mutual
  pub data BlockVariable : Type 0 where
    block : Variable → Blocks → BlockVariable

  pub data Blocks : Type 0 where
    no_more : Blocks
    more : BlockVariable → Blocks → Blocks

abbrev pub list_of : Blocks → List BlockVariable
list_of no_more = []
list_of (more b bs) = b ∷ list_of bs

abbrev pub members : BlockVariable → List BlockVariable
members (block v bs) = list_of bs

abbrev pub variable : BlockVariable → Variable
variable (block v bs) = v

pub data DescriptorType : Type 0 where
  uniform_buffer storage_buffer other_descriptor : DescriptorType

pub record DescriptorBinding : Type 0 where
  pub descriptor_type : DescriptorType
  pub name : Option Str
  pub binding : ℕ
  pub type_description : Option TypeDescription
  pub block_of : BlockVariable

pub record StructDefinition : Type 0 where
  pub size : ℕ
  pub code : Str

abbrev pub Table : Type 0
Table = List (Str × StructDefinition)

unfoldable pub get_cpp_type : TypeDescription → Str
get_cpp_type t =
    if t.is_matrix && (t.column_count == 4 && t.row_count == 4)
    then codes "mat4"
    else if t.is_matrix && (t.column_count == 3 && t.row_count == 3)
    then codes "mat3"
    else if t.is_vector && t.component_count == 4
    then codes "vec4"
    else if t.is_vector && t.component_count == 3
    then codes "vec3"
    else if t.is_vector && t.component_count == 2
    then codes "vec2"
    else if t.is_float
    then codes "float"
    else if t.is_int
    then codes "i32"
    else codes "UNKNOWN_TYPE"

unfoldable pub get_shader_data_type_enum : Str → Str
get_shader_data_type_enum t =
    if eq_str t (codes "mat4")
    then codes "ShaderDataType::Mat4"
    else if eq_str t (codes "mat3")
    then codes "ShaderDataType::Mat3"
    else if eq_str t (codes "vec4")
    then codes "ShaderDataType::Vec4"
    else if eq_str t (codes "vec3")
    then codes "ShaderDataType::Vec3"
    else if eq_str t (codes "vec2")
    then codes "ShaderDataType::Vec2"
    else if eq_str t (codes "float")
    then codes "ShaderDataType::Float"
    else if eq_str t (codes "i32")
    then codes "ShaderDataType::Int"
    else codes "ShaderDataType::Unknown"

abbrev pub is_array : List ℕ → Bool
is_array [] = false
is_array (d ∷ ds) = true

abbrev pub declared_size : List ℕ → Str
declared_size [] = codes ";\n"
declared_size (d ∷ ds) = codes "[" ++ (decimal d ++ codes "];\n")

abbrev pub needs_alignment : TypeDescription → Str → Bool
needs_alignment t cpp_type =
    contains_sub (codes "vec") cpp_type || contains_sub (codes "mat") cpp_type || is_array t.dims

-- What a member adds to the struct; the first dimension of an array is its size.
unfoldable pub declaration : TypeDescription → Str → ℕ → Str
unfolding get_cpp_type
declaration t name offset =
    let cpp_type = get_cpp_type t in
    codes "    // Offset: "
    ++ (decimal offset
        ++ (codes "\n"
            ++ ((if needs_alignment t cpp_type then codes "    alignas(16) " else codes "    ")
                ++ (cpp_type ++ (codes " " ++ (name ++ declared_size t.dims))))))

unfoldable pub uniform_name : DescriptorBinding → Str
uniform_name b =
    if has_text b.name then text_of b.name else elim (b.type_description >>= λ t. t.type_name) [
      | some type_name ↦ type_name
      | none ↦ codes "UnknownBuffer_Binding" ++ decimal b.binding
    ]

-- The name of a storage buffer's element, and its size in bytes.
unfoldable pub element_name : TypeDescription → Variable → Option Str
element_name t m =
    if has_text t.type_name
    then some (text_of t.type_name)
    else if has_text m.name
    then some (text_of m.name)
    else none

unfoldable pub element_size : Variable → ℕ
element_size m =
    let size = if ltb 0 m.array_dims_count then m.stride else m.size in
    if size == 0 then m.padded_size else size

abbrev pub visitor_head : Str
visitor_head =
    codes "    // Automatically generated reflection visitor for ImGui and Serialization\n"
    ++ (codes "    template<typename F>\n" ++ codes "    void reflect(F&& visitor) {\n")

module _ {F : Type 0} (fl : Floats F) where
  open fl use {zero_float, eq_float, print_fixed}

  abbrev pub Annotated : Type 0
  Annotated = List (Str × PropertyUiMetadata F)

  pub data WidgetHint : Type 0 where
    default_hint color_hint : WidgetHint
    slider_hint : F → F → WidgetHint

  unfoldable pub widget_hint : Option (PropertyUiMetadata F) → WidgetHint
  widget_hint none = default_hint
  widget_hint (some meta) =
      if eq_str meta.widget_type (codes "Slider")
      then slider_hint meta.min_bound meta.max_bound
      else if eq_str meta.widget_type (codes "Color")
      then color_hint
      else default_hint

  -- A slider whose bounds are equal is shown like a member without a hint.
  unfoldable pub hint_text : WidgetHint → Str
  hint_text default_hint = codes ", 0.0f, 0.0f, \"Default\");\n"
  hint_text color_hint = codes ", 0.0f, 0.0f, \"Color\");\n"
  hint_text (slider_hint min max) =
      if eq_float min max
      then codes ", 0.0f, 0.0f, \"Default\");\n"
      else codes ", "
        ++ (print_fixed min ++ (codes "f, " ++ (print_fixed max ++ codes "f, \"Slider\");\n")))

  -- What a member that is no array adds to the visitor.
  unfoldable pub visitor_call : Annotated → TypeDescription → Str → Str
  unfolding widget_hint hint_text get_cpp_type get_shader_data_type_enum
  visitor_call ui_metadata t name =
      codes "        visitor(\""
      ++ (name
          ++ (codes "\", "
              ++ (name
                  ++ (codes ", "
                      ++ (get_shader_data_type_enum (get_cpp_type t)
                          ++ hint_text (widget_hint (lookup str_keys name ui_metadata)))))))

  -- The loop over the members, with the texts of the struct and of the visitor so far.
  unfoldable pub build_members : Annotated → List BlockVariable → Str → Str → Option (Str × Str)
  unfolding declaration visitor_call
  build_members ui_metadata [] struct_code visitor_code = some (struct_code, visitor_code)
  build_members ui_metadata (b ∷ bs) struct_code visitor_code = do
    let m = variable b
    t ← m.type_description
    name ← m.name
    build_members ui_metadata bs (struct_code ++ declaration t name m.offset)
        (if is_array t.dims then visitor_code else visitor_code ++ visitor_call ui_metadata t name)

  unfoldable pub build_struct_body : Annotated → BlockVariable → Option Str
  unfolding build_members
  build_struct_body ui_metadata b = do
    (struct_code, visitor_code) ← build_members ui_metadata (members b) [] visitor_head
    some (struct_code ++ (codes "\n" ++ (visitor_code ++ codes "    }\n")))

  unfoldable pub struct_text : Annotated → Str → BlockVariable → ℕ → Str → Option Str
  unfolding build_struct_body
  struct_text ui_metadata struct_name b size source_file = do
    body ← build_struct_body ui_metadata b
    some (
        codes "// Generated from: "
        ++ (source_file
            ++ (codes "\nstruct alignas(16) "
                ++ (struct_name
                    ++ (codes " {\n"
                        ++ (body
                            ++ (codes "}; // Total Size: "
                                ++ (decimal size
                                    ++ (codes " Bytes\nstatic_assert(sizeof("
                                        ++ (struct_name
                                            ++ codes
                                                ") % 16 == 0, \"Alignment Error!\");\n\n"))))))))))

  -- `emit_struct`: a definition of the name that is as large already stays.
  unfoldable pub emit_struct : Annotated → Str → Table → Str → BlockVariable → ℕ → Option Table
  unfolding struct_text
  emit_struct ui_metadata source_file target struct_name b size =
      let written = struct_text ui_metadata struct_name b size source_file >>= λ text.
      some (assign_key str_keys struct_name (record { size = size; code = text }) target) in
      elim (lookup str_keys struct_name target) [
        | none ↦ written
        | some old ↦ if leb size old.size then some target else written
      ]

  -- One member of a storage buffer: only a named struct with members is emitted.
  unfoldable pub emit_element : Annotated → Str → Table → BlockVariable → Option Table
  unfolding emit_struct element_name element_size
  emit_element ui_metadata source_file target b = elim (variable b).type_description [
    | none ↦ some target
    | some t ↦
        if t.is_struct
        then elim (members b) [
          | [] ↦ some target
          | m ∷ ms ↦ elim (element_name t (variable b)) [
            | none ↦ some target
            | some name ↦
                emit_struct ui_metadata source_file target name b (element_size (variable b))
          ]
        ]
        else some target
  ]

  unfoldable pub emit_elements : Annotated → Str → Table → List BlockVariable → Option Table
  unfolding emit_element
  emit_elements ui_metadata source_file target [] = some target
  emit_elements ui_metadata source_file target (b ∷ bs) =
      emit_element ui_metadata source_file target b >>= λ next.
      emit_elements ui_metadata source_file next bs

  unfoldable pub emit_binding : Annotated → Str → Table → DescriptorBinding → Option Table
  unfolding emit_struct emit_elements uniform_name
  emit_binding ui_metadata source_file target b = elim b.descriptor_type [
    | uniform_buffer ↦
        emit_struct ui_metadata source_file target (uniform_name b) b.block_of
          (variable b.block_of).size
    | storage_buffer ↦ emit_elements ui_metadata source_file target (members b.block_of)
    | other_descriptor ↦ some target
  ]

  unfoldable pub emit_bindings : Annotated → Str → Table → List DescriptorBinding → Option Table
  unfolding emit_binding
  emit_bindings ui_metadata source_file target [] = some target
  emit_bindings ui_metadata source_file target (b ∷ bs) =
      emit_binding ui_metadata source_file target b >>= λ next.
      emit_bindings ui_metadata source_file next bs
