-- ===== src/Reflector/Tests.antt =====
-- Runs of tools/shader_reflector, and its theorems at small inputs.
use mathlib.Core.Option
use esp32_particulate_sensor.Prelude.{
  ◌>>=◌, ℕ, ◌≡◌, refl, true, false, ◌&&◌, ◌++◌, List, [], ◌∷◌, Option, none, some, ◌==◌, leb,
  if◌then◌else◌,
}
use esp32_particulate_sensor.Prelude.Strings.{
  find_last, Str, codes, eq_str, all_bytes, digits_value, decimal,
}
use esp32_particulate_sensor.Prelude.Maps.{lookup, str_keys, assign_key}
use esp32_particulate_sensor.Reflector.Annotations.{
  parse_lines, match_annotation, read_metadata, Floats, parse_glsl_annotations, search_annotation,
  search_name,
}
use esp32_particulate_sensor.Reflector.Annotations.RoundTrip.{
  AnnotationLine, DeclarationLine, print_annotation, print_declaration,
  parse_glsl_annotations-print,
}
use esp32_particulate_sensor.Reflector.{
  emit_bindings, element_name, TypeDescription, BlockVariable, block, no_more, more, members,
  DescriptorBinding, storage_buffer, build_struct_body, visitor_head,
}
use esp32_particulate_sensor.Reflector.Body.{
  all_described, declarations, visitor_calls, build_struct_body-declarations,
}
use esp32_particulate_sensor.Reflector.Run.{
  metadata_for, module_of, Environment, Tables, process_inputs, path_filename, strip_extension,
  source_path,
}
use esp32_particulate_sensor.Reflector.Largest.{HoldsLargest}
use esp32_particulate_sensor.Reflector.Largest.Inputs.{calls_for, no_tables}
use esp32_particulate_sensor.Reflector.Largest.Runs.{
  inputs_are_good, process_inputs_lem, inputs_are_good,
}

-- Floats that are natural numbers.
abbrev whole : Floats ℕ
whole = record {
  zero_float = 0;
  stof = λ s. if all_bytes (λ c. leb 48 c && leb c 57) s then some (digits_value 0 s) else none;
  eq_float = ◌==◌;
  print_fixed = decimal;
}

abbrev slider : AnnotationLine
slider = record {
  before = codes "    ";
  gap = codes " ";
  gap_widget = codes " ";
  widget = codes "Slider";
  low = codes "1";
  gap_low = [];
  gap_high = codes " ";
  high = codes "9";
  after = [];
}

abbrev roughness : DeclarationLine
roughness = record {
  indent = codes "    ";
  type = codes "float";
  gap = codes " ";
  name = codes "roughness";
  gap_mark = [];
  mark = 59;
  after = [];
}

parse_glsl_annotations-print_example :
    parse_glsl_annotations whole (some (print_annotation slider ∷ print_declaration roughness ∷ []))
    ≡ some (
        (codes "roughness", record { widget_type = codes "Slider"; min_bound = 1; max_bound = 9 })
        ∷ [])
parse_glsl_annotations-print_example =
    parse_glsl_annotations-print whole slider roughness 1 9
      (record {
        before_plain = refl;
        gap_blank = refl;
        gap_widget_blank = refl;
        widget_some = refl;
        low_some = refl;
        gap_low_blank = refl;
        gap_high_blank = refl;
        high_some = refl;
      })
      (record {
        indent_blank = refl;
        type_some = refl;
        gap_some = refl;
        name_some = refl;
        gap_mark_blank = refl;
        marked = refl;
        after_plain = refl;
      })
      refl refl

-- An empty line between the two separates them, and "-" is no number.
abbrev apart : List Str
apart = codes "// @Editor: Color" ∷ [] ∷ codes "vec3 albedo;" ∷ []

nothing_annotated : parse_glsl_annotations whole (some apart) ≡ some []
unfolding parse_glsl_annotations parse_lines search_annotation match_annotation search_name
nothing_annotated = refl

bound_is_no_number :
    parse_glsl_annotations whole (some (codes "// @Editor: Slider(-, 1)" ∷ [])) ≡ none
unfolding parse_glsl_annotations parse_lines search_annotation match_annotation
bound_is_no_number = refl

abbrev float_type : TypeDescription
float_type = record {
  is_matrix = false;
  is_vector = false;
  is_float = true;
  is_int = false;
  is_struct = false;
  column_count = 0;
  row_count = 0;
  component_count = 0;
  dims = [];
  type_name = none;
}

abbrev struct_type : TypeDescription
struct_type = record float_type {
  is_float = false;
  is_struct = true;
  type_name = some (codes "Particle");
}

abbrev float_member : BlockVariable
float_member =
    block
      (record {
        name = some (codes "life");
        offset = 16;
        size = 4;
        padded_size = 4;
        array_dims_count = 0;
        stride = 0;
        type_description = some float_type;
      })
      no_more

abbrev particles : ℕ → BlockVariable
particles stride =
    block
      (record {
        name = some (codes "particles");
        offset = 0;
        size = 0;
        padded_size = 0;
        array_dims_count = 1;
        stride = stride;
        type_description = some struct_type;
      })
      (more float_member no_more)

abbrev particle_buffer : ℕ → DescriptorBinding
particle_buffer stride = record {
  descriptor_type = storage_buffer;
  name = none;
  binding = 0;
  type_description = none;
  block_of =
      block
        (record {
          name = none;
          offset = 0;
          size = 0;
          padded_size = 0;
          array_dims_count = 0;
          stride = 0;
          type_description = none;
        })
        (more (particles stride) no_more);
}

build_struct_body-declarations_example : build_struct_body whole [] (particles 32) ≡ (
    if all_described (members (particles 32))
    then some (
        declarations (members (particles 32))
        ++ (codes "\n"
            ++ ((visitor_head ++ visitor_calls whole [] (members (particles 32)))
                ++ codes "    }\n")))
    else none)
build_struct_body-declarations_example = build_struct_body-declarations whole [] (particles 32)

-- The bytes of a file name its module: one with a stride of 32 for a compute shader, one of 48.
abbrev shaders : Environment
shaders = record {
  entries = λ d. some (
      record {
        path = codes "shader/particle.hlsl";
        filename = codes "particle.hlsl";
        is_regular_file = true;
      }
      ∷ []);
  lines_of = λ p. some apart;
  read_spv_file = λ p. if eq_str p (codes "lost.spv") then none else some p;
  create_shader_module = λ b. some (record {
    is_compute = true;
    bindings = particle_buffer (if eq_str b (codes "b.spv") then 48 else 32) ∷ [];
  });
  opens = λ p. true;
}

abbrev compiled : List Str
compiled = codes "a.spv" ∷ codes "lost.spv" ∷ codes "b.spv" ∷ []

-- "particle.hlsl.Box.spv" has its source in "particle.hlsl".
kernel_source :
    source_path shaders
      (codes "shader")
      (strip_extension (path_filename (codes "out/particle.hlsl.Box.spv")))
    ≡ codes "shader/particle.hlsl"
unfolding source_path strip_extension path_filename find_last
kernel_source = refl

compiled_good : inputs_are_good whole shaders (codes "shader") compiled ≡ true
unfolding source_path strip_extension path_filename find_last metadata_for module_of
    parse_glsl_annotations parse_lines search_annotation match_annotation search_name read_metadata
    element_name
compiled_good = refl

process_inputs_lem_example :
    (t : Tables) × (process_inputs whole shaders (codes "shader") no_tables compiled ≡ some t)
    × ((name : Str)
        → HoldsLargest whole name
            (calls_for whole shaders (codes "shader") false compiled)
            t.generated_structs
          × HoldsLargest whole name
              (calls_for whole shaders (codes "shader") true compiled)
              t.generated_compute_structs)
process_inputs_lem_example =
    process_inputs_lem whole shaders (codes "shader") compiled compiled_good

-- The larger stride, of the later module, gives the table's definition.
abbrev particle_size : Tables → Option ℕ
particle_size t =
    Option.map (λ d. d.size) (lookup str_keys (codes "Particle") t.generated_compute_structs)

larger_kept :
    (process_inputs whole shaders (codes "shader") no_tables compiled >>= particle_size) ≡ some 48
unfolding process_inputs find_last emit_bindings lookup assign_key str_keys
larger_kept = refl
