-- ===== src/Reflector/Run.antt =====
-- `main` of tools/shader_reflector/main.cpp: the search for the shader's source, the loop over the
-- compiled shaders and the files written. The debug log and the messages are left out.
use esp32_particulate_sensor.Prelude.{
  ℕ, Bool, ◌&&◌, List, [], ◌∷◌, ◌++◌, Option, none, some, ◌==◌, if◌then◌else◌, ◌>>=◌, drop, take,
  pop_back, back, suc,
}
use esp32_particulate_sensor.Prelude.Strings.{Str, codes, eq_str, find_last, starts_with}
use esp32_particulate_sensor.Reflector.Annotations.{
  Floats, PropertyUiMetadata, parse_glsl_annotations,
}
use esp32_particulate_sensor.Reflector.{DescriptorBinding, Table, emit_bindings}

-- An entry of the recursive listing of a directory.
pub record DirectoryEntry : Type 0 where
  pub path : Str
  pub filename : Str
  pub is_regular_file : Bool

-- `SpvReflectShaderModule`, with the bindings that the library enumerates.
pub record ShaderModule : Type 0 where
  pub is_compute : Bool
  pub bindings : List DescriptorBinding

-- What the tool reads: a directory's entries where it exists, a file's lines and bytes where they
-- can be read, the module of a file's bytes where SPIRV-Reflect accepts them, and which files open
-- for writing.
pub record Environment : Type 0 where
  pub entries : Str → Option (List DirectoryEntry)
  pub lines_of : Str → Option (List Str)
  pub read_spv_file : Str → Option Str
  pub create_shader_module : Str → Option ShaderModule
  pub opens : Str → Bool

pub record Tables : Type 0 where
  pub generated_structs : Table
  pub generated_compute_structs : Table

unfoldable pub first_file : List DirectoryEntry → Str → Str
first_file [] target = []
first_file (e ∷ es) target =
    if e.is_regular_file && eq_str e.filename target then e.path else first_file es target

unfoldable pub find_shader_file : Environment → Str → Str → Str
unfolding first_file
find_shader_file env base_dir target = elim (env.entries base_dir) [
  | none ↦ []
  | some es ↦ first_file es target
]

-- `rfind`: where a text occurs last.
unfoldable pub rfind : Str → Str → Option ℕ
rfind key [] = none
rfind key (c ∷ s) = elim (rfind key s) [
  | some i ↦ some (suc i)
  | none ↦ if starts_with key (c ∷ s) then some 0 else none
]

-- `fs::path(p).filename()`: what follows the last slash.
unfoldable pub path_filename : Str → Str
path_filename p = elim (find_last (λ c. c == 47) p) [ none ↦ p | some i ↦ drop (suc i) p ]

unfoldable pub strip_extension : Str → Str
unfolding rfind
strip_extension filename = elim (rfind (codes ".spv") filename) [
  | none ↦ filename
  | some i ↦ take i filename
]

-- The source of a shader: the file of its name, or of its name without the last segment.
unfoldable pub source_path : Environment → Str → Str → Str
unfolding find_shader_file
source_path env base_dir filename = elim (find_shader_file env base_dir filename) [
  | c ∷ path ↦ c ∷ path
  | [] ↦ elim (find_last (λ c. c == 46) filename) [
    | none ↦ []
    | some last_dot ↦ find_shader_file env base_dir (take last_dot filename)
  ]
]

-- The quotes around the macro's text.
unfoldable pub strip_front : Str → Str
strip_front [] = []
strip_front (c ∷ s) = if c == 34 then s else c ∷ s

unfoldable pub strip_back : Str → Str
strip_back s = elim (back s) [ none ↦ s | some c ↦ if c == 34 then pop_back s else s ]

unfoldable pub module_of : Environment → Str → Option ShaderModule
module_of env input_path = env.read_spv_file input_path >>= env.create_shader_module

module _ {F : Type 0} (fl : Floats F) (env : Environment) where
  unfoldable pub metadata_for : Str → Option (List (Str × PropertyUiMetadata F))
  metadata_for glsl_path = elim glsl_path [
    | [] ↦ some []
    | c ∷ path ↦ parse_glsl_annotations fl (env.lines_of (c ∷ path))
  ]

  -- One compiled shader; one that cannot be read or is refused is skipped.
  unfoldable pub process_input : Str → Tables → Str → Option Tables
  unfolding metadata_for source_path strip_extension path_filename module_of
  process_input base_dir tables input_path = do
    ui_metadata ←
        metadata_for (source_path env base_dir (strip_extension (path_filename input_path)))
    elim (module_of env input_path) [
      | none ↦ some tables
      | some m ↦
          if m.is_compute
          then (emit_bindings fl ui_metadata input_path tables.generated_compute_structs m.bindings
              >>= λ t. some (record tables { generated_compute_structs = t }))
          else (emit_bindings fl ui_metadata input_path tables.generated_structs m.bindings >>= λ t.
              some (record tables { generated_structs = t }))
    ]

  unfoldable pub process_inputs : Str → Tables → List Str → Option Tables
  unfolding process_input
  process_inputs base_dir tables [] = some tables
  process_inputs base_dir tables (input ∷ inputs) =
      process_input base_dir tables input >>= λ next. process_inputs base_dir next inputs

-- The texts of a table; the hash map's own order is not specified, and the list's stands for it.
unfoldable pub all_code : Table → Str
all_code [] = []
all_code ((name, d) ∷ t) = d.code ++ all_code t

abbrev pub file_head : Str
file_head =
    codes "#pragma once\n#include \"a_primitives.hpp\"\n"
    ++ codes "#include \"a_IGraphicsContext.hpp\" // Requires ShaderDataType\n\n"

unfoldable pub header_text : Table → Str
unfolding all_code
header_text t =
    file_head
    ++ (codes "namespace Andromeda::Generated {\n\n"
        ++ (all_code t ++ codes "} // namespace Andromeda::Generated\n"))

unfoldable pub compute_header_text : Table → Str
unfolding all_code
compute_header_text t =
    file_head
    ++ (codes "namespace Andromeda::Generated::Compute {\n\n"
        ++ (all_code t ++ codes "} // namespace Andromeda::Generated::Compute\n"))

-- How the tool ends: with both files, with status 1, or by an exception or a null pointer.
pub data Exit : Type 0 where
  written : Str → Str → Exit
  failed : Exit
  terminated : Exit

module _ {F : Type 0} (fl : Floats F) (env : Environment) (shader_path : Str) where
  unfoldable pub run : Str → Str → List Str → Exit
  unfolding process_inputs strip_front strip_back header_text compute_header_text
  run output_path output_compute_path inputs =
      if env.opens output_path && env.opens output_compute_path
      then elim (process_inputs fl env (strip_back (strip_front shader_path))
          (record { generated_structs = []; generated_compute_structs = [] }) inputs) [
            | none ↦ terminated
            | some t ↦
                written (header_text t.generated_structs)
                  (compute_header_text t.generated_compute_structs)
          ]
      else failed

  -- The arguments after the program's name.
  unfoldable pub main : List Str → Exit
  unfolding run
  main (output ∷ output_compute ∷ input ∷ inputs) = run output output_compute (input ∷ inputs)
  main arguments = failed
