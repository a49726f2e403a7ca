-- ===== src/Reflector/Annotations/Pairs.antt =====
-- What the loop of `ParseGlslAnnotations` collects, told without its state.
use esp32_particulate_sensor.Prelude.{
  ◌≡◌, refl, Bool, true, false, List, [], ◌∷◌, ◌++◌, Option, none, some, if◌then◌else◌, arith,
  Option-cases, inl, inr, is_some,
}
use esp32_particulate_sensor.Prelude.Strings.{Str}
use esp32_particulate_sensor.Prelude.Maps.{assign_key, str_keys}
use esp32_particulate_sensor.Reflector.Annotations.{
  Floats, PropertyUiMetadata, search_annotation, search_name, read_metadata, parse_lines,
  parse_glsl_annotations,
}

module _ {F : Type 0} (fl : Floats F) where
  -- The entry that metadata before a line make with it.
  abbrev pub entry_with : PropertyUiMetadata F → List Str → List (Str × PropertyUiMetadata F)
  entry_with m [] = []
  entry_with m (line ∷ lines) = elim (search_annotation line) [
    | some found ↦ []
    | none ↦ elim (search_name false line) [ none ↦ [] | some name ↦ (name, m) ∷ [] ]
  ]

  abbrev pub metadata_of : Str → Option (Option (PropertyUiMetadata F))
  metadata_of line = elim (search_annotation line) [
    | none ↦ none
    | some found ↦ some (read_metadata fl found)
  ]

  abbrev pub entry_at :
      Option (Option (PropertyUiMetadata F)) → List Str → List (Str × PropertyUiMetadata F)
  entry_at none lines = []
  entry_at (some none) lines = []
  entry_at (some (some m)) lines = entry_with m lines

  -- One entry for each annotation with a declaration in the very next line.
  abbrev pub entries : List Str → List (Str × PropertyUiMetadata F)
  entries [] = []
  entries (line ∷ lines) = entry_at (metadata_of line) lines ++ entries lines

  abbrev pub is_read : Option (Option (PropertyUiMetadata F)) → Bool
  is_read none = true
  is_read (some o) = is_some o

  -- All annotations with bounds have numbers there.
  abbrev pub bounds_are_numbers : List Str → Bool
  bounds_are_numbers [] = true
  bounds_are_numbers (line ∷ lines) =
      if is_read (metadata_of line) then bounds_are_numbers lines else false

  abbrev pub assign_all :
      List (Str × PropertyUiMetadata F)
      → List (Str × PropertyUiMetadata F)
      → List (Str × PropertyUiMetadata F)
  assign_all [] m = m
  assign_all ((name, v) ∷ es) m = assign_all es (assign_key str_keys name v m)

  assign_all-append :
      (es fs m : List (Str × PropertyUiMetadata F))
      → assign_all (es ++ fs) m ≡ assign_all fs (assign_all es m)
  assign_all-append [] fs m = refl
  assign_all-append ((name, v) ∷ es) fs m = assign_all-append es fs (assign_key str_keys name v m)

  parse_lines_lem :
      (lines : List Str) (m : List (Str × PropertyUiMetadata F)) (pending : PropertyUiMetadata F)
      (b : Bool)
      → parse_lines fl lines m pending b ≡ (
          if bounds_are_numbers lines
          then some (assign_all ((if b then entry_with pending lines else []) ++ entries lines) m)
          else none)
  unfolding parse_lines
  parse_lines_lem [] m pending true = refl
  parse_lines_lem [] m pending false = refl
  parse_lines_lem (line ∷ lines) m pending b = elim (Option-cases (search_annotation line)) [
    | inl out ↦ ground (
      arith,
      out,
      parse_lines_lem lines m pending false,
      parse_lines_lem lines
          (if b
            then elim (search_name false line) [
              | none ↦ m
              | some name ↦ assign_key str_keys name pending m
            ]
            else m)
          pending false,
    )
    | inr (found, at) ↦ elim (Option-cases (read_metadata fl found)) [
      | inl bad ↦ ground (arith, at, bad)
      | inr (v, good) ↦ ground (arith, at, good, parse_lines_lem lines m v true)
    ]
  ]

  -- The map holds exactly what the annotations give that have a declaration in the very next line,
  -- a later one in place of an earlier one of the same name; where the bounds of an annotation are
  -- no numbers, the exception leaves the function.
  pub parse_glsl_annotations-entries :
      (lines : List Str)
      → parse_glsl_annotations fl (some lines)
        ≡ (if bounds_are_numbers lines then some (assign_all (entries lines) []) else none)
  unfolding parse_glsl_annotations
  parse_glsl_annotations-entries lines = parse_lines_lem lines [] _ false
