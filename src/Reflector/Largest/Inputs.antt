-- ===== src/Reflector/Largest/Inputs.antt =====
-- The loop over the compiled shaders of tools/shader_reflector/main.cpp as one sequence of calls of
-- `EmitStruct` for each of the two tables.
use esp32_particulate_sensor.Prelude.{
  not, ◌≡◌, ◌∙◌, refl, sym, ap, List, [], ◌∷◌, ◌++◌, Option, none, some, arith, if◌then◌else◌,
  ◌>>=◌, Option-cases, inl, inr,
}
use esp32_particulate_sensor.Reflector.Run.{
  Environment, Tables, ShaderModule, metadata_for, source_path, strip_extension, path_filename,
  module_of, process_input, process_inputs,
}
use esp32_particulate_sensor.Reflector.Largest.{HoldsLargest, emit_all-HoldsLargest}
use esp32_particulate_sensor.Prelude.{
  Bool, true, false, if◌then◌else◌, arith, not, inl, inr, Option-cases,
}
use mathlib.Core.Path.{fun_ext}
use esp32_particulate_sensor.Prelude.Strings.{Str}
use esp32_particulate_sensor.Reflector.Annotations.{Floats, PropertyUiMetadata}
use esp32_particulate_sensor.Reflector.{
  BlockVariable, DescriptorBinding, uniform_buffer, storage_buffer, other_descriptor, variable,
  members, Table, element_name, element_size, uniform_name, emit_element, emit_elements,
  emit_binding, emit_bindings,
}
use esp32_particulate_sensor.Reflector.Largest.{Emitted, emit_all, emit}

module _ {F : Type 0} (fl : Floats F) where
  emit_all-append :
      (t : Table) (es fs : List (Emitted F))
      → emit_all fl t (es ++ fs) ≡ (emit_all fl t es >>= λ u. emit_all fl u fs)
  emit_all-append t [] fs = refl
  emit_all-append t (e ∷ es) fs = elim (Option-cases (emit fl t e)) [
    | inl out ↦ rw (out) refl
    | inr (u, at) ↦ rw (at) (emit_all-append u es fs)
  ]

  >>=-some {ℓ} : {A : Type ℓ} (m : Option A) → (m >>= λ a. some a) ≡ m
  >>=-some none = refl
  >>=-some (some a) = refl

  module _ (ui_metadata : List (Str × PropertyUiMetadata F)) (source_file : Str) where
    abbrev pub element_call : BlockVariable → Str → Emitted F
    element_call b name = record {
      ui_metadata = ui_metadata;
      source_file = source_file;
      struct_name = name;
      block_of = b;
      size = element_size (variable b);
    }

    abbrev pub uniform_call : DescriptorBinding → Emitted F
    uniform_call b = record {
      ui_metadata = ui_metadata;
      source_file = source_file;
      struct_name = uniform_name b;
      block_of = b.block_of;
      size = (variable b.block_of).size;
    }

    -- The calls for a member of a storage buffer, for a binding and for a module's bindings.
    abbrev pub element_calls : BlockVariable → List (Emitted F)
    element_calls b = elim (variable b).type_description [
      | none ↦ []
      | some t ↦
          if t.is_struct
          then elim (members b) [
            | [] ↦ []
            | m ∷ ms ↦ elim (element_name t (variable b)) [
              | none ↦ []
              | some name ↦ element_call b name ∷ []
            ]
          ]
          else []
    ]

    abbrev pub elements_calls : List BlockVariable → List (Emitted F)
    elements_calls [] = []
    elements_calls (b ∷ bs) = element_calls b ++ elements_calls bs

    abbrev pub binding_calls : DescriptorBinding → List (Emitted F)
    binding_calls b = elim b.descriptor_type [
      | uniform_buffer ↦ uniform_call b ∷ []
      | storage_buffer ↦ elements_calls (members b.block_of)
      | other_descriptor ↦ []
    ]

    abbrev pub bindings_calls : List DescriptorBinding → List (Emitted F)
    bindings_calls [] = []
    bindings_calls (b ∷ bs) = binding_calls b ++ bindings_calls bs

    one : (t : Table) (e : Emitted F) → emit_all fl t (e ∷ []) ≡ emit fl t e
    one t e = >>=-some (emit fl t e)

    emit_element_lem :
        (t : Table) (b : BlockVariable)
        → emit_element fl ui_metadata source_file t b ≡ emit_all fl t (element_calls b)
    unfolding emit_element
    emit_element_lem t b = elim (Option-cases (variable b).type_description) [
      | inl out ↦ ground (arith, out)
      | inr (d, at) ↦ elim (Option-cases (element_name d (variable b))) [
        | inl out ↦ ground (arith, at, out)
        | inr (name, named) ↦ ground (arith, at, named, one t (element_call b name))
      ]
    ]

    emit_elements_lem :
        (t : Table) (bs : List BlockVariable)
        → emit_elements fl ui_metadata source_file t bs ≡ emit_all fl t (elements_calls bs)
    unfolding emit_elements
    emit_elements_lem t [] = refl
    emit_elements_lem t (b ∷ bs) =
        ap (λ m. m >>= λ next. emit_elements fl ui_metadata source_file next bs)
          (emit_element_lem t b)
        ∙ (ap (λ g. emit_all fl t (element_calls b) >>= g) (fun_ext (λ u. emit_elements_lem u bs))
            ∙ sym (emit_all-append t (element_calls b) (elements_calls bs)))

    emit_binding_lem :
        (t : Table) (b : DescriptorBinding)
        → emit_binding fl ui_metadata source_file t b ≡ emit_all fl t (binding_calls b)
    unfolding emit_binding
    emit_binding_lem t b =
        ground (arith, emit_elements_lem t (members b.block_of), one t (uniform_call b))

    pub emit_bindings_lem :
        (t : Table) (bs : List DescriptorBinding)
        → emit_bindings fl ui_metadata source_file t bs ≡ emit_all fl t (bindings_calls bs)
    unfolding emit_bindings
    emit_bindings_lem t [] = refl
    emit_bindings_lem t (b ∷ bs) =
        ap (λ m. m >>= λ next. emit_bindings fl ui_metadata source_file next bs)
          (emit_binding_lem t b)
        ∙ (ap (λ g. emit_all fl t (binding_calls b) >>= g) (fun_ext (λ u. emit_bindings_lem u bs))
            ∙ sym (emit_all-append t (binding_calls b) (bindings_calls bs)))

abbrev pub no_tables : Tables
no_tables = record { generated_structs = []; generated_compute_structs = [] }

abbrev pub or_nothing : {A : Type 0} → Option (List A) → List A
or_nothing none = []
or_nothing (some u) = u

abbrev pub is_for : Bool → Bool → Bool
is_for true c = c
is_for false c = not c

module _ {F : Type 0} (fl : Floats F) (env : Environment) (base_dir : Str) where
  -- The annotations of a shader's source, and what its module has for one of the two tables.
  abbrev pub annotations_for : Str → Option (List (Str × PropertyUiMetadata F))
  annotations_for input =
      metadata_for fl env (source_path env base_dir (strip_extension (path_filename input)))

  abbrev pub module_calls : Bool → Str → Option ShaderModule → List (Emitted F)
  module_calls compute input none = []
  module_calls compute input (some m) =
      if is_for compute m.is_compute
      then bindings_calls fl (or_nothing (annotations_for input)) input m.bindings
      else []

  -- All calls for one of the tables, in the order of the inputs, their bindings and their members.
  abbrev pub calls_for : Bool → List Str → List (Emitted F)
  calls_for compute [] = []
  calls_for compute (input ∷ inputs) =
      module_calls compute input (module_of env input) ++ calls_for compute inputs

  abbrev AreMadeBy : Tables → (Bool → List (Emitted F)) → Tables → Type 0
  AreMadeBy t calls u =
      (emit_all fl t.generated_structs (calls false) ≡ some u.generated_structs)
      × (emit_all fl t.generated_compute_structs (calls true) ≡ some u.generated_compute_structs)

  process_input_lem :
      (t u : Tables) (input : Str)
      → process_input fl env base_dir t input ≡ some u
      → AreMadeBy t (λ c. module_calls c input (module_of env input)) u
  unfolding process_input
  process_input_lem t u input h = elim (Option-cases (annotations_for input)) [
    | inl out ↦ let bad : none ≡ some u = rw out at h in cc bad
    | inr (ui, at) ↦ elim (Option-cases (module_of env input)) [
      | inl out ↦ ground (arith, at, out)
      | inr (m, found) ↦ ground (
        arith,
        at,
        found,
        emit_bindings_lem fl ui input t.generated_structs m.bindings,
        emit_bindings_lem fl ui input t.generated_compute_structs m.bindings,
      )
    ]
  ]

  process_inputs_lem :
      (t u : Tables) (inputs : List Str)
      → process_inputs fl env base_dir t inputs ≡ some u
      → AreMadeBy t (λ c. calls_for c inputs) u
  unfolding process_inputs
  process_inputs_lem t u [] h = ground arith
  process_inputs_lem t u (input ∷ inputs) h =
      elim (Option-cases (process_input fl env base_dir t input)) [
        | inl out ↦ let bad : none ≡ some u = rw out at h in cc bad
        | inr (next, at) ↦
            let first = process_input_lem t next input at in
            let rest = process_inputs_lem next u inputs (rw at at h) in
            (
              after false t.generated_structs next.generated_structs first.0 ∙ rest.0,
              after true t.generated_compute_structs next.generated_compute_structs first.1
                  ∙ rest.1,
            )
      ]
    where
      after :
          (c : Bool) (a b : Table)
          → emit_all fl a (module_calls c input (module_of env input)) ≡ some b
          → emit_all fl a (calls_for c (input ∷ inputs)) ≡ emit_all fl b (calls_for c inputs)
      after c a b e =
          emit_all-append fl a (module_calls c input (module_of env input)) (calls_for c inputs)
          ∙ ap (λ m. m >>= λ u. emit_all fl u (calls_for c inputs)) e

  -- A run that ends well holds under each name the first of the largest definitions that the
  -- graphics shaders have of it, and in the table of its own the first of the largest that the
  -- compute shaders have; inputs that cannot be read have no part in it.
  pub process_inputs-HoldsLargest :
      (inputs : List Str) (t : Tables) (name : Str)
      → process_inputs fl env base_dir no_tables inputs ≡ some t
      → HoldsLargest fl name (calls_for false inputs) t.generated_structs
        × HoldsLargest fl name (calls_for true inputs) t.generated_compute_structs
  process_inputs-HoldsLargest inputs t name h =
      let made = process_inputs_lem no_tables t inputs h in
      (
        emit_all-HoldsLargest fl name (calls_for false inputs) t.generated_structs made.0,
        emit_all-HoldsLargest fl name (calls_for true inputs) t.generated_compute_structs made.1,
      )
