-- ===== src/Reflector/Largest/Runs.antt =====
-- When the loop of tools/shader_reflector/main.cpp over the compiled shaders ends well, and with what.
use esp32_particulate_sensor.Prelude.{
  ◌≡◌, refl, Bool, true, false, ◌&&◌, List, [], ◌∷◌, none, some, arith, Option-cases, inl, inr,
  is_some,
}
use esp32_particulate_sensor.Prelude.Strings.{Str}
use esp32_particulate_sensor.Reflector.Annotations.{Floats}
use esp32_particulate_sensor.Reflector.{Table, members, emit_struct, struct_text}
use esp32_particulate_sensor.Reflector.Body.{all_described, build_struct_body-declarations}
use esp32_particulate_sensor.Reflector.Run.{
  Environment, Tables, module_of, process_input, process_inputs,
}
use esp32_particulate_sensor.Reflector.Largest.{Emitted, emit, emit_all, text_for, HoldsLargest}
use esp32_particulate_sensor.Reflector.Largest.Inputs.{
  annotations_for, module_calls, calls_for, no_tables, process_inputs-HoldsLargest,
  emit_bindings_lem, bindings_calls,
}

module _ {F : Type 0} (fl : Floats F) where
  text_for_lem :
      (e : Emitted F) → all_described (members e.block_of) ≡ true → is_some (text_for fl e) ≡ true
  unfolding struct_text
  text_for_lem e whole =
      rw (build_struct_body-declarations fl e.ui_metadata e.block_of) (rw whole refl)

  emit_lem :
      (t : Table) (e : Emitted F)
      → all_described (members e.block_of) ≡ true
      → is_some (emit fl t e) ≡ true
  unfolding emit_struct
  emit_lem t e whole = ground (arith, text_for_lem e whole)

  -- Every member of every block has a type and a name.
  abbrev pub calls_described : List (Emitted F) → Bool
  calls_described [] = true
  calls_described (e ∷ es) = all_described (members e.block_of) && calls_described es

  emit_all_lem :
      (t : Table) (es : List (Emitted F))
      → calls_described es ≡ true
      → is_some (emit_all fl t es) ≡ true
  emit_all_lem t [] h = refl
  emit_all_lem t (e ∷ es) h = elim (Option-cases (emit fl t e)) [
    | inl out ↦ ground (arith, out, emit_lem t e)
    | inr (u, at) ↦ ground (arith, at, emit_all_lem u es)
  ]

module _ {F : Type 0} (fl : Floats F) (env : Environment) (base_dir : Str) where
  -- The bounds in the annotations are numbers, and the modules' blocks are described.
  abbrev pub inputs_are_good : List Str → Bool
  inputs_are_good [] = true
  inputs_are_good (input ∷ inputs) =
      is_some (annotations_for fl env base_dir input)
      && ((calls_described fl (module_calls fl env base_dir false input (module_of env input))
            && calls_described fl (module_calls fl env base_dir true input (module_of env input)))
          && inputs_are_good inputs)

  process_input_lem :
      (t : Tables) (input : Str)
      → is_some (annotations_for fl env base_dir input) ≡ true
      → calls_described fl (module_calls fl env base_dir false input (module_of env input)) ≡ true
      → calls_described fl (module_calls fl env base_dir true input (module_of env input)) ≡ true
      → is_some (process_input fl env base_dir t input) ≡ true
  unfolding process_input
  process_input_lem t input read graphics compute =
      elim (Option-cases (annotations_for fl env base_dir input)) [
        | inl out ↦ ground (arith, out)
        | inr (ui, at) ↦ elim (Option-cases (module_of env input)) [
          | inl out ↦ ground (arith, at, out)
          | inr (m, found) ↦ ground (
            arith,
            at,
            found,
            emit_bindings_lem fl ui input t.generated_structs m.bindings,
            emit_bindings_lem fl ui input t.generated_compute_structs m.bindings,
            emit_all_lem fl t.generated_structs (bindings_calls fl ui input m.bindings),
            emit_all_lem fl t.generated_compute_structs (bindings_calls fl ui input m.bindings),
          )
        ]
      ]

  process_inputs_total :
      (t : Tables) (inputs : List Str)
      → inputs_are_good inputs ≡ true
      → (u : Tables) × (process_inputs fl env base_dir t inputs ≡ some u)
  unfolding process_inputs
  process_inputs_total t [] h = (t, refl)
  process_inputs_total t (input ∷ inputs) h =
      elim (Option-cases (process_input fl env base_dir t input)) [
        | inl out ↦
            let made : is_some (process_input fl env base_dir t input) ≡ true =
              process_input_lem t input (ground arith) (ground arith) (ground arith) in
            let bad : is_some {A = Tables} none ≡ true = rw out at made in cc bad
        | inr (next, at) ↦
            let (u, rest) = process_inputs_total next inputs (ground arith) in (u, rw at rest)
      ]

  -- Where the annotations' bounds are numbers and every member has a type and a name, the run ends
  -- well. Under each name it then holds the first of the largest definitions that the graphics
  -- shaders have of it, and in the table of its own the first of the largest that the compute
  -- shaders have; inputs that cannot be read or are refused have no part in it.
  pub process_inputs_lem :
      (inputs : List Str)
      → inputs_are_good inputs ≡ true
      → (t : Tables) × (process_inputs fl env base_dir no_tables inputs ≡ some t)
        × ((name : Str)
            → HoldsLargest fl name (calls_for fl env base_dir false inputs) t.generated_structs
              × HoldsLargest fl name
                  (calls_for fl env base_dir true inputs)
                  t.generated_compute_structs)
  process_inputs_lem inputs good =
      let (t, ran) = process_inputs_total no_tables inputs good in
      (t, ran, λ name. process_inputs-HoldsLargest fl env base_dir inputs t name ran)
