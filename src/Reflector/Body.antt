-- ===== src/Reflector/Body.antt =====
-- `BuildStructBody` of tools/shader_reflector/main.cpp without its two streams.
use mathlib.Core.List.{append_assoc, append-nil}
use esp32_particulate_sensor.Prelude.{
  ◌≡◌, refl, Bool, true, ◌&&◌, List, [], ◌∷◌, ◌++◌, none, some, arith, if◌then◌else◌, Option-cases,
  Bool-cases, inl, inr, is_some,
}
use esp32_particulate_sensor.Prelude.Strings.{Str, codes}
use esp32_particulate_sensor.Reflector.Annotations.{Floats, PropertyUiMetadata}
use esp32_particulate_sensor.Reflector.{
  BlockVariable, TypeDescription, variable, members, is_array, declaration, visitor_call,
  visitor_head, build_members, build_struct_body,
}

abbrev pub is_described : BlockVariable → Bool
is_described b = is_some (variable b).type_description && is_some (variable b).name

abbrev pub all_described : List BlockVariable → Bool
all_described [] = true
all_described (b ∷ bs) = is_described b && all_described bs

-- What is written for a member, by the function that writes it.
abbrev pub for_member : (TypeDescription → Str → Str) → BlockVariable → Str
for_member f b = elim (variable b).type_description [
  | none ↦ []
  | some t ↦ elim (variable b).name [ none ↦ [] | some name ↦ f t name ]
]

abbrev pub declarations : List BlockVariable → Str
declarations [] = []
declarations (b ∷ bs) =
    for_member (λ t name. declaration t name (variable b).offset) b ++ declarations bs

module _ {F : Type 0} (fl : Floats F) (ui_metadata : List (Str × PropertyUiMetadata F)) where
  -- The visitor gets no call for an array.
  abbrev pub visitor_calls : List BlockVariable → Str
  visitor_calls [] = []
  visitor_calls (b ∷ bs) =
      for_member (λ t name. if is_array t.dims then [] else visitor_call fl ui_metadata t name) b
      ++ visitor_calls bs

  build_members_lem :
      (bs : List BlockVariable) (s v : Str)
      → build_members fl ui_metadata bs s v
        ≡ (if all_described bs then some (s ++ declarations bs, v ++ visitor_calls bs) else none)
  unfolding build_members
  build_members_lem [] s v = rw (append-nil s, append-nil v) refl
  build_members_lem (b ∷ bs) s v = elim (Option-cases (variable b).type_description) [
    | inl out ↦ ground (arith, out)
    | inr (t, typed) ↦ elim (Option-cases (variable b).name) [
      | inl out ↦ ground (arith, typed, out)
      | inr (name, named) ↦ ground (
        arith,
        typed,
        named,
        build_members_lem bs (s ++ declaration t name (variable b).offset)
            (if is_array t.dims then v else v ++ visitor_call fl ui_metadata t name),
        append_assoc s (declaration t name (variable b).offset) (declarations bs),
        append_assoc v (visitor_call fl ui_metadata t name) (visitor_calls bs),
      )
    ]
  ]

  -- The body is all declarations in the members' order, and then the visitor with the calls for the
  -- members that are no arrays, in the same order; it is written exactly if every member has a type
  -- and a name.
  pub build_struct_body-declarations :
      (b : BlockVariable)
      → build_struct_body fl ui_metadata b ≡ (
          if all_described (members b)
          then some (
              declarations (members b)
              ++ (codes "\n" ++ ((visitor_head ++ visitor_calls (members b)) ++ codes "    }\n")))
          else none)
  unfolding build_struct_body
  build_struct_body-declarations b = elim (Bool-cases (all_described (members b))) [
    | inl whole ↦ rw (build_members_lem (members b) [] (visitor_head)) (rw whole refl)
    | inr part ↦ rw (build_members_lem (members b) [] (visitor_head)) (rw part refl)
  ]
