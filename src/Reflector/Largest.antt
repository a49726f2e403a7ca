-- ===== src/Reflector/Largest.antt =====
-- Which definition of a name the tables of tools/shader_reflector/main.cpp hold in the end.
pub mod Inputs
pub mod Runs
use mathlib.Core.List.{append_assoc}
use mathlib.Core.Option.{some-injective}
use mathlib.Core.Path.{subst}
use mathlib.Core.List.{append-nil}
use esp32_particulate_sensor.Prelude.{sym, ap, refl, leb→le}
use esp32_particulate_sensor.Prelude.{
  ℕ, ◌≡◌, ◌≤◌, ◌<◌, ◌∙◌, refl, sym, ap, Bool, true, false, List, [], ◌∷◌, ◌++◌, Option, none, some,
  arith, leb, if◌then◌else◌, ◌>>=◌, Option-cases, Bool-cases, inl, inr,
}
use esp32_particulate_sensor.Prelude.Strings.{Str, eq_str, eq_of_eq_str, eq_str_self}
use esp32_particulate_sensor.Prelude.Maps.{
  lookup, assign_key, str_keys, lookup-assign_key_same, lookup-assign_key_other,
}
use esp32_particulate_sensor.Reflector.Annotations.{Floats, PropertyUiMetadata}
use esp32_particulate_sensor.Reflector.{
  BlockVariable, Table, StructDefinition, emit_struct, struct_text,
}

-- One call of `EmitStruct`.
pub record Emitted (F : Type 0) : Type 0 where
  pub ui_metadata : List (Str × PropertyUiMetadata F)
  pub source_file : Str
  pub struct_name : Str
  pub block_of : BlockVariable
  pub size : ℕ

apart_keys : (a b : Str) → eq_str a b ≡ false → str_keys.same a b ≡ false
unfolding str_keys
apart_keys a b h = h

module _ {F : Type 0} (fl : Floats F) where
  abbrev pub emit : Table → Emitted F → Option Table
  emit t e = emit_struct fl e.ui_metadata e.source_file t e.struct_name e.block_of e.size

  abbrev pub text_for : Emitted F → Option Str
  text_for e = struct_text fl e.ui_metadata e.struct_name e.block_of e.size e.source_file

  abbrev pub emit_all : Table → List (Emitted F) → Option Table
  emit_all t [] = some t
  emit_all t (e ∷ es) = emit t e >>= λ u. emit_all u es

  -- All definitions of the name are smaller than `n`, or no larger.
  abbrev pub AllSmaller : Str → ℕ → List (Emitted F) → Type 0
  AllSmaller name n [] = Unit
  AllSmaller name n (e ∷ es) = (e.struct_name ≡ name → e.size < n) × AllSmaller name n es

  abbrev pub AllUpTo : Str → ℕ → List (Emitted F) → Type 0
  AllUpTo name n [] = Unit
  AllUpTo name n (e ∷ es) = (e.struct_name ≡ name → e.size ≤ n) × AllUpTo name n es

  abbrev pub Unnamed : Str → List (Emitted F) → Type 0
  Unnamed name [] = Unit
  Unnamed name (e ∷ es) = (¬ (e.struct_name ≡ name)) × Unnamed name es

  -- The table holds for a name the first of its largest definitions.
  pub data HoldsLargest (name : Str) (es : List (Emitted F)) (t : Table) : Type 0 where
    absent : Unnamed name es → lookup str_keys name t ≡ none → HoldsLargest name es t
    largest :
        (before : List (Emitted F)) (e : Emitted F) (after : List (Emitted F)) (text : Str)
        → es ≡ before ++ e ∷ after
        → e.struct_name ≡ name
        → AllSmaller name e.size before
        → AllUpTo name e.size after
        → text_for e ≡ some text
        → lookup str_keys name t ≡ some (record { size = e.size; code = text })
        → HoldsLargest name es t

  smaller_mono :
      (name : Str) (n m : ℕ) (es : List (Emitted F))
      → n < m
      → AllUpTo name n es
      → AllSmaller name m es
  smaller_mono name n m [] h u = tt
  smaller_mono name n m (e ∷ es) h u =
      (λ q. let first : e.size ≤ n = u.0 q in omega arith, smaller_mono name n m es h u.1)

  up_to_weaken :
      (name : Str) (n : ℕ) (es : List (Emitted F)) → AllSmaller name n es → AllUpTo name n es
  up_to_weaken name n [] u = tt
  up_to_weaken name n (e ∷ es) u =
      (λ q. let first : e.size < n = u.0 q in omega arith, up_to_weaken name n es u.1)

  AllUpTo-append :
      (name : Str) (n : ℕ) (es fs : List (Emitted F))
      → AllUpTo name n es
      → AllUpTo name n fs
      → AllUpTo name n (es ++ fs)
  AllUpTo-append name n [] fs u v = v
  AllUpTo-append name n (e ∷ es) fs u v = (u.0, AllUpTo-append name n es fs u.1 v)

  Unnamed-append :
      (name : Str) (es fs : List (Emitted F))
      → Unnamed name es
      → Unnamed name fs
      → Unnamed name (es ++ fs)
  Unnamed-append name [] fs u v = v
  Unnamed-append name (e ∷ es) fs u v = (u.0, Unnamed-append name es fs u.1 v)

  AllSmaller-Unnamed :
      (name : Str) (n : ℕ) (es : List (Emitted F)) → Unnamed name es → AllSmaller name n es
  AllSmaller-Unnamed name n [] u = tt
  AllSmaller-Unnamed name n (e ∷ es) u = (λ q. absurd (u.0 q), AllSmaller-Unnamed name n es u.1)

  -- What one call does to the entry of its own name, and to those of others.
  emit_keeps :
      (t u : Table) (e : Emitted F) (old : StructDefinition)
      → lookup str_keys e.struct_name t ≡ some old
      → e.size ≤ old.size
      → emit t e ≡ some u
      → u ≡ t
  unfolding emit_struct
  emit_keeps t u e old found small h = ground arith

  written :
      (t u : Table) (e : Emitted F)
      → (text_for e >>= λ text.
          some (assign_key str_keys e.struct_name (record { size = e.size; code = text }) t))
        ≡ some u
      → (text : Str) × (text_for e ≡ some text)
        × (u ≡ assign_key str_keys e.struct_name (record { size = e.size; code = text }) t)
  written t u e h = elim (Option-cases (text_for e)) [
    | inl out ↦ let bad : none ≡ some u = rw out at h in cc bad
    | inr (text, at) ↦
        let e' : some (assign_key str_keys e.struct_name (record { size = e.size; code = text }) t)
            ≡ some u =
          rw at at h in
        (text, at, sym (some-injective _ _ e'))
  ]

  emit_writes :
      (t u : Table) (e : Emitted F)
      → ((old : StructDefinition) → lookup str_keys e.struct_name t ≡ some old → old.size < e.size)
      → emit t e ≡ some u
      → (text : Str) × (text_for e ≡ some text)
        × (u ≡ assign_key str_keys e.struct_name (record { size = e.size; code = text }) t)
  unfolding emit_struct
  emit_writes t u e grows h = written t u e (elim (Option-cases (lookup str_keys e.struct_name t)) [
    | inl new ↦ rw (emit_struct, new) at h
    | inr (old, found) ↦
        let small : leb e.size old.size ≡ false = ground (arith, grows old found) in
        rw (emit_struct, found, small) at h
  ])

  emit_other :
      (t u : Table) (e : Emitted F) (name : Str)
      → eq_str e.struct_name name ≡ false
      → emit t e ≡ some u
      → lookup str_keys name u ≡ lookup str_keys name t
  unfolding emit_struct
  emit_other t u e name other h = elim (Option-cases (lookup str_keys e.struct_name t)) [
    | inl new ↦ changed (λ old found. let bad : none ≡ some old = rw new at found in cc bad)
    | inr (old, found) ↦ elim (Bool-cases (leb e.size old.size)) [
      | inl small ↦ rw (emit_keeps t u e old found (leb→le e.size old.size small) h) refl
      | inr large ↦ changed (λ old' found'.
          let same : some old ≡ some old' = sym found ∙ found' in ground (arith, large))
    ]
  ]
    where
      changed :
          ((old : StructDefinition)
            → lookup str_keys e.struct_name t ≡ some old
            → old.size < e.size)
          → lookup str_keys name u ≡ lookup str_keys name t
      changed grows =
          let (text, at, eq) = emit_writes t u e grows h in
          ap (λ x. lookup str_keys name x) eq
          ∙ lookup-assign_key_other str_keys e.struct_name name
              (record { size = e.size; code = text }) t (apart_keys e.struct_name name other)

  AllSmaller-append :
      (name : Str) (n : ℕ) (es fs : List (Emitted F))
      → AllSmaller name n es
      → AllSmaller name n fs
      → AllSmaller name n (es ++ fs)
  AllSmaller-append name n [] fs u v = v
  AllSmaller-append name n (e ∷ es) fs u v = (u.0, AllSmaller-append name n es fs u.1 v)

  differ :
      (e : Emitted F) (name : Str) → eq_str e.struct_name name ≡ false → ¬ (e.struct_name ≡ name)
  differ e name other q =
      let equal : eq_str e.struct_name name ≡ true =
        ap (λ x. eq_str e.struct_name x) (sym q) ∙ eq_str_self e.struct_name in
      cc (other, equal)

  reads_back :
      (t u : Table) (a name : Str) (d : StructDefinition)
      → u ≡ assign_key str_keys a d t
      → a ≡ name
      → lookup str_keys name u ≡ some d
  reads_back t u a name d eq here =
      ap (λ x. lookup str_keys name x) eq
      ∙ (ap (λ x. lookup str_keys x (assign_key str_keys a d t)) (sym here)
          ∙ lookup-assign_key_same str_keys a d t)

  found_is :
      (t : Table) (a name : Str) (old d : StructDefinition)
      → a ≡ name
      → lookup str_keys a t ≡ some old
      → lookup str_keys name t ≡ some d
      → old ≡ d
  found_is t a name old d here found there =
      some-injective old d (sym found ∙ (ap (λ x. lookup str_keys x t) here ∙ there))

  emit-HoldsLargest :
      (name : Str) (es : List (Emitted F)) (t u : Table) (e : Emitted F)
      → HoldsLargest name es t
      → emit t e ≡ some u
      → HoldsLargest name (es ++ e ∷ []) u
  emit-HoldsLargest name es t u e (absent none_named out) h =
      elim (Bool-cases (eq_str e.struct_name name)) [
        | inl same ↦
            let here : e.struct_name ≡ name = eq_of_eq_str e.struct_name name same in
            let new : lookup str_keys e.struct_name t ≡ none =
              ap (λ x. lookup str_keys x t) here ∙ out in
            let (text, at, eq) =
              emit_writes t u e (λ old found. let bad : none ≡ some old = sym new ∙ found in cc bad)
                h in
            largest es e [] text refl here (AllSmaller-Unnamed name e.size es none_named) tt at
              (reads_back t u e.struct_name name _ eq here)
        | inr other ↦
            absent (Unnamed-append name es (e ∷ []) none_named (differ e name other, tt))
              (emit_other t u e name other h ∙ out)
      ]
  emit-HoldsLargest name es t u e (largest before l after text split named below upto at there) h =
      elim (Bool-cases (eq_str e.struct_name name)) [
        | inl same ↦
            let here : e.struct_name ≡ name = eq_of_eq_str e.struct_name name same in
            elim (Bool-cases (leb e.size l.size)) [
              | inl small ↦
                  let fits : e.size ≤ l.size = leb→le e.size l.size small in
                  let found : lookup str_keys e.struct_name t
                      ≡ some (record { size = l.size; code = text }) =
                    ap (λ x. lookup str_keys x t) here ∙ there in
                  stays (λ q. fits)
                    (ap (λ x. lookup str_keys name x) (emit_keeps t u e _ found fits h) ∙ there)
              | inr large ↦
                  let bigger : l.size < e.size = ground (arith, large) in
                  let (text', at', eq) =
                    emit_writes t u e
                      (λ old found.
                        let size_is : old.size ≡ l.size =
                          ap (λ (d : StructDefinition). d.size)
                            (found_is t e.struct_name name old _ here found there) in
                        omega arith)
                      h in
                  largest es e [] text' refl here
                    (subst (λ x. AllSmaller name e.size x) (sym split)
                      (AllSmaller-append name e.size before (l ∷ after)
                        (smaller_mono name l.size e.size before bigger
                          (up_to_weaken name l.size before below))
                        ((λ q. bigger), smaller_mono name l.size e.size after bigger upto)))
                    tt at' (reads_back t u e.struct_name name _ eq here)
            ]
        | inr other ↦
            stays (λ q. absurd (differ e name other q)) (emit_other t u e name other h ∙ there)
      ]
    where
      stays :
          (e.struct_name ≡ name → e.size ≤ l.size)
          → lookup str_keys name u ≡ some (record { size = l.size; code = text })
          → HoldsLargest name (es ++ e ∷ []) u
      stays no_larger still =
          largest before l (after ++ e ∷ []) text
            (ap (λ x. x ++ e ∷ []) split ∙ append_assoc before (l ∷ after) (e ∷ [])) named below
            (AllUpTo-append name l.size after (e ∷ []) upto (no_larger, tt)) at still

  emit_all_seen-HoldsLargest :
      (name : Str) (seen es : List (Emitted F)) (t u : Table)
      → HoldsLargest name seen t
      → emit_all t es ≡ some u
      → HoldsLargest name (seen ++ es) u
  emit_all_seen-HoldsLargest name seen [] t u holds h =
      subst (λ x. HoldsLargest name x u) (sym (append-nil seen))
        (subst (λ x. HoldsLargest name seen x) (some-injective t u h) holds)
  emit_all_seen-HoldsLargest name seen (e ∷ es) t u holds h = elim (Option-cases (emit t e)) [
    | inl out ↦ let bad : none ≡ some u = rw out at h in cc bad
    | inr (next, at) ↦
        subst (λ x. HoldsLargest name x u) (append_assoc seen (e ∷ []) es)
          (emit_all_seen-HoldsLargest name (seen ++ e ∷ []) es next u
            (emit-HoldsLargest name seen t next e holds at) (rw at at h))
  ]

  -- However the calls come, the table of a run that ends well holds for each name the first of its
  -- largest definitions, and nothing for a name without one.
  pub emit_all-HoldsLargest :
      (name : Str) (es : List (Emitted F)) (t : Table)
      → emit_all [] es ≡ some t
      → HoldsLargest name es t
  unfolding lookup
  emit_all-HoldsLargest name es t h = emit_all_seen-HoldsLargest name [] es [] t (absent tt refl) h
