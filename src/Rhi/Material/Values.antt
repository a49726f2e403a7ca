-- ===== src/Rhi/Material/Values.antt =====
-- The byte buffer of modules/renderer_rhi/a_Material.hpp stands for one value for each uniform.
use mathlib.Core.List.{append-nil, append_assoc}
use mathlib.Core.Option.{some-injective}
use mathlib.Core.Path.{subst}
use esp32_particulate_sensor.Prelude.{
  ◌<◌, ◌%◌, ◌^◌, inl, inr, zero, suc, replicate, length-replicate, resize, ==_iff, Bool-cases,
  le→leb, ℕ, ◌≡◌, ◌+◌, ◌∙◌, refl, sym, ap, true, List, [], ◌∷◌, ◌++◌, map, some, if◌then◌else◌, leb,
  ◌==◌, length, take, drop, arith, length-append, take-append, drop-append, resize, Bool-cases,
  none, inl, inr, ◌<◌, Option, Option-cases,
}
use esp32_particulate_sensor.Rhi.Material.{
  entry_of, Material, PropertyLayout, UniformData, copy_to, find_property, Str, submit_queue,
  lookup, str_keys, set_parameter,
}

-- Written in the middle, a value replaces as many bytes.
copy_to_middle :
    (pre old post value : List ℕ)
    → length old ≡ length value
    → copy_to (pre ++ (old ++ post)) (length pre) value ≡ some (pre ++ (value ++ post))
copy_to_middle pre old post value h =
    let fits : leb (length pre + length value) (length (pre ++ (old ++ post))) ≡ true =
      le→leb _ _ (omega (arith, length-append pre (old ++ post), length-append old post)) in
    let rest : drop (length pre + length value) (pre ++ (old ++ post)) ≡ post =
      ap (λ n. drop (length pre + n) (pre ++ (old ++ post))) (sym h)
      ∙ (ap (λ n. drop n (pre ++ (old ++ post))) (sym (length-append pre old))
          ∙ (ap (λ x. drop (length (pre ++ old)) x) (sym (append_assoc pre old post))
              ∙ drop-append (pre ++ old) post)) in
    rw fits (ap some (λ i. take-append pre (old ++ post) i ++ (value ++ rest i)))

resize_nil : (n v : ℕ) → resize [] n v ≡ replicate n v
resize_nil zero v = refl
resize_nil (suc n) v = ap (λ x. v ∷ x) (resize_nil n v)

resize-replicate : (xs : List ℕ) (n v : ℕ) → resize xs (length xs + n) v ≡ xs ++ replicate n v
resize-replicate [] n v = let e : 0 + n ≡ n = omega arith in rw e (resize_nil n v)
resize-replicate (x ∷ xs) n v =
    let e : suc (length xs) + n ≡ suc (length xs + n) = omega arith in
    ap (λ k. resize (x ∷ xs) k v) e ∙ ap (λ t. x ∷ t) (resize-replicate xs n v)

-- A value behind the end of a buffer that has grown for it.
fresh_place :
    (storage value : List ℕ)
    → copy_to (resize storage (length storage + length value) 0) (length storage) value
      ≡ some (storage ++ value)
fresh_place storage value =
    ap (λ x. copy_to x (length storage) value)
      (resize-replicate storage (length value) 0
        ∙ ap (λ x. storage ++ x) (sym (append-nil (replicate (length value) 0))))
    ∙ (copy_to_middle storage (replicate (length value) 0) [] value
          (length-replicate (length value) 0)
        ∙ ap (λ x. some (storage ++ x)) (append-nil value))

module _ {T : Type 0} where
  abbrev pub all_bytes_of : List (UniformData T) → List ℕ
  all_bytes_of [] = []
  all_bytes_of (v ∷ vs) = v.data_bytes ++ all_bytes_of vs

  abbrev pub layout : ℕ → List (UniformData T) → List (PropertyLayout T)
  layout o [] = []
  layout o (v ∷ vs) =
      record { location = v.location; type = v.type; offset = o; size = length v.data_bytes }
      ∷ layout (o + length v.data_bytes) vs

  -- The material holds these values, in this order.
  pub record Represents (m : Material T) (vs : List (UniformData T)) : Type 0 where
    pub laid_out : m.m_properties ≡ layout 0 vs
    pub stored : m.m_cpu_storage ≡ all_bytes_of vs

  -- The first value of the location gets new bytes, or a new value comes last.
  abbrev pub put : ℕ → T → List ℕ → List (UniformData T) → List (UniformData T)
  put loc type bytes [] = record { location = loc; data_bytes = bytes; type = type } ∷ []
  put loc type bytes (v ∷ vs) =
      if v.location == loc then record v { data_bytes = bytes } ∷ vs else v ∷ put loc type bytes vs

  abbrev pub SameSize : ℕ → ℕ → List (UniformData T) → Type 0
  SameSize loc n [] = Unit
  SameSize loc n (v ∷ vs) = (v.location ≡ loc → length v.data_bytes ≡ n) × SameSize loc n vs

  queue_lem :
      (pre : List ℕ) (vs : List (UniformData T))
      → map (entry_of (pre ++ all_bytes_of vs)) (layout (length pre) vs) ≡ vs
  queue_lem pre [] = refl
  queue_lem pre (v ∷ vs) =
      let storage = pre ++ (v.data_bytes ++ all_bytes_of vs) in
      let here : take (length v.data_bytes) (drop (length pre) storage) ≡ v.data_bytes =
        ap (λ x. take (length v.data_bytes) x) (drop-append pre (v.data_bytes ++ all_bytes_of vs))
        ∙ take-append v.data_bytes (all_bytes_of vs) in
      let later : map (entry_of storage) (layout (length pre + length v.data_bytes) vs) ≡ vs =
        ap (λ x. map (entry_of x) (layout (length pre + length v.data_bytes) vs))
          (sym (append_assoc pre v.data_bytes (all_bytes_of vs)))
        ∙ (ap (λ o. map (entry_of ((pre ++ v.data_bytes) ++ all_bytes_of vs)) (layout o vs))
              (sym (length-append pre v.data_bytes))
            ∙ queue_lem (pre ++ v.data_bytes) vs) in
      λ i. record v { data_bytes = here i } ∷ later i

  put_new :
      (loc o : ℕ) (type : T) (bytes : List ℕ) (vs : List (UniformData T))
      → find_property loc (layout o vs) ≡ none
      → put loc type bytes vs
        ≡ vs ++ record { location = loc; data_bytes = bytes; type = type } ∷ []
  unfolding find_property
  put_new loc o type bytes [] h = refl
  put_new loc o type bytes (v ∷ vs) h =
      ground (arith, put_new loc (o + length v.data_bytes) type bytes vs)

  all_bytes_of-append :
      (vs ws : List (UniformData T)) → all_bytes_of (vs ++ ws) ≡ all_bytes_of vs ++ all_bytes_of ws
  all_bytes_of-append [] ws = refl
  all_bytes_of-append (v ∷ vs) ws =
      ap (λ x. v.data_bytes ++ x) (all_bytes_of-append vs ws)
      ∙ sym (append_assoc v.data_bytes (all_bytes_of vs) (all_bytes_of ws))

  layout-append :
      (o : ℕ) (vs ws : List (UniformData T))
      → layout o (vs ++ ws) ≡ layout o vs ++ layout (o + length (all_bytes_of vs)) ws
  layout-append o [] ws = ap (λ k. layout k ws) (omega arith)
  layout-append o (v ∷ vs) ws =
      let place : o + length v.data_bytes + length (all_bytes_of vs)
          ≡ o + length (all_bytes_of (v ∷ vs)) =
        omega (arith, length-append v.data_bytes (all_bytes_of vs)) in
      let rest =
        layout-append (o + length v.data_bytes) vs ws
        ∙ ap (λ k. layout (o + length v.data_bytes) vs ++ layout k ws) place in
      λ i.
        record { location = v.location; type = v.type; offset = o; size = length v.data_bytes }
        ∷ rest i

  -- An old value of the same size is replaced in place.
  put_old :
      (loc : ℕ) (type : T) (bytes pre : List ℕ) (vs : List (UniformData T)) (p : PropertyLayout T)
      → SameSize loc (length bytes) vs
      → find_property loc (layout (length pre) vs) ≡ some p
      → (copy_to (pre ++ all_bytes_of vs) p.offset bytes
          ≡ some (pre ++ all_bytes_of (put loc type bytes vs)))
        × (layout (length pre) (put loc type bytes vs) ≡ layout (length pre) vs)
  unfolding find_property
  put_old loc type bytes pre [] p same h = cc h
  put_old loc type bytes pre (v ∷ vs) p same h = elim (Bool-cases (v.location == loc)) [
    | inl here ↦
        let found : p.offset ≡ length pre =
          ap (λ (x : PropertyLayout T). x.offset) (sym (some-injective _ p (rw here at h))) in
        let size : length v.data_bytes ≡ length bytes = same.0 ((==_iff v.location loc).0 here) in
        (
          ap (λ o. copy_to (pre ++ (v.data_bytes ++ all_bytes_of vs)) o bytes) found
              ∙ (copy_to_middle pre v.data_bytes (all_bytes_of vs) bytes size ∙ rw here refl),
          rw here (rw size refl),
        )
    | inr other ↦
        let place = length-append pre v.data_bytes in
        let h' : find_property loc (layout (length pre + length v.data_bytes) vs) ≡ some p =
          rw other at h in
        let found : find_property loc (layout (length (pre ++ v.data_bytes)) vs) ≡ some p =
          ap (λ o. find_property loc (layout o vs)) place ∙ h' in
        let (copied, kept) = put_old loc type bytes (pre ++ v.data_bytes) vs p same.1 found in
        (
          ap (λ x. copy_to x p.offset bytes) (sym (append_assoc pre v.data_bytes (all_bytes_of vs)))
              ∙ (copied
                  ∙ rw other (
                      ap some
                        (append_assoc pre v.data_bytes (all_bytes_of (put loc type bytes vs))))),
          rw other (
              ap
                (λ x.
                  record {
                    location = v.location;
                    type = v.type;
                    offset = length pre;
                    size = length v.data_bytes;
                  }
                  ∷ x)
                (subst (λ o. layout o (put loc type bytes vs) ≡ layout o vs) place kept)),
        )
  ]

  submit_queue_lem :
      (m : Material T) (vs : List (UniformData T)) → Represents m vs → submit_queue m ≡ vs
  unfolding submit_queue
  submit_queue_lem m vs r =
      ap (λ x. map (entry_of x) m.m_properties) r.stored
      ∙ (ap (λ x. map (entry_of (all_bytes_of vs)) x) r.laid_out ∙ queue_lem [] vs)

  abbrev with_value : Material T → List ℕ → List (PropertyLayout T) → Material T
  with_value m storage properties = record m { m_cpu_storage = storage; m_properties = properties }

  module _ (name : Str) (value : List ℕ) (type : T) (m : Material T) (vs : List (UniformData T))
      (loc : ℕ) (declared : T)
      (known : lookup str_keys name m.m_uniform_table ≡ some (loc, declared)) (r : Represents m vs)
      (room : length m.m_cpu_storage + length value < 2 ^ 32) where
    abbrev result : Material T
    result = with_value m (all_bytes_of (put loc type value vs)) (layout 0 (put loc type value vs))

    abbrev laid : Material T
    laid = with_value m (all_bytes_of vs) (layout 0 vs)

    m-eq-laid : m ≡ laid
    m-eq-laid = λ i. with_value m (r.stored i) (r.laid_out i)

    room_here : length (all_bytes_of vs) + length value < 2 ^ 32
    room_here = subst (λ s. length s + length value < 2 ^ 32) r.stored room

    abbrev appended : Option (List ℕ) → ℕ → Option (Material T)
    appended o offset = elim o [
      | none ↦ none
      | some storage ↦ some (record laid {
        m_cpu_storage = storage;
        m_properties =
            layout 0 vs
            ++ record { location = loc; type = type; offset = offset; size = length value } ∷ [];
      })
    ]

    set_new :
        find_property loc (layout 0 vs) ≡ none → set_parameter name value type laid ≡ some result
    unfolding set_parameter
    set_new new =
        let s = all_bytes_of vs in
        let e : length s % 2 ^ 32 ≡ length s = omega (arith, room_here) in
        let e' : (length s + length value) % 2 ^ 32 ≡ length s + length value =
          omega (arith, room_here) in
        let one : UniformData T = record { location = loc; data_bytes = value; type = type } in
        let storage_is : s ++ value ≡ all_bytes_of (put loc type value vs) =
          ap (λ x. s ++ x) (sym (append-nil value))
          ∙ (sym (all_bytes_of-append vs (one ∷ []))
              ∙ ap all_bytes_of (sym (put_new loc 0 type value vs new))) in
        let layout_is : layout 0 vs ++ layout (length s) (one ∷ [])
            ≡ layout 0 (put loc type value vs) =
          ap (λ k. layout 0 vs ++ layout k (one ∷ [])) (omega arith)
          ∙ (sym (layout-append 0 vs (one ∷ []))
              ∙ ap (layout 0) (sym (put_new loc 0 type value vs new))) in
        rw (set_parameter, known, new)
          (ap (λ k. appended (copy_to (resize s ((k + length value) % 2 ^ 32) 0) k value) k) e
            ∙ (ap (λ k. appended (copy_to (resize s k 0) (length s) value) (length s)) e'
                ∙ (ap (λ o. appended o (length s)) (fresh_place s value)
                    ∙ (λ i. some (with_value m (storage_is i) (layout_is i))))))

    set_old :
        (p : PropertyLayout T)
        → SameSize loc (length value) vs
        → find_property loc (layout 0 vs) ≡ some p
        → set_parameter name value type laid ≡ some result
    unfolding set_parameter
    set_old p same old =
        let (copied, kept) = put_old loc type value [] vs p same old in
        rw (set_parameter, known, old)
          (rw copied
            (ap (λ l. some (with_value m (all_bytes_of (put loc type value vs)) l)) (sym kept)))

    set_known : SameSize loc (length value) vs → set_parameter name value type m ≡ some result
    set_known same =
        ap (set_parameter name value type) m-eq-laid
        ∙ elim (Option-cases (find_property loc (layout 0 vs))) [
          | inl new ↦ set_new new
          | inr (p, old) ↦ set_old p same old
        ]

  -- A value under a name that the shader has, of the size of the old value if there is one, replaces
  -- exactly that value or comes as a new one behind the others, while the buffer stays below 2^32
  -- bytes; bind then submits exactly these values.
  pub set_parameter-Represents :
      (name : Str) (value : List ℕ) (type declared : T) (m : Material T) (vs : List (UniformData T))
      (loc : ℕ)
      → Represents m vs
      → lookup str_keys name m.m_uniform_table ≡ some (loc, declared)
      → SameSize loc (length value) vs
      → length m.m_cpu_storage + length value < 2 ^ 32
      → (m' : Material T) × (set_parameter name value type m ≡ some m')
        × Represents m' (put loc type value vs)
        × (submit_queue m' ≡ put loc type value vs)
        × (m'.m_uniform_table ≡ m.m_uniform_table)
  set_parameter-Represents name value type declared m vs loc r known same room =
      let after = result name value type m vs loc declared known r room in
      let holds : Represents after (put loc type value vs) = record {
        laid_out = refl;
        stored = refl;
      } in
      (
        after,
        set_known name value type m vs loc declared known r room same,
        holds,
        submit_queue_lem after (put loc type value vs) holds,
        refl,
      )
