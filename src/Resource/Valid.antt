-- ===== src/Resource/Valid.antt =====
-- The tables of `ResourceManager`, modules/resource/resource_manager.h, fit together: names, records,
-- meshes and the list of models.
use mathlib.Core.Path.{subst}
use mathlib.Core.Option.{some-injective}
use esp32_particulate_sensor.Prelude.{
  ℕ, ◌+◌, ◌^◌, ◌<◌, ◌≡◌, refl, sym, ◌∙◌, true, false, none, some, [], ◌∷◌, ◌++◌, arith, is_some,
  get_elem?, get_elem?-push, length, length-append, ◌==◌, Bool-cases, inl, inr, Option-cases,
}
use esp32_particulate_sensor.Prelude.Places.{Distinct}
use esp32_particulate_sensor.Prelude.Strings.{Str}
use esp32_particulate_sensor.Prelude.Maps.{
  str_keys, nat_keys, lookup, assign_key, lookup-assign_key_cases, lookup-assign_key_same,
  lookup-assign_key_other, kept_by-assign_key, length-assign_key,
}
use esp32_particulate_sensor.Filesystem.{DeviceType}
use esp32_particulate_sensor.Resource.{Mesh, ModelRecord, ResourceManager, enter_model, new_manager}

module _ {V G : Type 0} where
  pub record IsValid (r : ResourceManager V G) : Type 0 where
    pub named :
        (name : Str) (id : ℕ)
        → lookup str_keys name r.m_mesh_id_by_name ≡ some id
        → (m : ModelRecord) × (lookup nat_keys id r.m_model_records ≡ some m) × (m.name ≡ name)
    pub recorded :
        (id : ℕ) (m : ModelRecord)
        → lookup nat_keys id r.m_model_records ≡ some m
        → (m.mesh_id ≡ id)
          × (lookup str_keys m.name r.m_mesh_id_by_name ≡ some id)
          × (id < r.m_next_mesh_id)
          × (is_some (lookup nat_keys id r.m_meshes) ≡ true)
    pub listed :
        (k id : ℕ)
        → get_elem? r.m_model_index_list k ≡ some id
        → is_some (lookup nat_keys id r.m_model_records) ≡ true
    pub distinct : Distinct r.m_model_index_list
    pub counted : length r.m_model_records ≡ length r.m_model_index_list

  pub new_manager-IsValid : IsValid new_manager
  unfolding new_manager lookup
  new_manager-IsValid = record {
    named = λ name id h. cc;
    recorded = λ id m h. cc;
    listed = λ k id h. cc;
    distinct = λ i k e p q. ground arith;
    counted = refl;
  }

  listed_below :
      (r : ResourceManager V G)
      → IsValid r
      → (k id : ℕ) → get_elem? r.m_model_index_list k ≡ some id
      → id < r.m_next_mesh_id
  listed_below r v k id h = elim (Option-cases (lookup nat_keys id r.m_model_records)) [
    | inl out ↦ let bad : false ≡ true = rw out at (v.listed k id h) in cc bad
    | inr (m, found) ↦ (v.recorded id m found).2
  ]

  unrecorded :
      (r : ResourceManager V G)
      → IsValid r
      → lookup nat_keys r.m_next_mesh_id r.m_model_records ≡ none
  unrecorded r v = elim (Option-cases (lookup nat_keys r.m_next_mesh_id r.m_model_records)) [
    | inl out ↦ out
    | inr (m, found) ↦ absurd (omega (arith, (v.recorded r.m_next_mesh_id m found).2))
  ]

  -- The record that `enter_model` makes.
  abbrev pub new_record : ResourceManager V G → Str → DeviceType → ModelRecord
  new_record r name type = record { mesh_id = r.m_next_mesh_id; name = name; type = type }

  named_after :
      (r : ResourceManager V G) (name : Str) (type : DeviceType)
      → IsValid r
      → (name' : Str) (id : ℕ)
      → lookup str_keys name' (assign_key str_keys name r.m_next_mesh_id r.m_mesh_id_by_name)
        ≡ some id
      → (m : ModelRecord) × (lookup nat_keys id
            (assign_key nat_keys r.m_next_mesh_id (new_record r name type) r.m_model_records)
          ≡ some m)
        × (m.name ≡ name')
  unfolding nat_keys
  named_after r name type v name' id h =
      elim (lookup-assign_key_cases str_keys name name' r.m_next_mesh_id id r.m_mesh_id_by_name h) [
        | inl (same, here) ↦ (
          new_record r name type,
          subst
              (λ i.
                lookup nat_keys i
                  (assign_key nat_keys r.m_next_mesh_id (new_record r name type) r.m_model_records)
                ≡ some (new_record r name type))
              here
              (lookup-assign_key_same nat_keys r.m_next_mesh_id (new_record r name type)
                r.m_model_records),
          same,
        )
        | inr (apart, old) ↦
            let (m, found, same) = v.named name' id old in
            let below = (v.recorded id m found).2 in
            (
              m,
              lookup-assign_key_other nat_keys r.m_next_mesh_id id (new_record r name type)
                    r.m_model_records (ground arith)
                  ∙ found,
              same,
            )
      ]

  -- What `recorded` says of one record.
  abbrev Recorded : ResourceManager V G → ℕ → ModelRecord → Type 0
  Recorded r id m =
      (m.mesh_id ≡ id)
      × (lookup str_keys m.name r.m_mesh_id_by_name ≡ some id)
      × (id < r.m_next_mesh_id)
      × (is_some (lookup nat_keys id r.m_meshes) ≡ true)

  Recorded-after :
      (r : ResourceManager V G) (name : Str) (type : DeviceType) (mesh : Mesh V)
      → IsValid r
      → lookup str_keys name r.m_mesh_id_by_name ≡ none
      → r.m_next_mesh_id + 1 < 2 ^ 32
      → (id : ℕ) (m : ModelRecord)
      → lookup nat_keys id (enter_model r name type mesh).m_model_records ≡ some m
      → Recorded (enter_model r name type mesh) id m
  unfolding enter_model
  Recorded-after r name type mesh v new room id m h =
      let n = r.m_next_mesh_id in
      let s = enter_model r name type mesh in
      elim (lookup-assign_key_cases nat_keys n id (new_record r name type) m r.m_model_records h) [
        | inl (here, same) ↦
            subst (λ x. Recorded s x m) here
              (subst (λ x. Recorded s n x) same
                (
                  refl,
                  lookup-assign_key_same str_keys name n r.m_mesh_id_by_name,
                  omega arith,
                  rw (lookup-assign_key_same nat_keys n mesh r.m_meshes) refl,
                ))
        | inr (apart, old) ↦
            let was = v.recorded id m old in
            (
              was.0,
              lookup-assign_key_other str_keys name m.name n r.m_mesh_id_by_name
                    (other_name m.name id was.1)
                  ∙ was.1,
              omega (arith, was.2),
              kept_by-assign_key nat_keys n id mesh r.m_meshes was.3,
            )
      ]
    where
      other_name :
          (x : Str) (i : ℕ)
          → lookup str_keys x r.m_mesh_id_by_name ≡ some i
          → str_keys.same name x ≡ false
      other_name x i q = elim (Bool-cases (str_keys.same name x)) [
        | inr out ↦ out
        | inl hit ↦
            let bad : none ≡ some i =
              sym (
                subst (λ y. lookup str_keys y r.m_mesh_id_by_name ≡ none)
                  (str_keys.eq_of_same name x hit) new)
              ∙ q in
            cc bad
      ]

  listed_after :
      (r : ResourceManager V G) (m : ModelRecord)
      → IsValid r
      → (k id : ℕ) → get_elem? (r.m_model_index_list ++ r.m_next_mesh_id ∷ []) k ≡ some id
      → is_some (lookup nat_keys id (assign_key nat_keys r.m_next_mesh_id m r.m_model_records))
        ≡ true
  listed_after r m v k id h =
      let at = rw (get_elem?-push r.m_model_index_list r.m_next_mesh_id k) at h in
      elim (Bool-cases (k == length r.m_model_index_list)) [
        | inl last ↦
            let here : some r.m_next_mesh_id ≡ some id = rw last at at in
            subst
              (λ i.
                is_some
                  (lookup nat_keys i (assign_key nat_keys r.m_next_mesh_id m r.m_model_records))
                ≡ true)
              (some-injective r.m_next_mesh_id id here)
              (rw (lookup-assign_key_same nat_keys r.m_next_mesh_id m r.m_model_records) refl)
        | inr before ↦
            let old : get_elem? r.m_model_index_list k ≡ some id = rw before at at in
            kept_by-assign_key nat_keys r.m_next_mesh_id id m r.m_model_records (v.listed k id old)
      ]

  pub enter_model-IsValid :
      (r : ResourceManager V G) (name : Str) (type : DeviceType) (mesh : Mesh V)
      → IsValid r
      → lookup str_keys name r.m_mesh_id_by_name ≡ none
      → r.m_next_mesh_id + 1 < 2 ^ 32
      → IsValid (enter_model r name type mesh)
  unfolding enter_model
  enter_model-IsValid r name type mesh v new room = record {
    named = named_after r name type v;
    recorded = Recorded-after r name type mesh v new room;
    listed = listed_after r (new_record r name type) v;
    distinct = λ i k x p q. ground (
      arith,
      get_elem?-push r.m_model_index_list r.m_next_mesh_id i,
      get_elem?-push r.m_model_index_list r.m_next_mesh_id k,
      v.distinct i k x,
      listed_below r v i x,
      listed_below r v k x,
    );
    counted = omega (
      arith,
      v.counted,
      length-assign_key nat_keys r.m_next_mesh_id (new_record r name type) r.m_model_records
          (unrecorded r v),
      length-append r.m_model_index_list (r.m_next_mesh_id ∷ []),
    );
  }
