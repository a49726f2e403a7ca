-- ===== src/Ecs/Pool/Serialize.antt =====
-- `serializePool` and `deserializePool`: the sparse array is rebuilt from the entities.
use esp32_particulate_sensor.Prelude.{
  ℕ, zero, suc, ◌+◌, ◌≤◌, ◌<◌, ◌≡◌, ◌≢◌, refl, arith, some, List, [], ◌∷◌, length, get_elem?,
  get_or, set, inl, inr, resize, length-resize, length-set, get_or-set, get_or-resize, ◌∙◌, sym, ap,
}
use esp32_particulate_sensor.Prelude.Places.{Distinct, place}
use esp32_particulate_sensor.Ecs.Pool.{
  ComponentPool, SerializedPool, invalid_index, get, max_entity, index_entities, serialize_pool,
  deserialize_pool, rebuild_sparse,
}
use esp32_particulate_sensor.Ecs.Pool.Invariant.{index_of, IsWellFormed, get-index_of}

Distinct-tail : (e : ℕ) (es : List ℕ) → Distinct (e ∷ es) → Distinct es
Distinct-tail e es d i k x p q = omega (arith, d (suc i) (suc k) x p q)

le-max_entity : (m : ℕ) (es : List ℕ) → m ≤ max_entity m es
le-max_entity m [] = omega arith
le-max_entity m (e ∷ es) = ground (arith, le-max_entity m es, le-max_entity e es)

max_entity-bound : (m : ℕ) (es : List ℕ) (k e : ℕ) → get_elem? es k ≡ some e → e ≤ max_entity m es
max_entity-bound m [] k e h = ground arith
max_entity-bound m (x ∷ es) zero e h = ground (arith, le-max_entity m es, le-max_entity x es)
max_entity-bound m (x ∷ es) (suc k) e h =
    ground (arith, max_entity-bound m es k e h, max_entity-bound x es k e h)

-- Every entity is below the length of the sparse array.
abbrev Fits : List ℕ → List ℕ → Type 0
Fits sparse es = (k e : ℕ) → get_elem? es k ≡ some e → e < length sparse

Fits-tail :
    (sparse : List ℕ) (e i : ℕ) (es : List ℕ) → Fits sparse (e ∷ es) → Fits (set sparse e i) es
Fits-tail sparse e i es f k x h = omega (arith, f (suc k) x h, length-set sparse e i)

index_entities-absent :
    (sparse : List ℕ) (i : ℕ) (es : List ℕ) (j : ℕ)
    → Fits sparse es
    → ((k : ℕ) → get_elem? es k ≢ some j)
    → get_or (index_entities sparse i es) j invalid_index ≡ get_or sparse j invalid_index
index_entities-absent sparse i [] j f out = refl
index_entities-absent sparse i (e ∷ es) j f out = ground (
  arith,
  index_entities-absent (set sparse e i) (i + 1) es j (Fits-tail sparse e i es f)
      (λ k. out (suc k)),
  get_or-set sparse e j i invalid_index,
  f 0 e,
  out 0,
)

index_entities-listed :
    (sparse : List ℕ) (i : ℕ) (es : List ℕ) (k j : ℕ)
    → Fits sparse es
    → Distinct es
    → get_elem? es k ≡ some j
    → get_or (index_entities sparse i es) j invalid_index ≡ i + k
index_entities-listed sparse i [] k j f d h = ground arith
index_entities-listed sparse i (e ∷ es) zero j f d h = ground (
  arith,
  index_entities-absent (set sparse e i) (i + 1) es j (Fits-tail sparse e i es f)
      (λ k q. absurd (omega (arith, d 0 (suc k) j h q))),
  get_or-set sparse e j i invalid_index,
  f 0 e,
)
index_entities-listed sparse i (e ∷ es) (suc k) j f d h = omega (
  arith,
  index_entities-listed (set sparse e i) (i + 1) es k j (Fits-tail sparse e i es f)
      (Distinct-tail e es d) h,
)

Fits-max_entity :
    (e : ℕ) (es : List ℕ) → Fits (resize [] (max_entity 0 (e ∷ es) + 1) invalid_index) (e ∷ es)
Fits-max_entity e es k x h = omega (
  arith,
  max_entity-bound 0 (e ∷ es) k x h,
  length-resize {A = ℕ} [] (max_entity 0 (e ∷ es) + 1) invalid_index,
)

rebuild_sparse-listed :
    (es : List ℕ) (k j : ℕ)
    → Distinct es
    → get_elem? es k ≡ some j
    → get_or (rebuild_sparse es) j invalid_index ≡ k
rebuild_sparse-listed [] k j d h = ground arith
rebuild_sparse-listed (e ∷ es) k j d h = omega (
  arith,
  index_entities-listed (resize [] (max_entity 0 (e ∷ es) + 1) invalid_index) 0 (e ∷ es) k j
      (Fits-max_entity e es) d h,
)

rebuild_sparse-absent :
    (es : List ℕ) (j : ℕ)
    → ((k : ℕ) → get_elem? es k ≢ some j)
    → get_or (rebuild_sparse es) j invalid_index ≡ invalid_index
rebuild_sparse-absent [] j out = refl
rebuild_sparse-absent (e ∷ es) j out =
    index_entities-absent (resize [] (max_entity 0 (e ∷ es) + 1) invalid_index) 0 (e ∷ es) j
      (Fits-max_entity e es) out
    ∙ get_or-resize [] (max_entity 0 (e ∷ es) + 1) j invalid_index (omega arith)

module _ {ℓ} {T : Type ℓ} where
  -- `deserializePool` builds a well-formed pool from any object whose two lists have one length and
  -- whose entities are distinct.
  pub deserialize_pool-IsWellFormed :
      (s : SerializedPool T)
      → Distinct s.entities
      → length s.components ≡ length s.entities
      → length s.components ≤ invalid_index
      → IsWellFormed (deserialize_pool s)
  unfolding deserialize_pool
  deserialize_pool-IsWellFormed s d same room = record {
    same_length = same;
    bounded = room;
    indexed = λ i e h. rebuild_sparse-listed s.entities i e d h;
    listed = λ e h. elim (place s.entities e) [
      | inl found ↦ rw (rebuild_sparse-listed s.entities found.0 e d found.1) found.1
      | inr out ↦ absurd (h (rebuild_sparse-absent s.entities e out))
    ];
  }

  pub IsWellFormed-Distinct : {p : ComponentPool T} → IsWellFormed p → Distinct p.m_entities
  IsWellFormed-Distinct v i k e p q = omega (arith, v.indexed i e p, v.indexed k e q)

  same_index :
      (p : ComponentPool T)
      → IsWellFormed p
      → (j : ℕ) → index_of (deserialize_pool (serialize_pool p)) j ≡ index_of p j
  unfolding serialize_pool deserialize_pool
  same_index p v j = elim (place p.m_entities j) [
    | inl found ↦
        rebuild_sparse-listed p.m_entities found.0 j (IsWellFormed-Distinct v) found.1
        ∙ sym (v.indexed found.0 j found.1)
    | inr out ↦
        rebuild_sparse-absent p.m_entities j out ∙ ground (arith, v.listed j, out (index_of p j))
  ]

  -- Saving a well-formed pool and loading it gives a well-formed pool with the same components for
  -- the same entities.
  pub deserialize_pool-serialize_pool :
      (p : ComponentPool T)
      → IsWellFormed p
      → IsWellFormed (deserialize_pool (serialize_pool p))
        × ((j : ℕ) → get (deserialize_pool (serialize_pool p)) j ≡ get p j)
  unfolding serialize_pool deserialize_pool
  deserialize_pool-serialize_pool p v =
      let w =
        deserialize_pool-IsWellFormed (serialize_pool p) (IsWellFormed-Distinct v) v.same_length
          v.bounded in
      (
        w,
        λ j. get-index_of w j ∙ ap (get_elem? p.m_data) (same_index p v j) ∙ sym (get-index_of v j),
      )
