-- ===== src/Ecs/Pool/Invariant.antt =====
-- The sparse set's invariant, and that every operation of the pool keeps it.
use esp32_particulate_sensor.Prelude.{
  ℕ, ◌+◌, ◌≤◌, ◌<◌, ◌≡◌, refl, ◌≢◌, ◌↔◌, true, false, some, List, [], ◌∷◌, arith, length, get_elem?,
  get_or, ◌==◌, if◌then◌else◌, ltb, length-append, length-resize, get_elem?-push, get_or-set,
  get_or-resize, get_elem?-lt, get_elem?-eq-get_or, get_or_beyond, get_elem?_beyond,
  get_elem?_of_lt, is_some, Bool-cases, inl, inr, ltb→lt, sym, ◌∙◌,
}
use esp32_particulate_sensor.Ecs.Pool.{ComponentPool, invalid_index, empty, grow, add, has, get}

length-grow : (sparse : List ℕ) (e : ℕ) → e < length (grow sparse e)
length-grow sparse e = ground (arith, length-resize sparse (e + 1) invalid_index)

get_or-grow :
    (sparse : List ℕ) (e j : ℕ)
    → get_or (grow sparse e) j invalid_index ≡ get_or sparse j invalid_index
get_or-grow sparse e j = ground (arith, get_or-resize sparse (e + 1) j invalid_index)

module _ {ℓ} {T : Type ℓ} where
  -- Where the sparse array sends an entity; `invalid_index` for one that is not in the pool.
  abbrev pub index_of : ComponentPool T → ℕ → ℕ
  index_of p e = get_or p.m_sparse e invalid_index

  pub record IsWellFormed (p : ComponentPool T) : Type 0 where
    pub same_length : length p.m_data ≡ length p.m_entities
    pub bounded : length p.m_data ≤ invalid_index
    pub indexed : (i e : ℕ) → get_elem? p.m_entities i ≡ some e → index_of p e ≡ i
    pub listed :
        (e : ℕ) → index_of p e ≢ invalid_index → get_elem? p.m_entities (index_of p e) ≡ some e

  pub empty-IsWellFormed : IsWellFormed empty
  unfolding empty
  empty-IsWellFormed = record {
    same_length = refl;
    bounded = omega arith;
    indexed = λ i e h. ground arith;
    listed = λ e h. absurd (h refl);
  }

  pub has_iff : (p : ComponentPool T) (e : ℕ) → (has p e ≡ true) ↔ (index_of p e ≢ invalid_index)
  unfolding has
  has_iff p e = ground (arith, get_or_beyond p.m_sparse e invalid_index)

  pub index_of-add :
      (p : ComponentPool T) (e j : ℕ) (c : T)
      → index_of (add p e c) j ≡ (if e == j then length p.m_data else index_of p j)
  unfolding add
  index_of-add p e j c = ground (
    arith,
    get_or-set (grow p.m_sparse e) e j (length p.m_data) invalid_index,
    length-grow p.m_sparse e,
    get_or-grow p.m_sparse e j,
  )

  pub index_of-lt :
      {p : ComponentPool T}
      → IsWellFormed p
      → (e : ℕ) → index_of p e ≢ invalid_index
      → index_of p e < length p.m_data
  index_of-lt {p} v e h =
      omega (arith, get_elem?-lt p.m_entities (index_of p e) e (v.listed e h), v.same_length)

  pub entities-add :
      (p : ComponentPool T) (e : ℕ) (c : T) (i : ℕ)
      → get_elem? (add p e c).m_entities i
        ≡ (if i == length p.m_entities then some e else get_elem? p.m_entities i)
  unfolding add
  entities-add p e c i = get_elem?-push p.m_entities e i

  pub length-add :
      (p : ComponentPool T) (e : ℕ) (c : T)
      → (length (add p e c).m_data ≡ length p.m_data + 1)
        × (length (add p e c).m_entities ≡ length p.m_entities + 1)
  unfolding add
  length-add p e c =
      omega (arith, length-append p.m_data (c ∷ []), length-append p.m_entities (e ∷ []))

  pub absent-index_of :
      (p : ComponentPool T) (e : ℕ) → has p e ≡ false → index_of p e ≡ invalid_index
  unfolding has
  absent-index_of p e h = ground (arith, get_or_beyond p.m_sparse e invalid_index)

  -- Adding an entity that the pool does not hold keeps the invariant.
  pub add-IsWellFormed :
      (p : ComponentPool T) (e : ℕ) (c : T)
      → IsWellFormed p
      → has p e ≡ false
      → length p.m_data < invalid_index
      → IsWellFormed (add p e c)
  add-IsWellFormed p e c v absent room = record {
    same_length = omega (arith, length-add p e c, v.same_length);
    bounded = omega (arith, length-add p e c);
    indexed = λ i j h. ground (
      arith,
      index_of-add p e j c,
      entities-add p e c i,
      v.indexed i j,
      v.same_length,
      absent-index_of p e absent,
      get_elem?-lt p.m_entities i j,
    );
    listed = λ j h. ground (
      arith,
      index_of-add p e j c,
      entities-add p e c (index_of (add p e c) j),
      v.listed j,
      v.same_length,
      get_elem?-lt p.m_entities (index_of p j) j,
    );
  }

  -- A well-formed pool reads its components through the sparse array, in range.
  pub get-index_of :
      {p : ComponentPool T} → IsWellFormed p → (e : ℕ) → get p e ≡ get_elem? p.m_data (index_of p e)
  unfolding get
  get-index_of {p} v e = elim (Bool-cases (ltb e (length p.m_sparse))) [
    | inl inside ↦
        rw (get_elem?-eq-get_or p.m_sparse e invalid_index (ltb→lt e (length p.m_sparse) inside))
    | inr beyond ↦
        let far : length p.m_sparse ≤ e = ground arith in
        rw (
          get_elem?_beyond p.m_sparse e far,
          get_or_beyond p.m_sparse e invalid_index far,
          get_elem?_beyond p.m_data invalid_index v.bounded,
        )
  ]

  -- `has` tells exactly when `get` reads a component.
  pub has-eq-is_some :
      {p : ComponentPool T} → IsWellFormed p → (e : ℕ) → has p e ≡ is_some (get p e)
  has-eq-is_some {p} v e = elim (Bool-cases (has p e)) [
    | inl held ↦
        let i = index_of p e in
        let lt : i < length p.m_data = index_of-lt v e ((has_iff p e).0 held) in
        let (c, read) = get_elem?_of_lt p.m_data i lt in rw (held, get-index_of v e, read)
    | inr absent ↦ rw (
      absent,
      get-index_of v e,
      absent-index_of p e absent,
      get_elem?_beyond p.m_data invalid_index v.bounded,
    )
  ]

  -- The dense list of entities names exactly those that have a component.
  pub is_some-get-listed :
      {p : ComponentPool T}
      → IsWellFormed p
      → (i e : ℕ) → get_elem? p.m_entities i ≡ some e
      → is_some (get p e) ≡ true
  is_some-get-listed {p} v i e h =
      sym (has-eq-is_some v e)
      ∙ (has_iff p e).1 (λ q.
          omega (arith, v.indexed i e h, get_elem?-lt p.m_entities i e h, v.same_length, v.bounded))

  pub listed-is_some-get :
      {p : ComponentPool T}
      → IsWellFormed p
      → (e : ℕ) → is_some (get p e) ≡ true
      → get_elem? p.m_entities (index_of p e) ≡ some e
  listed-is_some-get {p} v e h = v.listed e ((has_iff p e).0 (has-eq-is_some v e ∙ h))
