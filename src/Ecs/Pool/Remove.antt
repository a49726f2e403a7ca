-- ===== src/Ecs/Pool/Remove.antt =====
-- `removeEntity`: the pool that its swap-and-pop leaves, and what that pool holds.
use esp32_particulate_sensor.Prelude.{
  ℕ, ◌-◌, ◌<◌, ◌≡◌, ◌≢◌, false, none, some, arith, length, get_elem?, ◌==◌, if◌then◌else◌, ltb, set,
  pop_back, length-set, get_or-set, get_elem?-set, length-take, get_elem?-take, get_or_beyond,
  get_elem?_of_lt, Bool-cases, inl, inr, lt→ltb, ==_self, get_elem?_beyond, ==_iff,
}
use esp32_particulate_sensor.Ecs.Pool.{ComponentPool, invalid_index, has, get, remove_entity}
use esp32_particulate_sensor.Ecs.Pool.Invariant.{
  index_of, IsWellFormed, index_of-lt, absent-index_of, get-index_of, has_iff,
}

module _ {ℓ} {T : Type ℓ} where
  module _ (p : ComponentPool T) (v : IsWellFormed p) (e : ℕ)
      (held : index_of p e ≢ invalid_index) where
    -- The pool that `removeEntity` leaves, from the last component and its entity.
    abbrev pub removed : T → ℕ → ComponentPool T
    removed component last = record {
      m_data = pop_back (set p.m_data (index_of p e) component);
      m_entities = pop_back (set p.m_entities (index_of p e) last);
      m_sparse = set (set p.m_sparse last (index_of p e)) e invalid_index;
    }

    in_sparse : (j : ℕ) → index_of p j ≢ invalid_index → j < length p.m_sparse
    in_sparse j h = ground (arith, get_or_beyond p.m_sparse j invalid_index)

    -- No access of `removeEntity` is out of range.
    pub remove_entity-eq :
        (component : T) × (last : ℕ) × (get_elem? p.m_data (length p.m_data - 1) ≡ some component)
        × (get_elem? p.m_entities (length p.m_data - 1) ≡ some last)
        × (remove_entity p e ≡ some (removed component last))
    unfolding remove_entity
    remove_entity-eq =
        let lt : index_of p e < length p.m_data = index_of-lt v e held in
        let (component, dc) = get_elem?_of_lt p.m_data (length p.m_data - 1) (omega arith) in
        let (last, de) =
          get_elem?_of_lt p.m_entities (length p.m_data - 1) (omega (arith, v.same_length)) in
        (
          component,
          last,
          dc,
          de,
          ground (
            arith,
            lt,
            dc,
            de,
            v.same_length,
            v.bounded,
            in_sparse e held,
            in_sparse last,
            v.indexed (length p.m_data - 1) last de,
            length-set p.m_sparse last (index_of p e),
          ),
        )

    module _ (component : T) (last : ℕ)
        (de : get_elem? p.m_entities (length p.m_data - 1) ≡ some last) where
      index_of-removed :
          (j : ℕ)
          → index_of (removed component last) j
            ≡ (if e == j then invalid_index else if last == j then index_of p e else index_of p j)
      index_of-removed j = ground (
        arith,
        v.bounded,
        v.indexed (length p.m_data - 1) last de,
        index_of-lt v e held,
        in_sparse e held,
        in_sparse last,
        length-set p.m_sparse last (index_of p e),
        get_or-set (set p.m_sparse last (index_of p e)) e j invalid_index invalid_index,
        get_or-set p.m_sparse last j (index_of p e) invalid_index,
      )

      entities-removed :
          (i : ℕ)
          → get_elem? (removed component last).m_entities i ≡ (
              if ltb i (length p.m_data - 1)
              then (if index_of p e == i then some last else get_elem? p.m_entities i)
              else none)
      entities-removed i = ground (
        arith,
        v.same_length,
        index_of-lt v e held,
        length-set p.m_entities (index_of p e) last,
        get_elem?-set p.m_entities (index_of p e) i last,
        get_elem?-take (length p.m_data - 1) (set p.m_entities (index_of p e) last) i,
      )

      data-removed :
          (i : ℕ)
          → get_elem? (removed component last).m_data i ≡ (
              if ltb i (length p.m_data - 1)
              then (if index_of p e == i then some component else get_elem? p.m_data i)
              else none)
      data-removed i = ground (
        arith,
        index_of-lt v e held,
        length-set p.m_data (index_of p e) component,
        get_elem?-set p.m_data (index_of p e) i component,
        get_elem?-take (length p.m_data - 1) (set p.m_data (index_of p e) component) i,
      )

      length-removed :
          (length (removed component last).m_data ≡ length p.m_data - 1)
          × (length (removed component last).m_entities ≡ length p.m_data - 1)
      length-removed = omega (
        arith,
        v.same_length,
        length-set p.m_data (index_of p e) component,
        length-set p.m_entities (index_of p e) last,
        length-take (length (set p.m_data (index_of p e) component) - 1)
            (set p.m_data (index_of p e) component),
        length-take (length (set p.m_entities (index_of p e) last) - 1)
            (set p.m_entities (index_of p e) last),
      )

      removed-IsWellFormed : IsWellFormed (removed component last)
      removed-IsWellFormed = record {
        same_length = omega (arith, length-removed);
        bounded = omega (arith, length-removed, v.bounded);
        indexed = λ i j h. ground (
          arith,
          index_of-removed j,
          entities-removed i,
          v.indexed i j,
          v.listed e held,
          v.indexed (length p.m_data - 1) last de,
        );
        listed = λ j h. ground (
          arith,
          index_of-removed j,
          entities-removed (index_of (removed component last) j),
          v.listed j,
          v.listed e held,
          index_of-lt v e held,
          v.indexed (length p.m_data - 1) last de,
          λ (k : index_of p j ≢ invalid_index). index_of-lt v j k,
        );
      }

      module _ (dc : get_elem? p.m_data (length p.m_data - 1) ≡ some component) where
        data_moved :
            last ≢ e → get_elem? (removed component last).m_data (index_of p e) ≡ some component
        data_moved ne =
            let lt : index_of p e < length p.m_data - 1 =
              ground (arith, index_of-lt v e held, v.listed e held, de) in
            rw (data-removed (index_of p e), lt→ltb _ _ lt, ==_self (index_of p e))

        data_kept :
            (j : ℕ)
            → e ≢ j
            → last ≢ j
            → get_elem? (removed component last).m_data (index_of p j)
              ≡ get_elem? p.m_data (index_of p j)
        data_kept j ne other = elim (Bool-cases (has p j)) [
          | inl there ↦
              let kj = (has_iff p j).0 there in
              let lt : index_of p j < length p.m_data - 1 =
                ground (arith, index_of-lt v j kj, v.listed j kj, de) in
              let apart : (index_of p e == index_of p j) ≡ false =
                ground (arith, v.listed e held, v.listed j kj) in
              rw (data-removed (index_of p j), lt→ltb _ _ lt, apart)
          | inr absent ↦
              let out = absent-index_of p j absent in
              rw (
                out,
                get_elem?_beyond p.m_data invalid_index v.bounded,
                get_elem?_beyond (removed component last).m_data invalid_index
                    removed-IsWellFormed.bounded,
              )
        ]

        -- Every entity but the one taken out keeps its component.
        get-removed : (j : ℕ) → get (removed component last) j ≡ (if e == j then none else get p j)
        get-removed j =
            rw (get-index_of removed-IsWellFormed j, index_of-removed j)
              (elim (Bool-cases (e == j)) [
                | inl same ↦ rw same (
                    get_elem?_beyond (removed component last).m_data invalid_index
                      removed-IsWellFormed.bounded)
                | inr ne ↦ rw ne (elim (Bool-cases (last == j)) [
                  | inl moved ↦
                      let at_last : index_of p j ≡ length p.m_data - 1 =
                        ground (arith, v.indexed (length p.m_data - 1) last de) in
                      rw (moved, get-index_of v j, at_last, dc) (data_moved (ground arith))
                  | inr other ↦
                      rw (other, get-index_of v j) (data_kept j (ground arith) (ground arith))
                ])
              ])

  absent-get : {p : ComponentPool T} → IsWellFormed p → (e : ℕ) → has p e ≡ false → get p e ≡ none
  absent-get {p} v e absent = rw (
    get-index_of v e,
    absent-index_of p e absent,
    get_elem?_beyond p.m_data invalid_index v.bounded,
  )

  -- `removeEntity` never reads or writes out of range, keeps the invariant, and takes exactly the
  -- given entity out of the pool.
  pub remove_entity_lem :
      (p : ComponentPool T) (e : ℕ)
      → IsWellFormed p
      → (q : ComponentPool T) × (remove_entity p e ≡ some q)
        × IsWellFormed q
        × ((j : ℕ) → get q j ≡ (if e == j then none else get p j))
  unfolding has remove_entity
  remove_entity_lem p e v = elim (Bool-cases (has p e)) [
    | inl held ↦
        let in_pool = (has_iff p e).0 held in
        let (component, last, dc, de, run) = remove_entity-eq p v e in_pool in
        (
          removed p v e in_pool component last,
          run,
          removed-IsWellFormed p v e in_pool component last de,
          get-removed p v e in_pool component last de dc,
        )
    | inr absent ↦ (
      p,
      ground arith,
      v,
      λ j. elim (Bool-cases (e == j)) [
        | inl same ↦ rw (same, ← (==_iff e j).0 same) (absent-get v e absent)
        | inr other ↦ rw other
      ],
    )
  ]
