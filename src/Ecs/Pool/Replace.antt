-- ===== src/Ecs/Pool/Replace.antt =====
-- Writing to a component through the reference that `ComponentPool::get` of core/a_registry.hpp returns.
use esp32_particulate_sensor.Prelude.{
  ℕ, ◌≡◌, ◌≢◌, ◌∙◌, ap, ◌==◌, if◌then◌else◌, some, is_some, arith, set, length-set, get_elem?,
  get_elem?-set, get_elem?-eq-get_or, get_or_beyond,
}
use esp32_particulate_sensor.Ecs.Pool.{ComponentPool, get, invalid_index}
use esp32_particulate_sensor.Ecs.Pool.Invariant.{
  IsWellFormed, has-eq-is_some, index_of, index_of-lt, get-index_of, has_iff,
}

module _ {T : Type 0} where
  -- Another value for the component that the pool holds for the entity.
  abbrev pub replaced : ComponentPool T → ℕ → T → ComponentPool T
  replaced p e c = record p { m_data = set p.m_data (index_of p e) c }

  pub held-index_of :
      {p : ComponentPool T}
      → IsWellFormed p
      → (e : ℕ) (c : T) → get p e ≡ some c
      → index_of p e ≢ invalid_index
  held-index_of {p} v e c h = (has_iff p e).0 (has-eq-is_some v e ∙ ap is_some h)

  pub replaced-WellFormed :
      {p : ComponentPool T} → IsWellFormed p → (e : ℕ) (c : T) → IsWellFormed (replaced p e c)
  replaced-WellFormed {p} v e c = record {
    same_length = length-set p.m_data (index_of p e) c ∙ v.same_length;
    bounded = omega (arith, length-set p.m_data (index_of p e) c, v.bounded);
    indexed = v.indexed;
    listed = v.listed;
  }

  pub get-replaced :
      {p : ComponentPool T}
      → IsWellFormed p
      → (e : ℕ) (b c : T) → get p e ≡ some b
      → (j : ℕ) → get (replaced p e c) j ≡ (if e == j then some c else get p j)
  get-replaced {p} v e b c h j =
      let there = held-index_of v e b h in
      rw
        (
          get-index_of (replaced-WellFormed v e c) j,
          get-index_of v j,
          get_elem?-set p.m_data (index_of p e) (index_of p j) c (index_of-lt v e there),
        )
        (ground (arith, v.listed e there, v.listed j))

  pub sparse-index_of :
      {p : ComponentPool T}
      → IsWellFormed p
      → (e : ℕ) (c : T) → get p e ≡ some c
      → get_elem? p.m_sparse e ≡ some (index_of p e)
  sparse-index_of {p} v e c h = ground (
    arith,
    held-index_of v e c h,
    get_or_beyond p.m_sparse e invalid_index,
    get_elem?-eq-get_or p.m_sparse e invalid_index,
  )
