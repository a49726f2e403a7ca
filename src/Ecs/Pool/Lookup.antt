-- ===== src/Ecs/Pool/Lookup.antt =====
-- What a pool holds after `add`, and what a second `add` of one entity does.
use esp32_particulate_sensor.Prelude.{
  ℕ, ◌<◌, ◌≡◌, true, false, arith, some, length, get_elem?, ◌==◌, if◌then◌else◌, Bool-cases, inl,
  inr, ==_self, get_elem?-push,
}
use esp32_particulate_sensor.Ecs.Pool.{ComponentPool, invalid_index, add, has, get}
use esp32_particulate_sensor.Ecs.Pool.Invariant.{
  index_of, IsWellFormed, index_of-add, get-index_of, add-IsWellFormed, index_of-lt, has_iff,
  absent-index_of, entities-add,
}

module _ {ℓ} {T : Type ℓ} where
  data-add :
      (p : ComponentPool T) (e : ℕ) (c : T) (i : ℕ)
      → get_elem? (add p e c).m_data i
        ≡ (if i == length p.m_data then some c else get_elem? p.m_data i)
  unfolding add
  data-add p e c i = get_elem?-push p.m_data c i

  -- After adding a component to an entity that the pool does not hold, `get` gives that component
  -- at this entity and what it gave before at every other one.
  pub get-add :
      (p : ComponentPool T) (e : ℕ) (c : T)
      → IsWellFormed p
      → has p e ≡ false
      → length p.m_data < invalid_index
      → (j : ℕ) → get (add p e c) j ≡ (if e == j then some c else get p j)
  get-add p e c v absent room j =
      let w = add-IsWellFormed p e c v absent room in
      rw (get-index_of w j, index_of-add p e j c, data-add)
        (elim (Bool-cases (e == j)) [
          | inl same ↦ rw (same, ==_self (length p.m_data))
          | inr other ↦
              let off : (index_of p j == length p.m_data) ≡ false =
                ground (arith, has_iff p j, absent-index_of p j, index_of-lt v j) in
              rw (other, get-index_of v j, off)
        ])

  -- A second `add` of an entity that the pool already holds breaks the sparse set: its first place
  -- in the dense arrays is no longer the one that the sparse array names.
  pub add_twice :
      (p : ComponentPool T) (e : ℕ) (c : T)
      → IsWellFormed p
      → has p e ≡ true
      → ¬ IsWellFormed (add p e c)
  add_twice p e c v held w = ground (
    arith,
    w.indexed (index_of p e) e,
    entities-add p e c (index_of p e),
    index_of-add p e e c,
    has_iff p e,
    v.listed e,
    index_of-lt v e,
    v.same_length,
  )
