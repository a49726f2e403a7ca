-- ===== src/Ecs/Registry/Create.antt =====
-- The registry's invariant, and `createEntity`.
use esp32_particulate_sensor.Prelude.{
  ℕ, ◌+◌, ◌%◌, ◌^◌, ◌<◌, ◌≡◌, false, arith, some, List, [], ◌∷◌, get_elem?, get_elem?-push, ◌==◌,
  ◌||◌,
}
use esp32_particulate_sensor.Prelude.Places.{Distinct, contains, contains_absent, contains-append}
use esp32_particulate_sensor.Ecs.Pool.{ComponentPool}
use esp32_particulate_sensor.Ecs.Registry.{ComponentRegistry, new_registry, create_entity}
use esp32_particulate_sensor.Ecs.Registry.Pools.{PoolsWellFormed}

abbrev pub AllBelow : ℕ → List ℕ → Type 0
AllBelow n es = (i e : ℕ) → get_elem? es i ≡ some e → e < n

AllBelow-mono : (n m : ℕ) (es : List ℕ) → n < m → AllBelow n es → AllBelow m es
AllBelow-mono n m es h b i e p = omega (arith, b i e p)

module _ {K C : Type 0} where
  abbrev pub PoolsBelow : ℕ → List (K × ComponentPool C) → Type 0
  PoolsBelow n [] = Unit {0}
  PoolsBelow n ((k, p) ∷ pools) = AllBelow n p.m_entities × PoolsBelow n pools

  pub record IsValid (r : ComponentRegistry K C) : Type 0 where
    pub pools : PoolsWellFormed r.m_pools
    pub distinct : Distinct r.m_active_entities
    pub active_below : AllBelow r.m_next_id r.m_active_entities
    pub pools_below : PoolsBelow r.m_next_id r.m_pools

  pub new_registry-IsValid : IsValid new_registry
  unfolding new_registry
  new_registry-IsValid = record {
    pools = tt;
    distinct = λ i k e p q. ground arith;
    active_below = λ i e h. ground arith;
    pools_below = tt;
  }

  PoolsBelow-mono :
      (n m : ℕ) (pools : List (K × ComponentPool C))
      → n < m
      → PoolsBelow n pools
      → PoolsBelow m pools
  PoolsBelow-mono n m [] h b = tt
  PoolsBelow-mono n m ((k, p) ∷ pools) h b =
      (AllBelow-mono n m p.m_entities h b.0, PoolsBelow-mono n m pools h b.1)

  -- Until the 32-bit counter is used up, `createEntity` returns an entity that is not active, and
  -- keeps the registry valid with that entity, and no other, newly active.
  pub create_entity_lem :
      (r : ComponentRegistry K C)
      → IsValid r
      → r.m_next_id + 1 < 2 ^ 32
      → let (e, s) = create_entity r in
        (contains r.m_active_entities e ≡ false)
        × IsValid s
        × ((j : ℕ) → contains s.m_active_entities j ≡ (e == j || contains r.m_active_entities j))
  unfolding create_entity
  create_entity_lem r v room = (
    contains_absent r.m_active_entities r.m_next_id
        (λ k h. absurd (omega (arith, v.active_below k r.m_next_id h))),
    record {
      pools = v.pools;
      distinct = λ i k x p q. ground (
        arith,
        get_elem?-push r.m_active_entities r.m_next_id i,
        get_elem?-push r.m_active_entities r.m_next_id k,
        v.distinct i k x,
        v.active_below i x,
        v.active_below k x,
      );
      active_below = λ i x h.
          ground (arith, get_elem?-push r.m_active_entities r.m_next_id i, v.active_below i x);
      pools_below =
          PoolsBelow-mono r.m_next_id ((r.m_next_id + 1) % 2 ^ 32) r.m_pools (omega arith)
            v.pools_below;
    },
    λ j. ground (arith, contains-append r.m_active_entities (r.m_next_id ∷ []) j),
  )
