-- ===== src/Ecs/Registry/Destroy.antt =====
-- `destroyEntity`: the entity leaves every pool and the active list.
use mathlib.Core.Logic.{if_pos, if_neg, ite}
use esp32_particulate_sensor.Ecs.Pool.Invariant.{
  IsWellFormed, index_of, listed-is_some-get, is_some-get-listed,
}
use esp32_particulate_sensor.Prelude.{
  ℕ, ◌≡◌, refl, true, false, arith, Option, some, none, List, [], ◌∷◌, ◌==◌, if◌then◌else◌,
  Option-cases, inl, inr, ◌∙◌, ap, sym,
}
use esp32_particulate_sensor.Prelude.Places.{
  Distinct, contains, find_index, find_index-some, find_index-none, swap_pop-Distinct,
  contains-swap_pop, contains_of_get, get_of_contains,
}
use esp32_particulate_sensor.Ecs.Pool.{ComponentPool, get, empty}
use esp32_particulate_sensor.Ecs.Pool.Remove.{remove_entity_lem}
use esp32_particulate_sensor.Ecs.Registry.{
  ComponentRegistry, find_pool, remove_from_pools, deactivate, destroy_entity, pool_of,
}
use esp32_particulate_sensor.Ecs.Registry.Pools.{PoolsWellFormed, component}
use esp32_particulate_sensor.Ecs.Registry.Create.{IsValid, AllBelow, PoolsBelow}

deactivate-Distinct : (active : List ℕ) (e : ℕ) → Distinct active → Distinct (deactivate active e)
unfolding deactivate
deactivate-Distinct active e d = elim (Option-cases (find_index active e)) [
  | inl out ↦ rw (out, deactivate) d
  | inr (i, at) ↦
      rw (at, deactivate) (swap_pop-Distinct active d i e (find_index-some active e i at))
]

contains-deactivate :
    (active : List ℕ) (e j : ℕ)
    → Distinct active
    → contains (deactivate active e) j ≡ (if e == j then false else contains active j)
unfolding deactivate
contains-deactivate active e j d = elim (Option-cases (find_index active e)) [
  | inl out ↦ rw (out, deactivate) (ground (arith, find_index-none active e out))
  | inr (i, at) ↦
      rw (at, deactivate) (contains-swap_pop active d i e (find_index-some active e i at) j)
]

deactivate-AllBelow :
    (active : List ℕ) (e n : ℕ)
    → Distinct active
    → AllBelow n active
    → AllBelow n (deactivate active e)
deactivate-AllBelow active e n d b i x h =
    let was : contains active x ≡ true =
      ground
        (arith, contains-deactivate active e x d, contains_of_get (deactivate active e) i x h) in
    let (k, at) = get_of_contains active x was in b k x at

module _ {K C : Type 0} (same_type : Discrete K) where
  -- What the map of pools holds for a type and an entity.
  abbrev held : List (K × ComponentPool C) → K → ℕ → Option C
  held [] k e = none
  held ((j, p) ∷ pools) k e = ite (same_type j k) (get p e) (held pools k e)

  remaining-AllBelow :
      (p q : ComponentPool C) (e n : ℕ)
      → IsWellFormed p
      → IsWellFormed q
      → ((j : ℕ) → get q j ≡ (if e == j then none else get p j))
      → AllBelow n p.m_entities
      → AllBelow n q.m_entities
  remaining-AllBelow p q e n v w reads b i x h =
      b (index_of p x) x
        (listed-is_some-get v x (ground (arith, is_some-get-listed w i x h, reads x)))

  remove_from_pools_lem :
      (pools : List (K × ComponentPool C)) (e : ℕ)
      → PoolsWellFormed pools
      → (rest : List (K × ComponentPool C)) × (remove_from_pools pools e ≡ some rest)
        × PoolsWellFormed rest
        × ((n : ℕ) → PoolsBelow n pools → PoolsBelow n rest)
        × ((k : K) (j : ℕ) → held rest k j ≡ (if e == j then none else held pools k j))
  unfolding remove_from_pools
  remove_from_pools_lem [] e w = ([], refl, tt, λ n b. tt, λ k j. ground arith)
  remove_from_pools_lem ((i, p) ∷ pools) e w =
      let (q, run, vq, reads) = remove_entity_lem p e w.0 in
      let (rest, runs, vs, below, laws) = remove_from_pools_lem pools e w.1 in
      (
        (i, q) ∷ rest,
        rw (run, runs),
        (vq, vs),
        λ n b. (remaining-AllBelow p q e n w.0 vq reads b.0, below n b.1),
        λ k j. elim (same_type i k) [
          | yes same ↦ rw (if_pos (same_type i k) same, if_pos (same_type i k) same) (reads j)
          | no other ↦ rw (if_neg (same_type i k) other, if_neg (same_type i k) other) (laws k j)
        ],
      )

  found-held :
      (pools : List (K × ComponentPool C)) (k : K) (e : ℕ)
      → elim (find_pool same_type k pools) [ none ↦ none | some p ↦ get p e ] ≡ held pools k e
  unfolding find_pool
  found-held [] k e = refl
  found-held ((j, p) ∷ pools) k e = ground (arith, found-held pools k e)

  held-component :
      (r : ComponentRegistry K C) (k : K) (j : ℕ) → component same_type r k j ≡ held r.m_pools k j
  unfolding pool_of get empty
  held-component r k j = ground (arith, found-held r.m_pools k j)

  -- From a valid registry `destroyEntity` makes no access out of range and gives a valid registry, in
  -- which the entity is not active and has no component of any type, while every other entity is as
  -- active as before and keeps its components.
  pub destroy_entity_lem :
      (r : ComponentRegistry K C) (e : ℕ)
      → IsValid r
      → (s : ComponentRegistry K C) × (destroy_entity r e ≡ some s)
        × IsValid s
        × ((j : ℕ)
            → contains s.m_active_entities j
              ≡ (if e == j then false else contains r.m_active_entities j))
        × ((k : K) (j : ℕ)
            → component same_type s k j ≡ (if e == j then none else component same_type r k j))
  unfolding destroy_entity
  destroy_entity_lem r e v =
      let (rest, runs, vs, below, laws) = remove_from_pools_lem r.m_pools e v.pools in
      let active = λ (j : ℕ). contains-deactivate r.m_active_entities e j v.distinct in
      (
        record r { m_pools = rest; m_active_entities = deactivate r.m_active_entities e },
        rw runs,
        record {
          pools = vs;
          distinct = deactivate-Distinct r.m_active_entities e v.distinct;
          active_below = λ i x h.
              deactivate-AllBelow r.m_active_entities e r.m_next_id v.distinct v.active_below i x h;
          pools_below = below r.m_next_id v.pools_below;
        },
        active,
        λ k j.
            held-component
              (record r { m_pools = rest; m_active_entities = deactivate r.m_active_entities e }) k
              j
            ∙ laws k j
            ∙ ap (λ (o : Option C). if e == j then none else o) (sym (held-component r k j)),
      )
