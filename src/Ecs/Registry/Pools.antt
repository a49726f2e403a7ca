-- ===== src/Ecs/Registry/Pools.antt =====
-- The map of pools: lookups after writes, and the pools' invariant.
use mathlib.Core.Path.{subst}
use esp32_particulate_sensor.Prelude.{
  ℕ, ◌<◌, ◌≡◌, refl, ◌∙◌, false, Option, some, List, [], ◌∷◌, arith, length, ◌==◌, if◌then◌else◌,
  Option-cases, inl, inr,
}
use mathlib.Core.Logic.{ite, if_pos, if_neg}
use esp32_particulate_sensor.Ecs.Pool.{ComponentPool, invalid_index, empty, add, has, get}
use esp32_particulate_sensor.Ecs.Pool.Invariant.{IsWellFormed, empty-IsWellFormed, add-IsWellFormed}
use esp32_particulate_sensor.Ecs.Pool.Lookup.{get-add}
use esp32_particulate_sensor.Ecs.Registry.{
  ComponentRegistry, find_pool, put_pool, pool_of, add_component, has_component,
}

module _ {K C : Type 0} where
  abbrev pub PoolsWellFormed : List (K × ComponentPool C) → Type 0
  PoolsWellFormed [] = Unit {0}
  PoolsWellFormed ((k, p) ∷ pools) = IsWellFormed p × PoolsWellFormed pools

  module _ (same_type : Discrete K) where
    pub find_pool-put_pool :
        (k j : K) (p : ComponentPool C) (pools : List (K × ComponentPool C))
        → find_pool same_type j (put_pool same_type k p pools)
          ≡ ite (same_type k j) (some p) (find_pool same_type j pools)
    unfolding find_pool put_pool
    find_pool-put_pool k j p [] = refl
    find_pool-put_pool k j p ((i, q) ∷ pools) = ground (arith, find_pool-put_pool k j p pools)

    pub put_pool-WellFormed :
        (k : K) (p : ComponentPool C) (pools : List (K × ComponentPool C))
        → IsWellFormed p
        → PoolsWellFormed pools
        → PoolsWellFormed (put_pool same_type k p pools)
    unfolding put_pool
    put_pool-WellFormed k p [] v w = (v, tt)
    put_pool-WellFormed k p ((i, q) ∷ pools) v w = elim (same_type i k) [
      | yes e ↦ rw (if_pos _ e) (v, w.1)
      | no e ↦ rw (if_neg _ e) (w.0, put_pool-WellFormed k p pools v w.1)
    ]

    pub find_pool-WellFormed :
        (k : K) (pools : List (K × ComponentPool C)) (p : ComponentPool C)
        → PoolsWellFormed pools
        → find_pool same_type k pools ≡ some p
        → IsWellFormed p
    unfolding find_pool
    find_pool-WellFormed k [] p w h = cc
    find_pool-WellFormed k ((i, q) ∷ pools) p w h = elim (same_type i k) [
      | yes e ↦
          let found : some q ≡ some p = rw (if_pos (same_type i k) e) at h in
          subst IsWellFormed (cc found) w.0
      | no e ↦ find_pool-WellFormed k pools p w.1 (rw (if_neg (same_type i k) e) at h)
    ]

    pub pool_of-WellFormed :
        (r : ComponentRegistry K C) (k : K)
        → PoolsWellFormed r.m_pools
        → IsWellFormed (pool_of same_type r k)
    unfolding pool_of
    pool_of-WellFormed r k w = elim (Option-cases (find_pool same_type k r.m_pools)) [
      | inl e ↦ rw (e, pool_of) empty-IsWellFormed
      | inr (p, e) ↦ rw (e, pool_of) (find_pool-WellFormed k r.m_pools p w e)
    ]

    -- The component that the registry holds for an entity.
    abbrev pub component : ComponentRegistry K C → K → ℕ → Option C
    component r k e = get (pool_of same_type r k) e

    pub pool_of-add_component :
        (r : ComponentRegistry K C) (k j : K) (e : ℕ) (c : C)
        → pool_of same_type (add_component same_type r k e c) j
          ≡ ite (same_type k j) (add (pool_of same_type r k) e c) (pool_of same_type r j)
    unfolding pool_of add_component
    pool_of-add_component r k j e c =
        ground (arith, find_pool-put_pool k j (add (pool_of same_type r k) e c) r.m_pools)

    -- `has` through `getPool` and `hasComponent` agree, also where the type has no pool.
    pub has-pool_of :
        (r : ComponentRegistry K C) (k : K) (e : ℕ)
        → has (pool_of same_type r k) e ≡ has_component same_type r k e
    unfolding pool_of has_component has empty
    has-pool_of r k e = ground arith

    -- Adding a component of one type to an entity that has none of it keeps all pools well formed;
    -- the registry then gives that component for that type and entity, and every other component
    -- as before.
    pub add_component_lem :
        (r : ComponentRegistry K C) (k : K) (e : ℕ) (c : C)
        → PoolsWellFormed r.m_pools
        → has_component same_type r k e ≡ false
        → length (pool_of same_type r k).m_data < invalid_index
        → PoolsWellFormed (add_component same_type r k e c).m_pools
          × ((j : K) (i : ℕ)
              → component (add_component same_type r k e c) j i
                ≡ ite
                    (same_type k j)
                    (if e == i then some c else component r k i)
                    (component r j i))
    add_component_lem r k e c w absent room =
        let v = pool_of-WellFormed r k w in
        let out : has (pool_of same_type r k) e ≡ false = has-pool_of r k e ∙ absent in
        (
          unfold add_component in
              put_pool-WellFormed k (add (pool_of same_type r k) e c) r.m_pools
                (add-IsWellFormed (pool_of same_type r k) e c v out room) w,
          λ j i. rw (pool_of-add_component r k j e c) (elim (same_type k j) [
            | yes p ↦
                rw (if_pos (same_type k j) p, if_pos (same_type k j) p)
                  (get-add (pool_of same_type r k) e c v out room i)
            | no p ↦ rw (if_neg (same_type k j) p, if_neg (same_type k j) p)
          ]),
        )
