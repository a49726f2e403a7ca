-- ===== src/Editor/Reads.antt =====
-- `EntityHandle::has` and `get` of the registry: they may make a pool, and change nothing else.
use mathlib.Core.Logic.{if_pos, if_neg}
use esp32_particulate_sensor.Prelude.{ℕ, ◌≡◌, refl, ◌∙◌, ap, is_some, Option, none, some}
use esp32_particulate_sensor.Ecs.Pool.{ComponentPool, empty}
use esp32_particulate_sensor.Ecs.Pool.Invariant.{has-eq-is_some}
use esp32_particulate_sensor.Ecs.Registry.{
  ComponentRegistry, pool_of, get_pool, handle_has, handle_get,
}
use esp32_particulate_sensor.Ecs.Registry.Pools.{
  component, find_pool-put_pool, PoolsWellFormed, pool_of-WellFormed, put_pool-WellFormed,
}
use esp32_particulate_sensor.Ecs.Registry.Create.{IsValid}
use esp32_particulate_sensor.Ecs.Registry.Filled.{put_pool-Below, pool_of-Below}

module _ {K C : Type 0} (same_type : Discrete K) where
  -- All that code reads through handles is the same in both, and the second is valid if the first is.
  pub record Same (r s : ComponentRegistry K C) : Type 0 where
    pub pools : (k : K) → pool_of same_type s k ≡ pool_of same_type r k
    pub active : s.m_active_entities ≡ r.m_active_entities
    pub next_id : s.m_next_id ≡ r.m_next_id
    pub keeps : IsValid r → IsValid s

  pub Same-refl : (r : ComponentRegistry K C) → Same r r
  Same-refl r = record { pools = λ k. refl; active = refl; next_id = refl; keeps = λ v. v }

  pub Same-trans : (r s t : ComponentRegistry K C) → Same r s → Same s t → Same r t
  Same-trans r s t v w = record {
    pools = λ k. w.pools k ∙ v.pools k;
    active = w.active ∙ v.active;
    next_id = w.next_id ∙ v.next_id;
    keeps = λ x. w.keeps (v.keeps x);
  }

  abbrev pool_or : Option (ComponentPool C) → ComponentPool C
  pool_or none = empty
  pool_or (some p) = p

  pool_of-get_pool :
      (r : ComponentRegistry K C) (k j : K)
      → pool_of same_type (get_pool same_type r k) j ≡ pool_of same_type r j
  unfolding pool_of get_pool
  pool_of-get_pool r k j =
      ap (λ o. pool_or o) (find_pool-put_pool same_type k j (pool_of same_type r k) r.m_pools)
      ∙ elim (same_type k j) [
        | yes p ↦ rw (if_pos (same_type k j) p) (ap (pool_of same_type r) p)
        | no p ↦ rw (if_neg (same_type k j) p) refl
      ]

  get_pool-IsValid :
      (r : ComponentRegistry K C) (k : K) → IsValid r → IsValid (get_pool same_type r k)
  unfolding get_pool
  get_pool-IsValid r k v = record {
    pools =
        put_pool-WellFormed same_type k (pool_of same_type r k) r.m_pools
          (pool_of-WellFormed same_type r k v.pools) v.pools;
    distinct = v.distinct;
    active_below = v.active_below;
    pools_below =
        put_pool-Below same_type r.m_next_id k (pool_of same_type r k) r.m_pools
          (pool_of-Below same_type r r.m_next_id k v.pools_below) v.pools_below;
  }

  pub get_pool-Same : (r : ComponentRegistry K C) (k : K) → Same r (get_pool same_type r k)
  get_pool-Same r k = record {
    pools = pool_of-get_pool r k;
    active = unfold get_pool in refl;
    next_id = unfold get_pool in refl;
    keeps = get_pool-IsValid r k;
  }

  pub handle_has-Same :
      (r : ComponentRegistry K C) (k : K) (e : ℕ) → Same r (handle_has same_type r k e).1
  unfolding handle_has
  handle_has-Same r k e = get_pool-Same r k

  pub handle_get-Same :
      (r : ComponentRegistry K C) (k : K) (e : ℕ) → Same r (handle_get same_type r k e).1
  unfolding handle_get
  handle_get-Same r k e = get_pool-Same r k

  pub has-is_some :
      (r : ComponentRegistry K C) (k : K) (e : ℕ)
      → PoolsWellFormed r.m_pools
      → (handle_has same_type r k e).0 ≡ is_some (component same_type r k e)
  unfolding handle_has
  has-is_some r k e w = has-eq-is_some (pool_of-WellFormed same_type r k w) e
