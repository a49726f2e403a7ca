-- ===== src/Ecs/Registry/Filled.antt =====
-- `EntityHandle::add` one type after another for one entity, as code that makes entities does.
use mathlib.Core.Logic.{ite, if_pos, if_neg}
use mathlib.Core.Path.{subst}
use mathlib.Core.Option.{some-injective}
use esp32_particulate_sensor.Prelude.{
  ℕ, ◌≡◌, ◌≢◌, ◌<◌, ◌∙◌, refl, sym, ap, false, none, some, List, [], ◌∷◌, arith, if◌then◌else◌,
  ◌==◌, length, get_elem?-push, Option-cases, inl, inr, is_some, Option,
}
use esp32_particulate_sensor.Ecs.Pool.{ComponentPool, invalid_index, add, empty}
use esp32_particulate_sensor.Ecs.Pool.Invariant.{has-eq-is_some, listed-is_some-get, index_of}
use esp32_particulate_sensor.Ecs.Registry.{
  ComponentRegistry, add_component, pool_of, find_pool, put_pool, has_component,
}
use esp32_particulate_sensor.Ecs.Registry.Pools.{
  PoolsWellFormed, component, add_component_lem, pool_of-add_component, pool_of-WellFormed,
  has-pool_of,
}
use esp32_particulate_sensor.Ecs.Registry.Create.{AllBelow, PoolsBelow, IsValid}
use esp32_particulate_sensor.Prelude.{◌∷◌, false}

module _ {K C : Type 0} (same_type : Discrete K) where
  pub put_pool-Below :
      (n : ℕ) (k : K) (p : ComponentPool C) (pools : List (K × ComponentPool C))
      → AllBelow n p.m_entities
      → PoolsBelow n pools
      → PoolsBelow n (put_pool same_type k p pools)
  unfolding put_pool
  put_pool-Below n k p [] h w = (h, tt)
  put_pool-Below n k p ((i, q) ∷ pools) h w = elim (same_type i k) [
    | yes e ↦ rw (if_pos _ e) (h, w.1)
    | no e ↦ rw (if_neg _ e) (w.0, put_pool-Below n k p pools h w.1)
  ]

  find_pool-Below :
      (n : ℕ) (k : K) (p : ComponentPool C) (pools : List (K × ComponentPool C))
      → PoolsBelow n pools
      → find_pool same_type k pools ≡ some p
      → AllBelow n p.m_entities
  unfolding find_pool
  find_pool-Below n k p [] w h = cc h
  find_pool-Below n k p ((i, q) ∷ pools) w h = elim (same_type i k) [
    | yes e ↦
        let found : some q ≡ some p = rw (if_pos (same_type i k) e) at h in
        subst (λ (x : ComponentPool C). AllBelow n x.m_entities) {x = q} {y = p}
          (some-injective q p found) w.0
    | no e ↦ find_pool-Below n k p pools w.1 (rw (if_neg (same_type i k) e) at h)
  ]

  pub pool_of-Below :
      (r : ComponentRegistry K C) (n : ℕ) (k : K)
      → PoolsBelow n r.m_pools
      → AllBelow n (pool_of same_type r k).m_entities
  unfolding pool_of empty
  pool_of-Below r n k w = elim (Option-cases (find_pool same_type k r.m_pools)) [
    | inl e ↦ rw (e, pool_of) (λ i x h. ground arith)
    | inr (p, e) ↦ rw (e, pool_of) (find_pool-Below n k p r.m_pools w e)
  ]

  add-Below :
      (n e : ℕ) (p : ComponentPool C) (c : C)
      → e < n
      → AllBelow n p.m_entities
      → AllBelow n (add p e c).m_entities
  unfolding add
  add-Below n e p c below w i x h = ground (arith, get_elem?-push p.m_entities e i, w i x)

  -- An entity that no pool can hold has no component.
  pub none_above :
      (r : ComponentRegistry K C) (n e : ℕ) (k : K)
      → PoolsWellFormed r.m_pools
      → PoolsBelow n r.m_pools
      → (e < n → ⊥)
      → component same_type r k e ≡ none
  none_above r n e k w below above =
      let v = pool_of-WellFormed same_type r k w in
      let p = pool_of same_type r k in
      elim (Option-cases (component same_type r k e)) [
        | inl none_held ↦ none_held
        | inr (c, held) ↦ absurd (
            above
              (pool_of-Below r n k below (index_of p e) e (listed-is_some-get v e (rw held refl))))
      ]

  -- The entity has no component of the type, and the pool of the type is not full.
  abbrev pub Lacks : ComponentRegistry K C → ℕ → K → Type 0
  Lacks r e k =
      (component same_type r k e ≡ none) × (length (pool_of same_type r k).m_data < invalid_index)

  add_component-IsValid :
      (r : ComponentRegistry K C) (k : K) (e : ℕ) (c : C)
      → IsValid r
      → e < r.m_next_id
      → Lacks r e k
      → IsValid (add_component same_type r k e c)
        × ((j : K) (i : ℕ)
            → component same_type (add_component same_type r k e c) j i
              ≡ ite
                  (same_type k j)
                  (if e == i then some c else component same_type r k i)
                  (component same_type r j i))
  add_component-IsValid r k e c v below lacks =
      let absent : has_component same_type r k e ≡ false =
        sym (has-pool_of same_type r k e)
        ∙ has-eq-is_some (pool_of-WellFormed same_type r k v.pools) e
        ∙ ap is_some lacks.0 in
      let added = add_component_lem same_type r k e c v.pools absent lacks.1 in
      (
        record {
          pools = added.0;
          distinct = unfold add_component in v.distinct;
          active_below = unfold add_component in v.active_below;
          pools_below =
              unfold add_component in
              put_pool-Below r.m_next_id k (add (pool_of same_type r k) e c) r.m_pools
                (add-Below r.m_next_id e (pool_of same_type r k) c below
                  (pool_of-Below r r.m_next_id k v.pools_below))
                v.pools_below;
        },
        added.1,
      )

  add_component-Lacks :
      (r : ComponentRegistry K C) (k j : K) (e : ℕ) (c : C)
      → k ≢ j
      → Lacks r e j
      → Lacks (add_component same_type r k e c) e j
  add_component-Lacks r k j e c other lacks =
      rw (pool_of-add_component same_type r k j e c, if_neg (same_type k j) other) lacks

  abbrev pub with_type : K → C → (K → Option C) → K → Option C
  with_type k c given j = ite (same_type k j) (some c) (given j)

  -- `s` is `r` with the components `given` for the entity `e`.
  pub record Filled (r : ComponentRegistry K C) (e : ℕ) (given : K → Option C)
      (s : ComponentRegistry K C) : Type 0 where
    pub valid : IsValid s
    pub below : e < s.m_next_id
    pub active : s.m_active_entities ≡ r.m_active_entities
    pub reads :
        (j : K) (i : ℕ)
        → component same_type s j i ≡ (if e == i then given j else component same_type r j i)
    pub lacks : (j : K) → given j ≡ none → Lacks s e j

  pub new-Filled :
      (r : ComponentRegistry K C) (e : ℕ)
      → IsValid r
      → e < r.m_next_id
      → ((j : K) → Lacks r e j)
      → Filled r e (λ j. none) r
  new-Filled r e v below lacks = record {
    valid = v;
    below = below;
    active = refl;
    reads = λ j i. ground (arith, (lacks j).0);
    lacks = λ j h. lacks j;
  }

  pub add_component-Filled :
      (r : ComponentRegistry K C) (e : ℕ) (given : K → Option C) (s : ComponentRegistry K C) (k : K)
      (c : C)
      → Filled r e given s
      → given k ≡ none
      → Filled r e (with_type k c given) (add_component same_type s k e c)
  add_component-Filled r e given s k c f free =
      let added = add_component-IsValid s k e c f.valid f.below (f.lacks k free) in
      record {
        valid = added.0;
        below = unfold add_component in f.below;
        active = unfold add_component in f.active;
        reads = λ j i. added.1 j i ∙ elim (same_type k j) [
          | yes p ↦
              rw (if_pos (same_type k j) p, if_pos (same_type k j) p, f.reads k i)
                (ground (arith, ap (λ x. component same_type r x i) p))
          | no p ↦ rw (if_neg (same_type k j) p, if_neg (same_type k j) p) (f.reads j i)
        ];
        lacks = λ j h. elim (same_type k j) [
          | yes p ↦
              let impossible : some c ≡ none = rw (if_pos (same_type k j) p) at h in cc impossible
          | no p ↦ add_component-Lacks s k j e c p (f.lacks j (rw (if_neg (same_type k j) p) at h))
        ];
      }
