-- ===== src/Ecs/Registry/Rebuild.antt =====
-- `rebuildActiveEntities`: the active list becomes the union of the pools' entities.
use esp32_particulate_sensor.Prelude.{
  ℕ, ◌≡◌, Bool, false, ◌||◌, arith, List, [], ◌∷◌, ◌++◌, get_elem?-push, if◌then◌else◌, Bool-cases,
  inl, inr,
}
use esp32_particulate_sensor.Prelude.Places.{Distinct, contains, contains-append, contains_of_get}
use esp32_particulate_sensor.Ecs.Pool.{ComponentPool}
use esp32_particulate_sensor.Ecs.Registry.{
  ComponentRegistry, insert_all, unique_entities, rebuild_active_entities,
}

push-Distinct :
    (es : List ℕ) (e : ℕ) → Distinct es → contains es e ≡ false → Distinct (es ++ e ∷ [])
push-Distinct es e d out i k x p q = ground (
  arith,
  get_elem?-push es e i,
  get_elem?-push es e k,
  d i k x,
  contains_of_get es i e,
  contains_of_get es k e,
)

insert_all-Distinct : (u es : List ℕ) → Distinct u → Distinct (insert_all u es)
unfolding insert_all
insert_all-Distinct u [] d = d
insert_all-Distinct u (e ∷ es) d = elim (Bool-cases (contains u e)) [
  | inl there ↦ rw there (insert_all-Distinct u es d)
  | inr new ↦ rw new (insert_all-Distinct (u ++ e ∷ []) es (push-Distinct u e d new))
]

contains-insert_all :
    (u es : List ℕ) (j : ℕ) → contains (insert_all u es) j ≡ (contains u j || contains es j)
unfolding insert_all
contains-insert_all u [] j = ground arith
contains-insert_all u (e ∷ es) j = ground (
  arith,
  contains-insert_all (if contains u e then u else u ++ e ∷ []) es j,
  contains-append u (e ∷ []) j,
)

module _ {K C : Type 0} where
  -- Whether some pool lists the entity.
  abbrev pub in_some_pool : List (K × ComponentPool C) → ℕ → Bool
  in_some_pool [] j = false
  in_some_pool ((k, p) ∷ pools) j = contains p.m_entities j || in_some_pool pools j

  unique_entities_lem :
      (u : List ℕ) (pools : List (K × ComponentPool C))
      → Distinct u
      → Distinct (unique_entities u pools)
        × ((j : ℕ) → contains (unique_entities u pools) j ≡ (contains u j || in_some_pool pools j))
  unfolding unique_entities
  unique_entities_lem u [] d = (d, λ j. ground arith)
  unique_entities_lem u ((k, p) ∷ pools) d =
      let (rest, laws) =
        unique_entities_lem (insert_all u p.m_entities) pools
          (insert_all-Distinct u p.m_entities d) in
      (rest, λ j. ground (arith, laws j, contains-insert_all u p.m_entities j))

  -- After `rebuildActiveEntities` the active list has no entity twice, and holds exactly the
  -- entities that some pool lists.
  pub rebuild_active_entities_lem :
      (r : ComponentRegistry K C)
      → let s = rebuild_active_entities r in
        Distinct s.m_active_entities
        × ((j : ℕ) → contains s.m_active_entities j ≡ in_some_pool r.m_pools j)
  unfolding rebuild_active_entities
  rebuild_active_entities_lem r = unique_entities_lem [] r.m_pools (λ i k e p q. ground arith)
