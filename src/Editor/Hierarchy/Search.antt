-- ===== src/Editor/Hierarchy/Search.antt =====
-- The search bar of gui/Panels/a_HierarchyPanel.cpp: `containsIgnoreCase`, and the entities listed.
use esp32_particulate_sensor.Prelude.{
  ℕ, ◌≡◌, ◌↔◌, refl, ◌∙◌, ap, true, if◌then◌else◌, Option, none, some, List, [], ◌∷◌, ◌++◌, map,
  arith, Option-cases, Bool-cases, inl, inr, is_some, ◌>>=◌,
}
use esp32_particulate_sensor.Prelude.Strings.{Str, codes, to_lower}
use esp32_particulate_sensor.Ecs.Pool.{has}
use esp32_particulate_sensor.Ecs.Pool.Invariant.{has-eq-is_some}
use esp32_particulate_sensor.Ecs.Registry.{
  ComponentRegistry, pool_of, get_pool, handle_has, handle_get,
}
use esp32_particulate_sensor.Ecs.Registry.Pools.{component, PoolsWellFormed, pool_of-WellFormed}
use esp32_particulate_sensor.Scene.{ComponentType, tag, ComponentType-discrete}
use esp32_particulate_sensor.Editor.Reads.{Same, Same-refl, Same-trans, get_pool-Same}
use esp32_particulate_sensor.Editor.Hierarchy.{
  matches, search, contains_ignore_case, get_entity_name, filter_entities,
}

-- A part of the text is the needle up to case.
abbrev pub Occurs : Str → Str → Type 0
Occurs haystack needle =
    (pre mid post : Str) × (haystack ≡ pre ++ (mid ++ post))
    × (map to_lower mid ≡ map to_lower needle)

matches-part :
    (s needle : Str)
    → matches s needle ≡ true
    → (mid post : Str) × (s ≡ mid ++ post) × (map to_lower mid ≡ map to_lower needle)
matches-part s [] h = ([], s, refl, refl)
matches-part [] (n ∷ ns) h = absurd (ground arith)
matches-part (b ∷ bs) (n ∷ ns) h =
    let (mid, post, split, same) = matches-part bs ns (ground (arith, h)) in
    let first : to_lower b ≡ to_lower n = ground (arith, h) in
    (b ∷ mid, post, ap (λ t. b ∷ t) split, cc (first, same))

part-matches :
    (mid post needle : Str)
    → map to_lower mid ≡ map to_lower needle
    → matches (mid ++ post) needle ≡ true
part-matches mid post [] h = refl
part-matches [] post (n ∷ ns) h = cc h
part-matches (b ∷ mid) post (n ∷ ns) h =
    let first : to_lower b ≡ to_lower n = cc h in
    let others : map to_lower mid ≡ map to_lower ns = cc h in
    ground (arith, first, part-matches mid post ns others)

search-Occurs : (s needle : Str) → search s needle ≡ true → Occurs s needle
search-Occurs [] needle h =
    let (mid, post, split, same) = matches-part [] needle h in ([], mid, post, split, same)
search-Occurs (b ∷ bs) needle h = elim (Bool-cases (matches (b ∷ bs) needle)) [
  | inl here ↦
      let (mid, post, split, same) = matches-part (b ∷ bs) needle here in
      ([], mid, post, split, same)
  | inr later ↦
      let (pre, mid, post, split, same) = search-Occurs bs needle (ground (arith, h, later)) in
      (b ∷ pre, mid, post, ap (λ t. b ∷ t) split, same)
]

matches-search : (s needle : Str) → matches s needle ≡ true → search s needle ≡ true
matches-search [] needle h = h
matches-search (b ∷ bs) needle h = ground (arith, h)

Occurs-search :
    (pre mid post needle : Str)
    → map to_lower mid ≡ map to_lower needle
    → search (pre ++ (mid ++ post)) needle ≡ true
Occurs-search [] mid post needle h =
    matches-search (mid ++ post) needle (part-matches mid post needle h)
Occurs-search (b ∷ pre) mid post needle h = ground (arith, Occurs-search pre mid post needle h)

-- `containsIgnoreCase` is true exactly if some part of the text equals the needle up to the case of
-- ASCII letters.
pub contains_ignore_case_lem :
    (haystack needle : Str) → (contains_ignore_case haystack needle ≡ true) ↔ Occurs haystack needle
unfolding contains_ignore_case
contains_ignore_case_lem haystack [] = (λ h. ([], [], haystack, refl, refl), λ h. refl)
contains_ignore_case_lem haystack (n ∷ ns) = (
  search-Occurs haystack (n ∷ ns),
  λ (pre, mid, post, split, same).
      ap (λ t. search t (n ∷ ns)) split ∙ Occurs-search pre mid post (n ∷ ns) same,
)

module _ {C : Type 0} (name_of : C → Str) (with_name : Str → C → C) where
  abbrev pub text_of : Option C → Str
  text_of none = codes "Unnamed"
  text_of (some c) = name_of c

  abbrev pub shown_name : ComponentRegistry ComponentType C → ℕ → Str
  shown_name r e = text_of (component ComponentType-discrete r tag e)

  pub get_entity_name_lem :
      (r s : ComponentRegistry ComponentType C) (e : ℕ)
      → PoolsWellFormed r.m_pools
      → Same ComponentType-discrete r s
      → (t : ComponentRegistry ComponentType C) × (get_entity_name name_of with_name s e
          ≡ some (shown_name r e, t))
        × Same ComponentType-discrete r t
  unfolding get_entity_name handle_has handle_get
  get_entity_name_lem r s e w v =
      let D = ComponentType-discrete in
      let held : has (pool_of D s tag) e ≡ is_some (component D r tag e) =
        rw (v.pools tag) (has-eq-is_some (pool_of-WellFormed D r tag w) e) in
      let s1 = get_pool D s tag in
      let s2 = get_pool D s1 tag in
      let v1 = Same-trans D r s s1 v (get_pool-Same D s tag) in
      let v2 = Same-trans D r s1 s2 v1 (get_pool-Same D s1 tag) in
      elim (Option-cases (component D r tag e)) [
        | inl none_held ↦ (s1, rw (held, none_held) refl, v1)
        | inr (c, found) ↦ (s2, rw (held, found, v1.pools tag, found, ◌>>=◌) refl, v2)
      ]

  abbrev pub listed : Str → ComponentRegistry ComponentType C → List ℕ → List ℕ
  listed query r [] = []
  listed query r (e ∷ es) =
      if contains_ignore_case (shown_name r e) query
      then e ∷ listed query r es
      else listed query r es

  filter_entities-Same :
      (query : Str) (r s : ComponentRegistry ComponentType C) (es : List ℕ)
      → PoolsWellFormed r.m_pools
      → Same ComponentType-discrete r s
      → (t : ComponentRegistry ComponentType C) × (filter_entities name_of with_name query es s
          ≡ some (listed query r es, t))
        × Same ComponentType-discrete r t
  unfolding filter_entities
  filter_entities-Same query r s [] w v = (s, refl, v)
  filter_entities-Same query r s (e ∷ es) w v =
      let (t, named, v1) = get_entity_name_lem r s e w v in
      let (u, rest, v2) = filter_entities-Same query r t es w v1 in
      (u, rw (named, rest, ◌>>=◌) refl, v2)

  -- On a registry whose pools are well formed, the panel lists exactly those of the given entities, in
  -- their order, whose name matches the search, where an entity without a Tag is named "Unnamed". It
  -- reads nothing out of range, and changes no component, no active entity and no counter.
  pub filter_entities_lem :
      (query : Str) (r : ComponentRegistry ComponentType C) (es : List ℕ)
      → PoolsWellFormed r.m_pools
      → (t : ComponentRegistry ComponentType C) × (filter_entities name_of with_name query es r
          ≡ some (listed query r es, t))
        × Same ComponentType-discrete r t
  filter_entities_lem query r es w =
      filter_entities-Same query r r es w (Same-refl ComponentType-discrete r)
