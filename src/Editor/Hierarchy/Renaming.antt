-- ===== src/Editor/Hierarchy/Renaming.antt =====
-- The renaming of gui/Panels/a_HierarchyPanel.cpp: the assignment to a component's name.
use mathlib.Core.Logic.{ite, if_pos, if_neg}
use esp32_particulate_sensor.Prelude.{
  ℕ, ◌≡◌, refl, ◌∙◌, sym, ap, Bool, true, false, ◌&&◌, ◌==◌, if◌then◌else◌, Option, none, some,
  arith, Option-cases, Bool-cases, inl, inr, ◌>>=◌, lt→ltb,
}
use esp32_particulate_sensor.Prelude.Strings.{Str}
use esp32_particulate_sensor.Ecs.Pool.{get}
use esp32_particulate_sensor.Ecs.Pool.Invariant.{has-eq-is_some, index_of-lt}
use esp32_particulate_sensor.Ecs.Pool.Replace.{
  replaced, held-index_of, replaced-WellFormed, get-replaced, sparse-index_of,
}
use esp32_particulate_sensor.Ecs.Registry.{
  ComponentRegistry, pool_of, get_pool, put_pool, handle_has,
}
use esp32_particulate_sensor.Ecs.Registry.Pools.{
  component, PoolsWellFormed, pool_of-WellFormed, put_pool-WellFormed, find_pool-put_pool,
}
use esp32_particulate_sensor.Ecs.Registry.Create.{IsValid}
use esp32_particulate_sensor.Ecs.Registry.Filled.{put_pool-Below, pool_of-Below}
use esp32_particulate_sensor.Scene.{ComponentType, tag, ComponentType-discrete}
use esp32_particulate_sensor.Editor.Reads.{Same, Same-refl, get_pool-Same}
use esp32_particulate_sensor.Ecs.Registry.{invalid_entity_id}
use esp32_particulate_sensor.Editor.Hierarchy.{
  HierarchyPanel, Node, assign_name, draw_renaming_input, is_typed,
}

module _ {C : Type 0} (name_of : C → Str) (with_name : Str → C → C) where
  abbrev renamed : ComponentRegistry ComponentType C → ℕ → C → ComponentRegistry ComponentType C
  renamed r e c = record r {
    m_pools =
        put_pool ComponentType-discrete tag (replaced (pool_of ComponentType-discrete r tag) e c)
          r.m_pools;
  }

  assign_name-eq :
      (r : ComponentRegistry ComponentType C) (e : ℕ) (name : Str) (c : C)
      → PoolsWellFormed r.m_pools
      → component ComponentType-discrete r tag e ≡ some c
      → assign_name name_of with_name r e name ≡ some (renamed r e (with_name name c))
  unfolding assign_name
  assign_name-eq r e name c w held =
      let v = pool_of-WellFormed ComponentType-discrete r tag w in
      let p = pool_of ComponentType-discrete r tag in
      let inside = index_of-lt v e (held-index_of v e c held) in
      rw (held, sparse-index_of v e c held, lt→ltb _ _ inside, ◌>>=◌) refl

  renamed-IsValid :
      (r : ComponentRegistry ComponentType C) (e : ℕ) (c : C) → IsValid r → IsValid (renamed r e c)
  renamed-IsValid r e c v =
      let D = ComponentType-discrete in
      let q = replaced (pool_of D r tag) e c in
      record {
        pools =
            put_pool-WellFormed D tag q r.m_pools
              (replaced-WellFormed (pool_of-WellFormed D r tag v.pools) e c) v.pools;
        distinct = v.distinct;
        active_below = v.active_below;
        pools_below =
            put_pool-Below D r.m_next_id tag q r.m_pools
              (pool_of-Below D r r.m_next_id tag v.pools_below) v.pools_below;
      }

  pool_of-renamed :
      (r : ComponentRegistry ComponentType C) (e : ℕ) (c : C) (k : ComponentType)
      → pool_of ComponentType-discrete (renamed r e c) k
        ≡ ite
            (ComponentType-discrete tag k)
            (replaced (pool_of ComponentType-discrete r tag) e c)
            (pool_of ComponentType-discrete r k)
  unfolding pool_of
  pool_of-renamed r e c k = ground (
    arith,
    find_pool-put_pool ComponentType-discrete tag k
        (replaced (pool_of ComponentType-discrete r tag) e c) r.m_pools,
  )

  -- The new name in the component, if there is one.
  abbrev pub retitled : Str → Option C → Option C
  retitled name none = none
  retitled name (some c) = some (with_name name c)

  -- All components after the name of the entity is set, or not.
  abbrev pub IsRenamed :
      Bool
      → ℕ
      → Str
      → ComponentRegistry ComponentType C
      → ComponentRegistry ComponentType C
      → Type 0
  IsRenamed set_it e name r s =
      (IsValid r → IsValid s)
      × (s.m_active_entities ≡ r.m_active_entities)
      × (s.m_next_id ≡ r.m_next_id)
      × ((k : ComponentType) (j : ℕ)
          → component ComponentType-discrete s k j
            ≡ ite (ComponentType-discrete tag k)
                (if set_it && (e == j)
                  then retitled name (component ComponentType-discrete r k j)
                  else component ComponentType-discrete r k j)
                (component ComponentType-discrete r k j))

  Same-IsRenamed :
      (e : ℕ) (name : Str) (r s : ComponentRegistry ComponentType C) (set_it : Bool)
      → Same ComponentType-discrete r s
      → (set_it ≡ true → component ComponentType-discrete r tag e ≡ none)
      → IsRenamed set_it e name r s
  Same-IsRenamed e name r s set_it v absent = (
    v.keeps,
    v.active,
    v.next_id,
    λ k j. rw (v.pools k) (elim (ComponentType-discrete tag k) [
      | yes p ↦
          rw (if_pos (ComponentType-discrete tag k) p) (elim (Bool-cases (set_it && (e == j))) [
            | inl both ↦
                let ej : e ≡ j = ground (arith, both) in
                let here : component ComponentType-discrete r k j ≡ none =
                  sym (ap (component ComponentType-discrete r k) ej)
                  ∙ sym (ap (λ x. component ComponentType-discrete r x e) p)
                  ∙ absent (ground (arith, both)) in
                rw (both, here) refl
            | inr other ↦ rw other refl
          ])
      | no p ↦ rw (if_neg (ComponentType-discrete tag k) p) refl
    ]),
  )

  renamed-IsRenamed :
      (e : ℕ) (name : Str) (r s : ComponentRegistry ComponentType C) (c : C)
      → Same ComponentType-discrete r s
      → IsValid r
      → component ComponentType-discrete s tag e ≡ some c
      → IsRenamed true e name r (renamed s e (with_name name c))
  renamed-IsRenamed e name r s c v w held =
      let D = ComponentType-discrete in
      (
        λ x. renamed-IsValid s e (with_name name c) (v.keeps x),
        v.active,
        v.next_id,
        λ k j. rw (pool_of-renamed s e (with_name name c) k) (elim (D tag k) [
          | yes p ↦
              rw (if_pos (D tag k) p, if_pos (D tag k) p)
                (rw
                  (get-replaced (pool_of-WellFormed D s tag (v.keeps w).pools) e c
                    (with_name name c) held j)
                  (elim (Bool-cases (e == j)) [
                    | inl same ↦
                        let ej : e ≡ j = ground (arith, same) in
                        let here : component D r k j ≡ some c =
                          sym (ap (component D r k) ej)
                          ∙ sym (ap (λ x. component D r x e) p)
                          ∙ sym (ap (λ q. get q e) (v.pools tag))
                          ∙ held in
                        rw (same, here) refl
                    | inr other ↦
                        rw other (ap (λ q. get q j) (v.pools tag) ∙ ap (λ x. component D r x j) p)
                  ]))
          | no p ↦ rw (if_neg (D tag k) p, if_neg (D tag k) p, v.pools k) refl
        ]),
      )

  -- On a valid registry `drawRenamingInput` never reads or writes out of range. While the input has the
  -- focus nothing of the registry changes. When the input loses it, the renaming ends, and a Tag of
  -- the entity gets the text in the buffer as its name, unless that is empty; no other component, no
  -- active entity and no counter changes, and the registry stays valid.
  pub draw_renaming_input_lem :
      (n : Node) (p : HierarchyPanel) (r : ComponentRegistry ComponentType C) (e : ℕ)
      → IsValid r
      → (q : HierarchyPanel) × (s : ComponentRegistry ComponentType C) × (draw_renaming_input
            name_of with_name n p r e
          ≡ some (q, s))
        × (q.renaming_entity ≡ (if n.deactivated then invalid_entity_id else p.renaming_entity))
        × IsRenamed (n.deactivated && is_typed n.typed) e n.typed r s
  unfolding draw_renaming_input handle_has
  draw_renaming_input_lem n p r e v =
      let D = ComponentType-discrete in
      let drawn = record p { rename_buffer = n.typed; focus_rename_input = false } in
      let left = record drawn { renaming_entity = invalid_entity_id } in
      let s = get_pool D r tag in
      let same = get_pool-Same D r tag in
      let held = has-eq-is_some (pool_of-WellFormed D r tag v.pools) e in
      elim (Bool-cases n.deactivated) [
        | inr focused ↦ (
          drawn,
          r,
          rw focused refl,
          rw focused refl,
          rw focused (
              Same-IsRenamed e n.typed r r false (Same-refl D r) (λ h. absurd (ground (arith, h)))),
        )
        | inl lost ↦ elim (Bool-cases (is_typed n.typed)) [
          | inr empty_text ↦ (
            left,
            s,
            ground (arith, lost, empty_text),
            rw lost refl,
            rw (lost, empty_text)
                (Same-IsRenamed e n.typed r s false same (λ h. absurd (ground (arith, h)))),
          )
          | inl text ↦ elim (Option-cases (component D r tag e)) [
            | inl none_held ↦ (
              left,
              s,
              rw (lost, held, none_held) refl,
              rw lost refl,
              rw (lost, text) (Same-IsRenamed e n.typed r s true same (λ h. none_held)),
            )
            | inr (c, found) ↦
                let read : component D s tag e ≡ some c = rw (same.pools tag) found in
                (
                  left,
                  renamed s e (with_name n.typed c),
                  rw
                      (
                        lost,
                        held,
                        found,
                        text,
                        assign_name-eq s e n.typed c (same.keeps v).pools read,
                        ◌>>=◌,
                      )
                      refl,
                  rw lost refl,
                  rw (lost, text) (renamed-IsRenamed e n.typed r s c same v read),
                )
          ]
        ]
      ]
