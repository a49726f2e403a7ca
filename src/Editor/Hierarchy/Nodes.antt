-- ===== src/Editor/Hierarchy/Nodes.antt =====
-- The nodes of gui/Panels/a_HierarchyPanel.cpp: selection, deletion and the start of a renaming.
use esp32_particulate_sensor.Prelude.{
  take, ℕ, ◌≡◌, ◌⊎◌, refl, ◌∙◌, ap, Bool, true, false, ◌&&◌, not, ◌==◌, if◌then◌else◌, Option, some,
  arith, Bool-cases, inl, inr, ◌>>=◌, ==_self,
}
use esp32_particulate_sensor.Prelude.Strings.{Str, c_str}
use esp32_particulate_sensor.Prelude.Places.{contains}
use esp32_particulate_sensor.Ecs.Registry.{ComponentRegistry}
use esp32_particulate_sensor.Ecs.Registry.Create.{IsValid}
use esp32_particulate_sensor.Ecs.Registry.Destroy.{destroy_entity_lem}
use esp32_particulate_sensor.Scene.{ComponentType, ComponentType-discrete}
use esp32_particulate_sensor.Editor.{EditorContext, select}
use esp32_particulate_sensor.Ecs.Registry.{invalid_entity_id}
use esp32_particulate_sensor.Editor.Reads.{Same, Same-refl}
use esp32_particulate_sensor.Editor.Hierarchy.{
  HierarchyPanel, Node, select_entity, begin_rename, draw_normal_selectable, delete_item,
  rename_item, draw_entity_context_menu, draw_entity_node,
}
use esp32_particulate_sensor.Editor.Hierarchy.Search.{shown_name, get_entity_name_lem}
use esp32_particulate_sensor.Editor.Hierarchy.Renaming.{draw_renaming_input_lem}

module _ {C : Type 0} where
  -- Valid, with no selected entity or an active one.
  pub record IsSound (ctx : EditorContext C) : Type 0 where
    pub valid : IsValid ctx.registry
    pub selected :
        (ctx.selected_entity ≡ invalid_entity_id)
        ⊎ (contains ctx.registry.m_active_entities ctx.selected_entity ≡ true)

  -- The same context, with a registry that reads the same.
  with_registry-IsSound :
      (ctx : EditorContext C) (r : ComponentRegistry ComponentType C)
      → IsSound ctx
      → IsValid r
      → r.m_active_entities ≡ ctx.registry.m_active_entities
      → IsSound (record ctx { registry = r })
  with_registry-IsSound ctx r v w same = record { valid = w; selected = rw same v.selected }

  select_entity-IsSound :
      (ctx : EditorContext C) (e : ℕ)
      → IsSound ctx
      → contains ctx.registry.m_active_entities e ≡ true
      → IsSound (select_entity ctx e)
        × ((select_entity ctx e).registry ≡ ctx.registry)
        × ((select_entity ctx e).selected_entity ≡ e)
  unfolding select_entity select
  select_entity-IsSound ctx e v active = elim (Bool-cases (e == ctx.selected_entity)) [
    | inl same ↦ rw same (v, refl, ground (arith, same))
    | inr other ↦ rw other (record { valid = v.valid; selected = inr active }, refl, refl)
  ]

module _ {C : Type 0} (name_of : C → Str) (with_name : Str → C → C) where
  begin_rename-Same :
      (p : HierarchyPanel) (r : ComponentRegistry ComponentType C) (e : ℕ)
      → IsValid r
      → (q : HierarchyPanel) × (s : ComponentRegistry ComponentType C) × (begin_rename name_of
            with_name p r e
          ≡ some (q, s))
        × Same ComponentType-discrete r s
  unfolding begin_rename
  begin_rename-Same p r e v =
      let (s, named, same) =
        get_entity_name_lem name_of with_name r r e v.pools (Same-refl ComponentType-discrete r) in
      (
        record {
          rename_buffer = take 127 (c_str (shown_name name_of with_name r e));
          renaming_entity = e;
          focus_rename_input = true;
        },
        s,
        rw (named, ◌>>=◌) refl,
        same,
      )

  -- The end of both menus: a renaming that begins, or not.
  rename_item-IsSound :
      (chosen : Bool) (p : HierarchyPanel) (ctx : EditorContext C) (e : ℕ)
      → IsSound ctx
      → (q : HierarchyPanel) × (after : EditorContext C) × (rename_item name_of with_name chosen p
            ctx e
          ≡ some (q, after))
        × IsSound after
        × (after.registry.m_active_entities ≡ ctx.registry.m_active_entities)
        × (after.selected_entity ≡ ctx.selected_entity)
  unfolding rename_item
  rename_item-IsSound false p ctx e v = (p, ctx, refl, v, refl, refl)
  rename_item-IsSound true p ctx e v =
      let (q, s, begun, same) = begin_rename-Same p ctx.registry e v.valid in
      (
        q,
        record ctx { registry = s },
        rw (begun, ◌>>=◌) refl,
        with_registry-IsSound ctx s v (same.keeps v.valid) same.active,
        same.active,
        refl,
      )

  draw_normal_selectable-IsSound :
      (n : Node) (p : HierarchyPanel) (ctx : EditorContext C) (e : ℕ)
      → IsSound ctx
      → contains ctx.registry.m_active_entities e ≡ true
      → (q : HierarchyPanel) × (after : EditorContext C) × (draw_normal_selectable name_of with_name
            n p ctx e
          ≡ some (q, after))
        × IsSound after
        × (after.registry.m_active_entities ≡ ctx.registry.m_active_entities)
  unfolding draw_normal_selectable
  draw_normal_selectable-IsSound n p ctx e v active =
      let (s, named, same) =
        get_entity_name_lem name_of with_name ctx.registry ctx.registry e v.valid.pools
          (Same-refl ComponentType-discrete ctx.registry) in
      let shown = record ctx { registry = s } in
      let sound = with_registry-IsSound ctx s v (same.keeps v.valid) same.active in
      elim (Bool-cases n.clicked) [
        | inl clicked ↦
            let (w, kept, now) = select_entity-IsSound shown e sound (rw same.active active) in
            let (q, after, drawn, x, same_active, y) =
              rename_item-IsSound n.double_clicked p (select_entity shown e) e w in
            (
              q,
              after,
              rw (named, clicked, ◌>>=◌) drawn,
              x,
              same_active ∙ ap (λ r. r.m_active_entities) kept ∙ same.active,
            )
        | inr unclicked ↦
            let (q, after, drawn, x, same_active, y) =
              rename_item-IsSound n.double_clicked p shown e sound in
            (q, after, rw (named, unclicked, ◌>>=◌) drawn, x, same_active ∙ same.active)
      ]

  abbrev pub IsMenuDrawn :
      Bool → EditorContext C → ℕ → Option (HierarchyPanel × EditorContext C) → Type 0
  IsMenuDrawn deleted ctx e result =
      (q : HierarchyPanel) × (after : EditorContext C) × (result ≡ some (q, after))
      × IsSound after
      × ((j : ℕ)
          → contains after.registry.m_active_entities j
            ≡ (if deleted && (e == j) then false else contains ctx.registry.m_active_entities j))

  draw_entity_context_menu-IsSound :
      (n : Node) (p : HierarchyPanel) (ctx : EditorContext C) (e : ℕ) (is_selected : Bool)
      → IsSound ctx
      → contains ctx.registry.m_active_entities e ≡ true
      → (n.menu_open && n.delete_chosen ≡ true → is_selected ≡ true)
      → IsMenuDrawn
          (n.menu_open && n.delete_chosen)
          ctx
          e
          (draw_entity_context_menu name_of with_name n p ctx e is_selected)
  unfolding draw_entity_context_menu delete_item select
  draw_entity_context_menu-IsSound n p ctx e is_selected v active chosen =
      elim (Bool-cases n.menu_open) [
        | inr closed ↦ (p, ctx, rw closed refl, v, λ j. rw closed refl)
        | inl opened ↦
            let (w, kept, now) = select_entity-IsSound ctx e v active in
            let shown = select_entity ctx e in
            elim (Bool-cases n.delete_chosen) [
              | inr stays ↦
                  let (q, after, drawn, x, same_active, y) =
                    rename_item-IsSound n.rename_chosen p shown e w in
                  (
                    q,
                    after,
                    rw (opened, stays, ◌>>=◌) drawn,
                    x,
                    λ j. rw (opened, stays, same_active, kept) refl,
                  )
              | inl deleted ↦
                  let (s, runs, valid, actives, reads) =
                    destroy_entity_lem ComponentType-discrete shown.registry e w.valid in
                  let cleared = select (record shown { registry = s }) invalid_entity_id in
                  let sound : IsSound cleared = record { valid = valid; selected = inl refl } in
                  let (q, after, drawn, x, same_active, y) =
                    rename_item-IsSound n.rename_chosen p cleared e sound in
                  (
                    q,
                    after,
                    rw (opened, deleted, runs, chosen (rw (opened, deleted) refl), ◌>>=◌) drawn,
                    x,
                    λ j. rw (opened, deleted, same_active, actives j, kept) refl,
                  )
            ]
      ]

  -- On a valid registry, with no selected entity or an active one, the node of an active entity is
  -- drawn without an access out of range, if "Delete" is chosen only in the menu of the entity that is
  -- selected when the node begins. Afterwards the registry is valid, no entity or an active one is
  -- selected, and exactly the entity that is deleted is no longer active. While the entity is being
  -- renamed there is no menu.
  pub draw_entity_node-IsSound :
      (n : Node) (p : HierarchyPanel) (ctx : EditorContext C) (e : ℕ)
      → IsSound ctx
      → contains ctx.registry.m_active_entities e ≡ true
      → (n.menu_open && n.delete_chosen ≡ true → ctx.selected_entity ≡ e)
      → IsMenuDrawn
          (not (p.renaming_entity == e) && (n.menu_open && n.delete_chosen))
          ctx
          e
          (draw_entity_node name_of with_name n p ctx e)
  unfolding draw_entity_node
  draw_entity_node-IsSound n p ctx e v active chosen = elim (Bool-cases (p.renaming_entity == e)) [
    | inl renaming ↦
        let (q, s, drawn, ended, (keeps, same_active, x, y)) =
          draw_renaming_input_lem name_of with_name n p ctx.registry e v.valid in
        (
          q,
          record ctx { registry = s },
          rw (renaming, drawn, ◌>>=◌) refl,
          with_registry-IsSound ctx s v (keeps v.valid) same_active,
          λ j. rw (renaming, same_active) refl,
        )
    | inr plain ↦
        let (q, after, drawn, sound, same_active) =
          draw_normal_selectable-IsSound n p ctx e v active in
        let (q2, last, menu, done, actives) =
          draw_entity_context_menu-IsSound n q after e (ctx.selected_entity == e) sound
            (rw same_active active) (λ h. rw (chosen h) (==_self e)) in
        (
          q2,
          last,
          rw (plain, drawn, ◌>>=◌) menu,
          done,
          λ j. rw (plain, actives j, same_active) refl,
        )
  ]
