-- ===== src/Editor/Picking.antt =====
-- What `editorPicking` of modules/editor/editor.cpp selects.
use esp32_particulate_sensor.Prelude.{
  ℕ, ◌≡◌, refl, Bool, true, false, Option, some, List, [], ◌∷◌, arith, Option-cases, Bool-cases,
  inl, inr, is_some, get_elem?, suc, ◌==◌, ◌++◌, if◌then◌else◌, ◌>>=◌, ◌&&◌, not,
}
use esp32_particulate_sensor.Ecs.Registry.{
  ComponentRegistry, pool_of, get_pool, handle_has, handle_get,
}
use esp32_particulate_sensor.Ecs.Registry.Pools.{component, PoolsWellFormed, pool_of-WellFormed}
use esp32_particulate_sensor.Ecs.Pool.{has}
use esp32_particulate_sensor.Ecs.Pool.Invariant.{has-eq-is_some, is_some-get-listed}
use esp32_particulate_sensor.Scene.{ComponentType, transform, aabb, ComponentType-discrete}
use esp32_particulate_sensor.Editor.{EditorContext, is_hit, hit_entity, editor_picking, select}
use esp32_particulate_sensor.Ecs.Registry.{invalid_entity_id}
use esp32_particulate_sensor.Editor.Reads.{Same, Same-refl, Same-trans, get_pool-Same}

module _ {C : Type 0} (ray_hits : C → C → Bool) where
  abbrev pub has_box : ComponentRegistry ComponentType C → ℕ → Bool
  has_box r e = is_some (component ComponentType-discrete r aabb e)

  -- Whether the ray hits the entity's box, moved by its transform.
  abbrev pub box_hit : Option C → Option C → Bool
  box_hit (some t) (some b) = ray_hits b t
  box_hit t b = false

  abbrev pub would_hit : ComponentRegistry ComponentType C → ℕ → Bool
  would_hit r e =
      box_hit (component ComponentType-discrete r transform e)
        (component ComponentType-discrete r aabb e)

  -- The first entity of a list that the ray hits.
  abbrev pub first_of : (ℕ → Bool) → List ℕ → ℕ
  first_of f [] = invalid_entity_id
  first_of f (e ∷ es) = if f e then e else first_of f es

  is_hit_lem :
      (r : ComponentRegistry ComponentType C) (e : ℕ)
      → has (pool_of ComponentType-discrete r transform) e
        ≡ is_some (component ComponentType-discrete r transform e)
      → has_box r e ≡ true
      → (s : ComponentRegistry ComponentType C) × (is_hit ray_hits e r ≡ some (would_hit r e, s))
        × Same ComponentType-discrete r s
  unfolding is_hit handle_has handle_get
  is_hit_lem r e w boxed =
      let D = ComponentType-discrete in
      let r1 = get_pool D r transform in
      let r2 = get_pool D r1 transform in
      let r3 = get_pool D r2 aabb in
      let s1 = get_pool-Same D r transform in
      let s2 = Same-trans D r r1 r2 s1 (get_pool-Same D r1 transform) in
      let s3 = Same-trans D r r2 r3 s2 (get_pool-Same D r2 aabb) in
      elim (Option-cases (component D r transform e)) [
        | inl none_held ↦ (r1, rw (w, none_held) refl, s1)
        | inr (t, held) ↦ elim (Option-cases (component D r aabb e)) [
          | inl none_boxed ↦ absurd (ground (arith, boxed, none_boxed))
          | inr (b, box) ↦
              (r3, rw (w, held, box, s1.pools transform, s2.pools aabb, held, box, ◌>>=◌) refl, s3)
        ]
      ]

  AllBoxed : ComponentRegistry ComponentType C → List ℕ → Type 0
  AllBoxed r es = (i e : ℕ) → get_elem? es i ≡ some e → has_box r e ≡ true

  hit_entity_lem :
      (r s : ComponentRegistry ComponentType C) (es : List ℕ)
      → PoolsWellFormed r.m_pools
      → Same ComponentType-discrete r s
      → AllBoxed r es
      → (t : ComponentRegistry ComponentType C) × (hit_entity ray_hits es s
          ≡ some (first_of (would_hit r) es, t))
        × Same ComponentType-discrete r t
  unfolding hit_entity AllBoxed
  hit_entity_lem r s [] w v boxed = (s, refl, v)
  hit_entity_lem r s (e ∷ es) w v boxed =
      let D = ComponentType-discrete in
      let held : has (pool_of D s transform) e ≡ is_some (component D s transform e) =
        rw (v.pools transform) (has-eq-is_some (pool_of-WellFormed D r transform w) e) in
      let one = is_hit_lem s e held (rw (v.pools aabb) (boxed 0 e refl)) in
      let same = Same-trans D r s one.0 v one.2 in
      let rest = hit_entity_lem r one.0 es w same (λ i x h. boxed (suc i) x h) in
      let hit : would_hit s e ≡ would_hit r e = rw (v.pools transform, v.pools aabb) refl in
      elim (Bool-cases (would_hit r e)) [
        | inl yes_hit ↦ (one.0, rw (one.1, hit, yes_hit, ◌>>=◌) refl, same)
        | inr no_hit ↦ (rest.0, rw (one.1, hit, no_hit, ◌>>=◌) rest.1, rest.2)
      ]

  -- The entity that a click selects.
  abbrev pub target : EditorContext C → ℕ
  target ctx =
      first_of (would_hit ctx.registry)
        (pool_of ComponentType-discrete ctx.registry aabb).m_entities

  -- On a registry whose pools are well formed, `editorPicking` never reads out of range and changes
  -- no component, no active entity and no counter. A click in the viewport selects the first entity,
  -- in the order of the boxes' pool, that has a transform and whose box the ray hits, and none if
  -- there is no such entity; an event goes out exactly if the selection changes. Without a click in
  -- the viewport nothing happens.
  pub editor_picking_lem :
      (viewport_hovered clicked : Bool) (ctx : EditorContext C)
      → PoolsWellFormed ctx.registry.m_pools
      → (after : EditorContext C) × (editor_picking ray_hits viewport_hovered clicked ctx
          ≡ some after)
        × Same ComponentType-discrete ctx.registry after.registry
        × (after.selected_entity
            ≡ (if viewport_hovered && clicked then target ctx else ctx.selected_entity))
        × (after.dispatched ≡ (
            if (viewport_hovered && clicked) && not (target ctx == ctx.selected_entity)
            then ctx.dispatched ++ target ctx ∷ []
            else ctx.dispatched))
  unfolding editor_picking select
  editor_picking_lem false clicked ctx w =
      (ctx, refl, Same-refl ComponentType-discrete ctx.registry, refl, refl)
  editor_picking_lem true false ctx w =
      (ctx, refl, Same-refl ComponentType-discrete ctx.registry, refl, refl)
  editor_picking_lem true true ctx w =
      let D = ComponentType-discrete in
      let es = (pool_of D ctx.registry aabb).m_entities in
      let v = pool_of-WellFormed D ctx.registry aabb w in
      let found =
        hit_entity_lem ctx.registry (get_pool D ctx.registry aabb) es w
          (get_pool-Same D ctx.registry aabb) (unfold AllBoxed in is_some-get-listed v) in
      let after = record ctx { registry = found.0 } in
      elim (Bool-cases (target ctx == ctx.selected_entity)) [
        | inl same ↦
            (after, rw (found.1, ◌>>=◌, same) refl, found.2, ground (arith, same), rw same refl)
        | inr other ↦ (
          select after (target ctx),
          rw (found.1, ◌>>=◌, other) refl,
          found.2,
          refl,
          rw other refl,
        )
      ]
