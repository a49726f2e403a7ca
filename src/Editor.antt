-- ===== src/Editor.antt =====
-- `Editor` of modules/editor/editor.cpp with gui/State/a_SelectionContext.hpp: the selection and the
-- picking of entities with the mouse. `C` is the type of all components; `ray_hits` is
-- `RayIntersectAABB` on a box and a transform, which computes with floats. An event of
-- OnSceneObjectSelected is the entity that it carries. `none` is a read out of range.
pub mod Reads
pub mod Picking
pub mod Hierarchy
pub mod Browser
pub mod Spawn
pub mod Listeners
pub mod Tests
use esp32_particulate_sensor.Prelude.{
  ℕ, ◌+◌, ◌-◌, ◌^◌, Bool, true, false, Option, none, some, List, [], ◌∷◌, ◌++◌, ◌==◌, if◌then◌else◌,
  ◌>>=◌, not,
}
use esp32_particulate_sensor.Ecs.Registry.{
  ComponentRegistry, invalid_entity_id, pool_of, get_pool, handle_has, handle_get,
}
use esp32_particulate_sensor.Scene.{ComponentType, transform, aabb, ComponentType-discrete}

pub record EditorContext (C : Type 0) : Type 0 where
  pub registry : ComponentRegistry ComponentType C
  pub selected_entity : ℕ
  pub dispatched : List ℕ

module _ {C : Type 0} where
  abbrev pub has_selection : EditorContext C → Bool
  has_selection ctx = not (ctx.selected_entity == invalid_entity_id)

  -- `setSelectedEntity`, and the event.
  unfoldable pub select : EditorContext C → ℕ → EditorContext C
  select ctx e = record ctx { selected_entity = e; dispatched = ctx.dispatched ++ e ∷ [] }

  module _ (ray_hits : C → C → Bool) where
    -- Whether the loop of `editorPicking` ends at the entity.
    unfoldable pub is_hit :
        ℕ → ComponentRegistry ComponentType C → Option (Bool × ComponentRegistry ComponentType C)
    is_hit e r =
        let (held, r1) = handle_has ComponentType-discrete r transform e in
        if held
        then (let (model, r2) = handle_get ComponentType-discrete r1 transform e in
            let (box, r3) = handle_get ComponentType-discrete r2 aabb e in
            model >>= λ t. box >>= λ b. some (ray_hits b t, r3))
        else some (false, r1)

    unfoldable pub hit_entity :
        List ℕ → ComponentRegistry ComponentType C → Option (ℕ × ComponentRegistry ComponentType C)
    unfolding is_hit
    hit_entity [] r = some (invalid_entity_id, r)
    hit_entity (e ∷ es) r = is_hit e r >>= λ (hit, s). if hit then some (e, s) else hit_entity es s

    unfoldable pub editor_picking : Bool → Bool → EditorContext C → Option (EditorContext C)
    unfolding hit_entity select
    editor_picking viewport_hovered clicked ctx =
        if viewport_hovered
        then (if clicked
            then (hit_entity (pool_of ComponentType-discrete ctx.registry aabb).m_entities
                  (get_pool ComponentType-discrete ctx.registry aabb)
                >>= λ (hit, r).
                    let after = record ctx { registry = r } in
                    some (if hit == ctx.selected_entity then after else select after hit))
            else some ctx)
        else some ctx
