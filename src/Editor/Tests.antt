-- ===== src/Editor/Tests.antt =====
-- The editor's picking and hierarchy on a scene of one lamp.
use esp32_particulate_sensor.Prelude.{
  ◌≡◌, ◌↔◌, refl, Bool, true, false, not, ◌==◌, if◌then◌else◌, some, [], ◌∷◌, arith, inr, suc,
}
use esp32_particulate_sensor.Prelude.Strings.{Str, codes}
use esp32_particulate_sensor.Ecs.Pool.{empty}
use esp32_particulate_sensor.Ecs.Registry.{
  ComponentRegistry, new_registry, pool_of, find_pool, add_component, create_entity,
}
use esp32_particulate_sensor.Ecs.Registry.Create.{new_registry-IsValid}
use esp32_particulate_sensor.Scene.{ComponentType, ComponentType-discrete}
use esp32_particulate_sensor.Scene.Entities.{Components, add_entity}
use esp32_particulate_sensor.Scene.Entities.Added.{add_entity_lem}
use esp32_particulate_sensor.Prelude.Maps.{lookup}
use esp32_particulate_sensor.Resource.{
  Mesh, ResourceManager, new_manager, register_custom_mesh, enter_model,
}
use esp32_particulate_sensor.Resource.Valid
use esp32_particulate_sensor.Resource.Valid.{new_manager-IsValid}
use esp32_particulate_sensor.Resource.Registration.{register_custom_mesh_lem}
use esp32_particulate_sensor.Editor.Browser.{Tile, Ray, BrowserState}
use esp32_particulate_sensor.Editor.Browser.Grid.{has_vertices}
use esp32_particulate_sensor.Resource.{try_get_mesh_id_by_name, get_mesh_by_id}
use esp32_particulate_sensor.Editor.Browser.{box_if}
use esp32_particulate_sensor.Editor.Spawn.{spawn_primitive, spawn_primitive_lem}
use esp32_particulate_sensor.Scene.Entities.Added.{IsAdded}
use mathlib.Core.List.{◌++◌}
use Prim.Native.Nat.{suc}
use esp32_particulate_sensor.Editor.{EditorContext, editor_picking, ℕ, none}
use esp32_particulate_sensor.Ecs.Registry.{invalid_entity_id}
use esp32_particulate_sensor.Editor.Reads.{Same}
use esp32_particulate_sensor.Editor.Picking.{target, editor_picking_lem}
use esp32_particulate_sensor.Editor.Hierarchy.{
  HierarchyPanel, Node, contains_ignore_case, filter_entities, draw_renaming_input,
  draw_entity_node,
}
use esp32_particulate_sensor.Editor.Hierarchy.Search.{
  Occurs, listed, contains_ignore_case_lem, filter_entities_lem,
}
use esp32_particulate_sensor.Editor.Hierarchy.Renaming.{IsRenamed, draw_renaming_input_lem}
use esp32_particulate_sensor.Editor.Hierarchy.Nodes.{IsSound, IsMenuDrawn, draw_entity_node-IsSound}

-- A component is its text; boxes and transforms are not looked at.
abbrev make : Components Str
make = record { mesh_renderer = λ i. i ∷ []; material_named = λ n. n; tag_named = λ n. n }

abbrev name_of : Str → Str
name_of s = s

abbrev with_name : Str → Str → Str
with_name n s = n

abbrev ray_hits : Str → Str → Bool
ray_hits b t = true

abbrev lamp : ComponentRegistry ComponentType Str
lamp = (add_entity make (λ i. some []) 0 (codes "Lamp") [] new_registry).1

abbrev editor : EditorContext Str
editor = record { registry = lamp; selected_entity = 0; dispatched = [] }

editor-IsSound : IsSound editor
unfolding add_entity new_registry pool_of find_pool empty add_component create_entity
editor-IsSound = record {
  valid =
      (add_entity_lem make (λ i. some []) 0 (codes "Lamp") [] new_registry new_registry-IsValid
        (omega arith) (λ k. omega arith)).1.0;
  selected = inr refl;
}

abbrev nothing_selected : EditorContext Str
nothing_selected = record editor { selected_entity = invalid_entity_id }

editor_picking_lem_example :
    (after : EditorContext Str) × (editor_picking ray_hits true true nothing_selected ≡ some after)
    × Same ComponentType-discrete lamp after.registry
    × (after.selected_entity ≡ target ray_hits nothing_selected)
    × (after.dispatched ≡ (
        if not (target ray_hits nothing_selected == invalid_entity_id)
        then target ray_hits nothing_selected ∷ []
        else []))
editor_picking_lem_example =
    editor_picking_lem ray_hits true true nothing_selected editor-IsSound.valid.pools

contains_ignore_case_lem_example :
    (contains_ignore_case (codes "Lamp") (codes "AM") ≡ true) ↔ Occurs (codes "Lamp") (codes "AM")
contains_ignore_case_lem_example = contains_ignore_case_lem (codes "Lamp") (codes "AM")

filter_entities_lem_example :
    (t : ComponentRegistry ComponentType Str) × (filter_entities name_of with_name
        (codes "AM")
        (0 ∷ 3 ∷ [])
        lamp
      ≡ some (listed name_of with_name (codes "AM") lamp (0 ∷ 3 ∷ []), t))
    × Same ComponentType-discrete lamp t
filter_entities_lem_example =
    filter_entities_lem name_of with_name (codes "AM") lamp (0 ∷ 3 ∷ []) editor-IsSound.valid.pools

abbrev renaming : HierarchyPanel
renaming = record { rename_buffer = codes "Lamp"; renaming_entity = 0; focus_rename_input = false }

abbrev no_renaming : HierarchyPanel
no_renaming = record {
  rename_buffer = [];
  renaming_entity = invalid_entity_id;
  focus_rename_input = false;
}

abbrev renamed : Node
renamed = record {
  deactivated = true;
  typed = codes "Bulb";
  clicked = false;
  double_clicked = false;
  menu_open = false;
  delete_chosen = false;
  rename_chosen = false;
}

abbrev deleted : Node
deleted = record {
  deactivated = false;
  typed = [];
  clicked = false;
  double_clicked = false;
  menu_open = true;
  delete_chosen = true;
  rename_chosen = false;
}

draw_renaming_input_lem_example :
    (q : HierarchyPanel) × (s : ComponentRegistry ComponentType Str) × (draw_renaming_input name_of
        with_name renamed renaming lamp 0
      ≡ some (q, s))
    × (q.renaming_entity ≡ invalid_entity_id)
    × IsRenamed name_of with_name true 0 (codes "Bulb") lamp s
draw_renaming_input_lem_example =
    draw_renaming_input_lem name_of with_name renamed renaming lamp 0 editor-IsSound.valid

draw_entity_node-IsSound_example :
    IsMenuDrawn name_of with_name true editor 0
      (draw_entity_node name_of with_name deleted no_renaming editor 0)
unfolding add_entity new_registry add_component create_entity
draw_entity_node-IsSound_example =
    draw_entity_node-IsSound name_of with_name deleted no_renaming editor 0 editor-IsSound refl
      (λ h. refl)

abbrev triangle : Mesh ℕ
triangle = record { vertexbuffer = 1 ∷ 2 ∷ 3 ∷ []; index_buffer = 0 ∷ 1 ∷ 2 ∷ [] }

abbrev models : ResourceManager ℕ ℕ
models = (register_custom_mesh (λ m. 0) new_manager triangle (codes "Lamp")).1

models-IsValid : Valid.IsValid models
unfolding new_manager register_custom_mesh lookup
models-IsValid =
    (register_custom_mesh_lem (λ m. 0) new_manager triangle triangle (codes "Lamp")
      new_manager-IsValid (omega arith)).0

-- A tile that is dropped into the scene.
abbrev dropped : ℕ → Tile
dropped i = record { clicked = false; active = false; dragged = false; drag_ended = true }

abbrev ground_ray : Ray ℕ
ground_ray = record { has_valid_pick_ray = true; hit = some 5 }

abbrev browser : BrowserState Str ℕ
browser = record {
  registry = lamp;
  selected_idx = none;
  has_last_hitpoint = true;
  last_hit_point = 5;
}

abbrev no_scene : ComponentRegistry ComponentType Str
no_scene = new_registry

spawn_primitive_lem_example :
    let (returned, s, after) =
      spawn_primitive make
        (λ p. p ∷ [])
        (λ v vs. v ∷ vs)
        (λ m. 0)
        (codes "Cube")
        5
        triangle
        models
        no_scene in
    Valid.IsValid s
    × ((id : ℕ) × (m : Mesh ℕ) × (try_get_mesh_id_by_name s (codes "Default_" ++ codes "Cube")
          ≡ some id)
        × (get_mesh_by_id s id ≡ some m)
        × (try_get_mesh_id_by_name models (codes "Default_" ++ codes "Cube") ≡ none → m ≡ triangle)
        × (returned ≡ has_vertices m)
        × IsAdded make
            (λ i. box_if (λ v vs. v ∷ vs) (get_mesh_by_id s i))
            id
            (codes "Cube")
            (5 ∷ [])
            no_scene
            after)
unfolding new_registry pool_of find_pool empty register_custom_mesh enter_model new_manager lookup
spawn_primitive_lem_example =
    spawn_primitive_lem make (λ p. p ∷ []) (λ v vs. v ∷ vs) (λ m. 0) (codes "Cube") 5 triangle
      models no_scene models-IsValid (omega arith) new_registry-IsValid (omega arith)
      (λ k. omega arith)
