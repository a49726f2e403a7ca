-- ===== src/Editor/Browser.antt =====
-- `BrowserPanel` of modules/gui/Panels/a_BrowserPanel.cpp: the grid of models, and their drops into
-- the scene. What ImGui reports of a tile (`Tile`) and where the ray of the cursor meets the ground
-- (`Ray`) are inputs; `P` are points. `icon_of` gives the icons that the resource manager holds, and
-- `box_of` computes the box around some vertices, with floats. A Boolean result is false for the exception of a std::map or vector.
pub mod Grid
use esp32_particulate_sensor.Prelude.{
  ℕ, zero, suc, Bool, true, false, ◌&&◌, ◌||◌, not, Option, none, some, List, [], ◌∷◌, ◌++◌,
  if◌then◌else◌, ltb, ◌^◌,
}
use esp32_particulate_sensor.Prelude.Strings.{Str, contains_sub}
use esp32_particulate_sensor.Filesystem.{DeviceType}
use esp32_particulate_sensor.Resource.{
  Mesh, ModelRecord, ResourceManager, get_mesh_by_id, get_model_count, get_model_data,
}
use esp32_particulate_sensor.Ecs.Registry.{ComponentRegistry}
use esp32_particulate_sensor.Scene.{ComponentType}
use esp32_particulate_sensor.Scene.Entities.{Components, add_entity}

pub record Tile : Type 0 where
  pub clicked : Bool
  pub active : Bool
  pub dragged : Bool
  pub drag_ended : Bool

pub record Ray (P : Type 0) : Type 0 where
  pub has_valid_pick_ray : Bool
  pub hit : Option P

-- The registry, and the members of the editor's state that the panel uses; no index is -1.
pub record BrowserState (C P : Type 0) : Type 0 where
  pub registry : ComponentRegistry ComponentType C
  pub selected_idx : Option ℕ
  pub has_last_hitpoint : Bool
  pub last_hit_point : P

-- How often the loop runs up to a u32 that is cast to int: not at all if that is negative.
abbrev pub as_int : ℕ → ℕ
as_int n = if ltb n (2 ^ 31) then n else 0

-- Whether the search hides a model.
abbrev pub is_hidden : Str → Str → Bool
is_hidden [] name = false
is_hidden (q ∷ qs) name = not (contains_sub (q ∷ qs) name)

abbrev pub any_clicked : (ℕ → Tile) → List ℕ → Bool
any_clicked tiles [] = false
any_clicked tiles (i ∷ is) = (tiles i).clicked || any_clicked tiles is

module _ {C P : Type 0} where
  abbrev pub aim_at : Option P → BrowserState C P → BrowserState C P
  aim_at none b = b
  aim_at (some p) b = record b { last_hit_point = p; has_last_hitpoint = true }

  unfoldable pub drag : Tile → Ray P → BrowserState C P → BrowserState C P
  drag t ray b =
      if t.dragged && t.active
      then (let cleared = record b { has_last_hitpoint = false } in
          if ray.has_valid_pick_ray then aim_at ray.hit cleared else cleared)
      else b

module _ {V C : Type 0} (box_of : V → List V → C) where
  -- `Mesh::getAABB` on the vertices; `none` is its exception.
  abbrev pub box_around : List V → Option C
  box_around [] = none
  box_around (v ∷ vs) = some (box_of v vs)

  abbrev pub get_aabb : Mesh V → Option C
  get_aabb mesh = box_around mesh.vertexbuffer

  -- The box of the mesh that was found, or the exception.
  abbrev pub box_if : Option (Mesh V) → Option C
  box_if none = none
  box_if (some mesh) = get_aabb mesh

module _ {V G C P : Type 0} (make : Components C) (transform_at : P → C) (box_of : V → List V → C)
    (icon_of : DeviceType → Option ℕ) where
  unfoldable pub drop_model :
      ResourceManager V G → ModelRecord → Tile → Ray P → BrowserState C P → Bool × BrowserState C P
  drop_model r m t ray b =
      if t.drag_ended && (ray.has_valid_pick_ray && b.has_last_hitpoint)
      then (let (returned, s) =
            add_entity make (λ id. box_if box_of (get_mesh_by_id r id)) m.mesh_id m.name
              (transform_at b.last_hit_point) b.registry in
          (returned, record b { registry = s }))
      else (true, b)

  abbrev pub with_icon :
      Option ℕ
      → ResourceManager V G
      → ModelRecord
      → ℕ
      → Tile
      → Ray P
      → BrowserState C P
      → Bool × BrowserState C P
  with_icon none r m i t ray b = (false, b)
  with_icon (some icon) r m i t ray b =
      drop_model r m t ray
        (drag t ray (if t.clicked then record b { selected_idx = some i } else b))

  unfoldable pub handle_tile :
      ResourceManager V G
      → ModelRecord
      → ℕ
      → Tile
      → Ray P
      → BrowserState C P
      → Bool × BrowserState C P
  handle_tile r m i t ray b = with_icon (icon_of m.type) r m i t ray b

  -- One turn of the loop of `renderGrid`, with the indices of the tiles shown so far.
  abbrev pub show :
      Option ModelRecord
      → ResourceManager V G
      → Str
      → ℕ
      → Tile
      → Ray P
      → BrowserState C P
      → List ℕ
      → Bool × BrowserState C P × List ℕ
  show none r query i t ray b shown = (false, b, shown)
  show (some m) r query i t ray b shown =
      if is_hidden query m.name
      then (true, b, shown)
      else (let (returned, after) = handle_tile r m i t ray b in (returned, after, shown ++ i ∷ []))

  unfoldable pub render_tiles :
      ℕ
      → ResourceManager V G
      → Str
      → ℕ
      → (ℕ → Tile)
      → Ray P
      → BrowserState C P
      → List ℕ
      → Bool × BrowserState C P × List ℕ
  render_tiles zero r query i tiles ray b shown = (true, b, shown)
  render_tiles (suc n) r query i tiles ray b shown =
      let (returned, after, shown_now) =
        show (get_model_data r i) r query i (tiles i) ray b shown in
      elim returned [
        | true ↦ render_tiles n r query (suc i) tiles ray after shown_now
        | false ↦ (false, after, shown_now)
      ]

  -- A click beside the tiles clears the choice.
  unfoldable pub render_grid :
      ResourceManager V G
      → Str
      → (ℕ → Tile)
      → Ray P
      → Bool
      → BrowserState C P
      → Bool × BrowserState C P × List ℕ
  unfolding get_model_count
  render_grid r query tiles ray clicked_window b =
      let (returned, after, shown) =
        render_tiles (as_int (get_model_count r)) r query 0 tiles ray b [] in
      if returned && (clicked_window && not (any_clicked tiles shown))
      then (returned, record after { selected_idx = none }, shown)
      else (returned, after, shown)
