-- ===== src/Editor/Hierarchy.antt =====
-- `HierarchyPanel` of modules/gui/Panels/a_HierarchyPanel.cpp: the search, the nodes of the entities,
-- their menus and the renaming. What the user does to a node in a frame (`Node`) is an input, since
-- ImGui reports it. `name_of` and `with_name` read and write the member `name` of the Tag struct. A
-- buffer of 128 bytes is its text up to the NUL. `none` is a read or write out of range.
pub mod Search
pub mod Renaming
pub mod Nodes
use esp32_particulate_sensor.Prelude.{
  ℕ, Bool, true, false, Option, none, some, List, [], ◌∷◌, ◌&&◌, ◌||◌, not, ◌==◌, if◌then◌else◌,
  ◌>>=◌, take, get_elem?, write,
}
use esp32_particulate_sensor.Prelude.Strings.{Str, c_str, codes, to_lower}
use esp32_particulate_sensor.Ecs.Pool.{ComponentPool, get}
use esp32_particulate_sensor.Ecs.Registry.{
  ComponentRegistry, pool_of, put_pool, handle_has, handle_get, destroy_entity,
}
use esp32_particulate_sensor.Scene.{ComponentType, tag, ComponentType-discrete}
use esp32_particulate_sensor.Editor.{EditorContext, select}
use esp32_particulate_sensor.Ecs.Registry.{invalid_entity_id}

-- `std::search` of `containsIgnoreCase`: whether the needle stands at the start, and anywhere.
abbrev pub matches : Str → Str → Bool
matches s [] = true
matches [] (n ∷ ns) = false
matches (b ∷ bs) (n ∷ ns) = to_lower b == to_lower n && matches bs ns

abbrev pub search : Str → Str → Bool
search [] needle = matches [] needle
search (b ∷ bs) needle = matches (b ∷ bs) needle || search bs needle

unfoldable pub contains_ignore_case : Str → Str → Bool
contains_ignore_case haystack [] = true
contains_ignore_case haystack (n ∷ ns) = search haystack (n ∷ ns)

pub record HierarchyPanel : Type 0 where
  pub rename_buffer : Str
  pub renaming_entity : ℕ
  pub focus_rename_input : Bool

-- What ImGui reports of the node: the input has lost its focus, and the text in it; the name is
-- clicked, or double-clicked; the menu is open, and which of its items is chosen.
pub record Node : Type 0 where
  pub deactivated : Bool
  pub typed : Str
  pub clicked : Bool
  pub double_clicked : Bool
  pub menu_open : Bool
  pub delete_chosen : Bool
  pub rename_chosen : Bool

-- `strlen(m_RenameBuffer) > 0`.
abbrev pub is_typed : Str → Bool
is_typed [] = false
is_typed (b ∷ bs) = true

module _ {C : Type 0} where
  unfoldable pub select_entity : EditorContext C → ℕ → EditorContext C
  unfolding select
  select_entity ctx e = if e == ctx.selected_entity then ctx else select ctx e

  -- "Delete" of the menu.
  unfoldable pub delete_item : Node → EditorContext C → ℕ → Bool → Option (EditorContext C)
  unfolding select
  delete_item n ctx e is_selected =
      if n.delete_chosen
      then (destroy_entity ctx.registry e >>= λ r.
          let after = record ctx { registry = r } in
          some (if is_selected then select after invalid_entity_id else after))
      else some ctx

module _ {C : Type 0} (name_of : C → Str) (with_name : Str → C → C) where
  unfoldable pub get_entity_name :
      ComponentRegistry ComponentType C → ℕ → Option (Str × ComponentRegistry ComponentType C)
  get_entity_name r e =
      let (held, r1) = handle_has ComponentType-discrete r tag e in
      if held
      then (let (c, r2) = handle_get ComponentType-discrete r1 tag e in
          c >>= λ t. some (name_of t, r2))
      else some (codes "Unnamed", r1)

  -- The loop of `onGuiRender` that filters the entities.
  unfoldable pub filter_entities :
      Str
      → List ℕ
      → ComponentRegistry ComponentType C
      → Option (List ℕ × ComponentRegistry ComponentType C)
  unfolding get_entity_name contains_ignore_case
  filter_entities query [] r = some ([], r)
  filter_entities query (e ∷ es) r = get_entity_name r e >>= λ (name, s).
      filter_entities query es s >>= λ (rest, t).
      some (if contains_ignore_case name query then e ∷ rest else rest, t)

  -- `snprintf` into the buffer.
  unfoldable pub begin_rename :
      HierarchyPanel
      → ComponentRegistry ComponentType C
      → ℕ
      → Option (HierarchyPanel × ComponentRegistry ComponentType C)
  begin_rename p r e = get_entity_name r e >>= λ (name, s). some (
    record {
      rename_buffer = take 127 (c_str name);
      renaming_entity = e;
      focus_rename_input = true;
    },
    s,
  )

  -- `if (...) beginRename(handle)`, after a double click and in the menu.
  unfoldable pub rename_item :
      Bool → HierarchyPanel → EditorContext C → ℕ → Option (HierarchyPanel × EditorContext C)
  rename_item chosen p ctx e =
      if chosen
      then (begin_rename p ctx.registry e >>= λ (q, t). some (q, record ctx { registry = t }))
      else some (p, ctx)

  -- The assignment through the reference that `handle.get` returns.
  unfoldable pub assign_name :
      ComponentRegistry ComponentType C → ℕ → Str → Option (ComponentRegistry ComponentType C)
  assign_name r e name = do
    let p = pool_of ComponentType-discrete r tag
    c ← get p e
    i ← get_elem? p.m_sparse e
    m_data ← write p.m_data i (with_name name c)
    some (record r {
      m_pools = put_pool ComponentType-discrete tag (record p { m_data = m_data }) r.m_pools;
    })

  -- The input takes the focus once, and leaves the text in the buffer.
  unfoldable pub draw_renaming_input :
      Node
      → HierarchyPanel
      → ComponentRegistry ComponentType C
      → ℕ
      → Option (HierarchyPanel × ComponentRegistry ComponentType C)
  draw_renaming_input n p r e =
      let drawn = record p { rename_buffer = n.typed; focus_rename_input = false } in
      let left = record drawn { renaming_entity = invalid_entity_id } in
      if n.deactivated
      then (let (held, r1) = handle_has ComponentType-discrete r tag e in
          if held && is_typed n.typed
          then (assign_name r1 e n.typed >>= λ s. some (left, s))
          else some (left, r1))
      else some (drawn, r)

  unfoldable pub draw_normal_selectable :
      Node → HierarchyPanel → EditorContext C → ℕ → Option (HierarchyPanel × EditorContext C)
  draw_normal_selectable n p ctx e = get_entity_name ctx.registry e >>= λ (name, s).
      let named = record ctx { registry = s } in
      let after = if n.clicked then select_entity named e else named in
      rename_item n.double_clicked p after e

  unfoldable pub draw_entity_context_menu :
      Node → HierarchyPanel → EditorContext C → ℕ → Bool → Option (HierarchyPanel × EditorContext C)
  draw_entity_context_menu n p ctx e is_selected =
      if n.menu_open
      then (let shown = select_entity ctx e in
          delete_item n shown e is_selected >>= λ after. rename_item n.rename_chosen p after e)
      else some (p, ctx)

  unfoldable pub draw_entity_node :
      Node → HierarchyPanel → EditorContext C → ℕ → Option (HierarchyPanel × EditorContext C)
  draw_entity_node n p ctx e =
      let is_selected = ctx.selected_entity == e in
      if p.renaming_entity == e
      then (draw_renaming_input n p ctx.registry e >>= λ (q, r).
          some (q, record ctx { registry = r }))
      else (draw_normal_selectable n p ctx e >>= λ (q, after).
          draw_entity_context_menu n q after e is_selected)

  -- The nodes of the filtered entities that the clipper shows, each with what the user does to it.
  unfoldable pub draw_nodes :
      List (ℕ × Node) → HierarchyPanel → EditorContext C → Option (HierarchyPanel × EditorContext C)
  draw_nodes [] p ctx = some (p, ctx)
  draw_nodes ((e, n) ∷ rest) p ctx =
      draw_entity_node n p ctx e >>= λ (q, after). draw_nodes rest q after
