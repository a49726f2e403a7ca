-- ===== src/Editor/Listeners/Life.antt =====
-- Which listeners `Editor::destroy` of modules/editor/editor.cpp leaves behind.
use mathlib.Core.Logic.{ite, if_pos, if_neg}
use mathlib.Core.Path.{subst}
use mathlib.Core.List.{append-nil}
use esp32_particulate_sensor.Prelude.{
  ℕ, ◌+◌, ◌<◌, ◌^◌, ◌≡◌, ◌≢◌, refl, sym, ap, ◌∙◌, arith, List, [], ◌∷◌, ◌++◌, false, ◌==◌,
  Option-cases, inl, inr, ==_self,
}
use esp32_particulate_sensor.Events.{
  EventType, EventType-discrete, on_mouse_moved, on_push_undo_transform, on_key_down, on_key_up,
  on_mouse_btn_down, on_mouse_btn_up, on_mouse_wheel_scroll, on_scene_object_selected,
  on_enable_wireframe, on_sensor_message_received, EventListener, EventListenerId, EventManager,
  listeners_of, add_event_listener, remove_event_listener, erase_id,
}
use esp32_particulate_sensor.Editor.Listeners.{
  Callback, rotates_camera, pushes_undo, undoes, start, stop,
}

module _ {F : Type 0} where
  -- The ids of the listeners are used up.
  abbrev pub AllOld : ℕ → List (EventListener F) → Type 0
  AllOld n [] = Unit {0}
  AllOld n (l ∷ ls) = (l.id < n) × AllOld n ls

  erase_id-push :
      (n i : ℕ) (ls : List (EventListener F)) (f : F)
      → AllOld n ls
      → n < i + 1
      → erase_id i (ls ++ record { callback = f; id = i; pending_removal = false } ∷ []) ≡ ls
  unfolding erase_id
  erase_id-push n i [] f old new = rw (==_self i) refl
  erase_id-push n i (l ∷ ls) f old new =
      let apart : (l.id == i) ≡ false = ground (arith, old.0, new) in
      rw apart (ap (λ t. l ∷ t) (erase_id-push n i ls f old.1 new))

module _ {F : Type 0} where
  abbrev newest : EventManager F → F → EventListener F
  newest m f = record { callback = f; id = m.m_next_id; pending_removal = false }

  listeners_of-add :
      (m : EventManager F) (t u : EventType) (f : F)
      → listeners_of ((add_event_listener m t f).1.m_events u)
        ≡ ite
            (EventType-discrete t u)
            (listeners_of (m.m_events t) ++ newest m f ∷ [])
            (listeners_of (m.m_events u))
  unfolding add_event_listener
  listeners_of-add m t u f = ground arith

  listeners_of-remove_own :
      (m : EventManager F) (h : EventListenerId)
      → m.m_dispatch_level ≡ 0
      → listeners_of ((remove_event_listener m h).m_events h.event_type)
        ≡ erase_id h.id (listeners_of (m.m_events h.event_type))
  unfolding remove_event_listener erase_id
  listeners_of-remove_own m h level = elim (Option-cases (m.m_events h.event_type)) [
    | inl out ↦ rw (out, remove_event_listener, out) refl
    | inr (ls, found) ↦
        rw
          (
            found,
            remove_event_listener,
            if_pos (EventType-discrete h.event_type h.event_type) refl,
            level,
          )
          refl
  ]

  listeners_of-remove_other :
      (m : EventManager F) (h : EventListenerId) (u : EventType)
      → h.event_type ≢ u
      → listeners_of ((remove_event_listener m h).m_events u) ≡ listeners_of (m.m_events u)
  unfolding remove_event_listener
  listeners_of-remove_other m h u other = elim (Option-cases (m.m_events h.event_type)) [
    | inl out ↦ rw (out, remove_event_listener) refl
    | inr (ls, found) ↦
        rw (found, remove_event_listener, if_neg (EventType-discrete h.event_type u) other) refl
  ]

  listeners_of-remove :
      (m : EventManager F) (h : EventListenerId) (u : EventType)
      → m.m_dispatch_level ≡ 0
      → listeners_of ((remove_event_listener m h).m_events u)
        ≡ ite
            (EventType-discrete h.event_type u)
            (erase_id h.id (listeners_of (m.m_events u)))
            (listeners_of (m.m_events u))
  listeners_of-remove m h u level = elim (EventType-discrete h.event_type u) [
    | yes p ↦ rw (if_pos (EventType-discrete h.event_type u) p) (
        subst
          (λ x.
            listeners_of ((remove_event_listener m h).m_events x)
            ≡ erase_id h.id (listeners_of (m.m_events x)))
          p (listeners_of-remove_own m h level))
    | no p ↦ rw (if_neg (EventType-discrete h.event_type u) p) (listeners_of-remove_other m h u p)
  ]

-- The listener that stays.
abbrev pub stale : ℕ → EventType → List (EventListener Callback)
stale id on_mouse_moved =
    record { callback = rotates_camera; id = id; pending_removal = false } ∷ []
stale id t = []

abbrev m1 : EventManager Callback → EventManager Callback
m1 m = (add_event_listener m on_mouse_moved rotates_camera).1

abbrev m2 : EventManager Callback → EventManager Callback
m2 m = (add_event_listener (m1 m) on_push_undo_transform pushes_undo).1

abbrev m3 : EventManager Callback → EventManager Callback
m3 m = (add_event_listener (m2 m) on_key_down undoes).1

abbrev here : EventManager Callback → EventType → List (EventListener Callback)
here m t = listeners_of (m.m_events t)

-- The listeners after `start`, and after the two removals.
abbrev after_start : EventManager Callback → EventType → List (EventListener Callback)
after_start m t =
    ite (EventType-discrete on_key_down t) (here m on_key_down ++ newest (m2 m) undoes ∷ []) (
      ite (EventType-discrete on_push_undo_transform t)
        (here m on_push_undo_transform ++ newest (m1 m) pushes_undo ∷ [])
        (ite (EventType-discrete on_mouse_moved t)
          (here m on_mouse_moved ++ newest m rotates_camera ∷ []) (here m t)))

abbrev after_stop : EventManager Callback → EventType → List (EventListener Callback)
after_stop m t =
    let once =
      ite (EventType-discrete on_key_down t) (erase_id (m2 m).m_next_id (after_start m t))
        (after_start m t) in
    ite (EventType-discrete on_push_undo_transform t) (erase_id (m1 m).m_next_id once) once

key_kept : (m : EventManager Callback) → here (m2 m) on_key_down ≡ here m on_key_down
unfolding EventType-discrete
key_kept m =
    listeners_of-add (m1 m) on_push_undo_transform on_key_down pushes_undo
    ∙ listeners_of-add m on_mouse_moved on_key_down rotates_camera

push_kept :
    (m : EventManager Callback) → here (m1 m) on_push_undo_transform ≡ here m on_push_undo_transform
unfolding EventType-discrete
push_kept m = listeners_of-add m on_mouse_moved on_push_undo_transform rotates_camera

start_lem : (m : EventManager Callback) (t : EventType) → here (m3 m) t ≡ after_start m t
start_lem m t =
    let key = EventType-discrete on_key_down t in
    let push = EventType-discrete on_push_undo_transform t in
    listeners_of-add (m2 m) on_key_down t undoes
    ∙ ap (λ x. ite key (x ++ newest (m2 m) undoes ∷ []) (here (m2 m) t)) (key_kept m)
    ∙ ap (ite key (here m on_key_down ++ newest (m2 m) undoes ∷ [])) (
        listeners_of-add (m1 m) on_push_undo_transform t pushes_undo
        ∙ ap (λ x. ite push (x ++ newest (m1 m) pushes_undo ∷ []) (here (m1 m) t)) (push_kept m)
        ∙ ap (ite push (here m on_push_undo_transform ++ newest (m1 m) pushes_undo ∷ []))
            (listeners_of-add m on_mouse_moved t rotates_camera))

remove-level :
    (m : EventManager Callback) (h : EventListenerId)
    → (remove_event_listener m h).m_dispatch_level ≡ m.m_dispatch_level
unfolding remove_event_listener
remove-level m h = elim (Option-cases (m.m_events h.event_type)) [
  | inl out ↦ rw (out, remove_event_listener) refl
  | inr (ls, found) ↦ rw (found, remove_event_listener) refl
]

stop_lem :
    (m : EventManager Callback) (t : EventType)
    → m.m_dispatch_level ≡ 0
    → here (stop (start m).0 (start m).1) t ≡ after_stop m t
unfolding start stop add_event_listener
stop_lem m t level =
    let key_id : EventListenerId = record { event_type = on_key_down; id = (m2 m).m_next_id } in
    let push_id : EventListenerId = record {
      event_type = on_push_undo_transform;
      id = (m1 m).m_next_id;
    } in
    listeners_of-remove (remove_event_listener (m3 m) key_id) push_id t
      (remove-level (m3 m) key_id ∙ level)
    ∙ ap (λ x. ite (EventType-discrete on_push_undo_transform t) (erase_id (m1 m).m_next_id x) x)
        (listeners_of-remove (m3 m) key_id t level
          ∙ ap (λ x. ite (EventType-discrete on_key_down t) (erase_id (m2 m).m_next_id x) x)
              (start_lem m t))

ends :
    (m : EventManager Callback)
    → ((t : EventType) → AllOld m.m_next_id (listeners_of (m.m_events t)))
    → m.m_next_id + 3 < 2 ^ 64
    → (t : EventType) → after_stop m t ≡ here m t ++ stale m.m_next_id t
unfolding EventType-discrete add_event_listener
ends m old room on_mouse_moved = refl
ends m old room on_push_undo_transform =
    erase_id-push m.m_next_id (m1 m).m_next_id (here m on_push_undo_transform) pushes_undo
      (old on_push_undo_transform) (omega arith)
    ∙ sym (append-nil (here m on_push_undo_transform))
ends m old room on_key_down =
    erase_id-push m.m_next_id (m2 m).m_next_id (here m on_key_down) undoes (old on_key_down)
      (omega arith)
    ∙ sym (append-nil (here m on_key_down))
ends m old room on_key_up = sym (append-nil (listeners_of (m.m_events on_key_up)))
ends m old room on_mouse_btn_down = sym (append-nil (listeners_of (m.m_events on_mouse_btn_down)))
ends m old room on_mouse_btn_up = sym (append-nil (listeners_of (m.m_events on_mouse_btn_up)))
ends m old room on_mouse_wheel_scroll =
    sym (append-nil (listeners_of (m.m_events on_mouse_wheel_scroll)))
ends m old room on_scene_object_selected =
    sym (append-nil (listeners_of (m.m_events on_scene_object_selected)))
ends m old room on_enable_wireframe =
    sym (append-nil (listeners_of (m.m_events on_enable_wireframe)))
ends m old room on_sensor_message_received =
    sym (append-nil (listeners_of (m.m_events on_sensor_message_received)))

-- When the editor is stopped outside of a dispatch, the listeners of every type are those from before
-- it was started, with one more: the one of MouseMoved, whose id `destroy` does not remove.
pub stop-start :
    (m : EventManager Callback)
    → m.m_dispatch_level ≡ 0
    → ((t : EventType) → AllOld m.m_next_id (listeners_of (m.m_events t)))
    → m.m_next_id + 3 < 2 ^ 64
    → (t : EventType)
    → let (ids, started) = start m in
      listeners_of ((stop ids started).m_events t)
      ≡ listeners_of (m.m_events t) ++ stale m.m_next_id t
stop-start m level old room t = stop_lem m t level ∙ ends m old room t
