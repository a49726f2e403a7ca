-- ===== src/Editor/Listeners.antt =====
-- The event listeners of `Editor::start` and `destroy` in modules/editor/editor.cpp, over the event
-- manager of Events, the undo buffer of Undo and the keys of Input. `A` is the camera and `R` a
-- motion of the mouse; `rotated` turns the camera, with floats. `payload` gives the bytes of an
-- UndoTransformData, and `read_payload` reads them. `none` is an exception or an access out of range.
pub mod Life
pub mod Edits
pub mod Tests
use esp32_particulate_sensor.Prelude.{
  ℕ, Bool, true, false, Option, none, some, List, [], ◌∷◌, ◌==◌, if◌then◌else◌, ◌>>=◌,
}
use esp32_particulate_sensor.Events.{
  EventType, on_mouse_moved, on_push_undo_transform, on_key_down, EventListenerId, EventListener,
  EventManager, Action, World, Outcome, done, undefined, out_of_fuel, listeners_of,
  add_event_listener, remove_event_listener, dispatch,
}
use esp32_particulate_sensor.Ecs.Registry.{ComponentRegistry}
use esp32_particulate_sensor.Input.{InputSystem, is_key_held}
use esp32_particulate_sensor.Scene.{ComponentType, transform, tag, ComponentType-discrete}
use esp32_particulate_sensor.Undo.{
  CommandType, update_tag, update_transform, UndoBuffer, push_command, undo,
}

-- The three lambdas, and the callbacks of other parts, which leave the editor's state as it is.
pub data Callback : Type 0 where
  rotates_camera pushes_undo undoes : Callback
  elsewhere : ℕ → Callback

-- The events that they take; a std::any is its Transform, or none if it holds something else.
pub data EditorEvent (C R : Type 0) : Type 0 where
  mouse_moved : R → EditorEvent C R
  push_undo_event : ℕ → Option C → EditorEvent C R
  key_event : ℕ → EditorEvent C R

pub record ListenerIds : Type 0 where
  pub mouse_motion_listener_id : EventListenerId
  pub push_undo_listener_id : EventListenerId
  pub undo_listener_id : EventListenerId

unfoldable pub start : EventManager Callback → ListenerIds × EventManager Callback
start m =
    let (motion, m1) = add_event_listener m on_mouse_moved rotates_camera in
    let (push, m2) = add_event_listener m1 on_push_undo_transform pushes_undo in
    let (undo_id, m3) = add_event_listener m2 on_key_down undoes in
    (
      record {
        mouse_motion_listener_id = motion;
        push_undo_listener_id = push;
        undo_listener_id = undo_id;
      },
      m3,
    )

unfoldable pub stop : ListenerIds → EventManager Callback → EventManager Callback
stop ids m =
    remove_event_listener (remove_event_listener m ids.undo_listener_id) ids.push_undo_listener_id

-- The values of `Keycode` that the listener compares with.
abbrev pub key_z : ℕ
key_z = 29

abbrev pub left_control : ℕ
left_control = 224

abbrev pub right_control : ℕ
right_control = 228

-- The pool that a command's type writes to.
abbrev pub pool_type : CommandType → ComponentType
pool_type update_tag = tag
pool_type update_transform = transform

-- The callback that a listener's id stands for.
abbrev pub callback_of : List (EventListener Callback) → ℕ → Option Callback
callback_of [] id = none
callback_of (l ∷ ls) id = if l.id == id then some l.callback else callback_of ls id

-- The lambdas call nothing of the manager, and neither do the others here.
abbrev pub reacts :
    {C R : Type 0} → Callback → EditorEvent C R → List (Action Callback (EditorEvent C R))
reacts f e = []

pub record EditorState (C A : Type 0) : Type 0 where
  pub camera : A
  pub undo_buffer : UndoBuffer
  pub registry : ComponentRegistry ComponentType C

module _ {C A R M : Type 0} (can_rotate : A → Bool) (rotated : R → A → A) (payload : ℕ → C → List ℕ)
    (read_payload : CommandType → List ℕ → Option (ℕ × C)) where
  unfoldable pub is_ctrl_down : InputSystem M → Option Bool
  is_ctrl_down input = is_key_held input left_control >>= λ left.
      if left then some true else is_key_held input right_control

  -- The bodies of the lambdas; none is called with another type of event.
  unfoldable pub handle :
      InputSystem M → Callback → EditorEvent C R → EditorState C A → Option (EditorState C A)
  handle input rotates_camera (mouse_moved rel) s =
      some (if can_rotate s.camera then record s { camera = rotated rel s.camera } else s)
  handle input pushes_undo (push_undo_event e none) s = none
  handle input pushes_undo (push_undo_event e (some old_state)) s =
      some (record s {
        undo_buffer = push_command s.undo_buffer update_transform (payload e old_state);
      })
  handle input undoes (key_event code) s =
      if code == key_z
      then (is_ctrl_down input >>= λ ctrl.
          if ctrl
          then (undo ComponentType-discrete pool_type read_payload s.undo_buffer s.registry
              >>= λ (buffer, r). some (record s { undo_buffer = buffer; registry = r }))
          else some s)
      else some s
  handle input f e s = some s

  -- The callbacks of a dispatch, in the order in which it has called them.
  unfoldable pub run_calls :
      InputSystem M
      → List (EventListener Callback)
      → List (ℕ × EditorEvent C R)
      → EditorState C A
      → Option (EditorState C A)
  run_calls input ls [] s = some s
  run_calls input ls ((id, e) ∷ calls) s =
      callback_of ls id >>= λ f. handle input f e s >>= λ t. run_calls input ls calls t

  abbrev pub after_dispatch :
      InputSystem M
      → List (EventListener Callback)
      → Outcome (World Callback (EditorEvent C R))
      → EditorState C A
      → Option (EventManager Callback × EditorState C A)
  after_dispatch input ls (done w) s = run_calls input ls w.calls s >>= λ t. some (w.manager, t)
  after_dispatch input ls undefined s = none
  after_dispatch input ls out_of_fuel s = none

  -- `Dispatch` with these callbacks.
  unfoldable pub deliver :
      InputSystem M
      → EventType
      → EditorEvent C R
      → EventManager Callback
      → EditorState C A
      → Option (EventManager Callback × EditorState C A)
  unfolding dispatch
  deliver input t e m s =
      after_dispatch input (listeners_of (m.m_events t))
        (dispatch reacts 1 t e (record { manager = m; calls = [] })) s
