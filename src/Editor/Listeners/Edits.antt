-- ===== src/Editor/Listeners/Edits.antt =====
-- Ctrl+Z after an edit, through the listeners of modules/editor/editor.cpp.
use esp32_particulate_sensor.Prelude.{
  ℕ, ==_self, false, ◌≡◌, refl, Bool, true, Option, some, List, [], ◌∷◌, ◌>>=◌, ap, ◌∙◌,
}
use esp32_particulate_sensor.Events.{
  done, listeners_of, on_push_undo_transform, on_key_down, EventListener, EventManager, leave,
  enter,
}
use esp32_particulate_sensor.Events.Order.{dispatch-quiet, leave-kept}
use esp32_particulate_sensor.Ecs.Pool.{ComponentPool, get}
use esp32_particulate_sensor.Ecs.Registry.{ComponentRegistry, find_pool, put_pool}
use esp32_particulate_sensor.Input.{InputSystem}
use esp32_particulate_sensor.Scene.{ComponentType, transform, ComponentType-discrete}
use esp32_particulate_sensor.Undo.{
  CommandType, update_transform, UndoBuffer, push_command, undo, assign,
}
use esp32_particulate_sensor.Undo.Stack.{Command, evict, represent}
use esp32_particulate_sensor.Undo.Restore.{undo-push_command}
use esp32_particulate_sensor.Editor.Listeners.{
  after_dispatch, Callback, undoes, EditorEvent, push_undo_event, key_event, EditorState, key_z,
  pool_type, is_ctrl_down, callback_of, reacts, handle, deliver, run_calls, EventType, false,
  pushes_undo, World,
}

abbrev pub listener : ℕ → Callback → EventListener Callback
listener i f = record { callback = f; id = i; pending_removal = false }

-- The listeners of the editor are the only ones for the two types of event.
abbrev pub ListensAlone : EventManager Callback → ℕ → ℕ → Type 0
ListensAlone m i j =
    (m.m_events on_push_undo_transform ≡ some (listener i pushes_undo ∷ []))
    × (m.m_events on_key_down ≡ some (listener j undoes ∷ []))

module _ {C A R M : Type 0} (can_rotate : A → Bool) (rotated : R → A → A) (payload : ℕ → C → List ℕ)
    (read_payload : CommandType → List ℕ → Option (ℕ × C)) (input : InputSystem M) where
  run_one :
      (ls : List (EventListener Callback)) (id : ℕ) (f : Callback) (e : EditorEvent C R)
      (s t : EditorState C A)
      → callback_of ls id ≡ some f
      → handle can_rotate rotated payload read_payload input f e s ≡ some t
      → run_calls can_rotate rotated payload read_payload input ls ((id, e) ∷ []) s ≡ some t
  unfolding run_calls
  run_one ls id f e s t found handled = rw (found, handled, ◌>>=◌) refl

  -- A dispatch to one of the lambdas alone.
  deliver_one :
      (m : EventManager Callback) (t : EventType) (i : ℕ) (f : Callback) (e : EditorEvent C R)
      (s u : EditorState C A)
      → m.m_events t ≡ some (listener i f ∷ [])
      → handle can_rotate rotated payload read_payload input f e s ≡ some u
      → (n : EventManager Callback) × (deliver can_rotate rotated payload read_payload input t e m s
          ≡ some (n, u))
        × ((k : EventType) (l : EventListener Callback)
            → l.pending_removal ≡ false
            → m.m_events k ≡ some (l ∷ [])
            → n.m_events k ≡ some (l ∷ []))
  unfolding deliver leave
  deliver_one m t i f e s u found handled =
      let w : World Callback (EditorEvent C R) = record { manager = m; calls = [] } in
      let reaction = reacts {C = C} {R = R} in
      let after = after_dispatch can_rotate rotated payload read_payload input in
      let left = leave reaction (record (enter reaction w) { calls = (i, e) ∷ [] }) in
      (
        left.manager,
        ap (λ o. after (listeners_of (m.m_events t)) o s)
              (dispatch-quiet reaction 0 t e w (listener i f ∷ []) found (refl, tt))
            ∙ ap (λ ls. after (listeners_of ls) (done left) s) found
            ∙ ap (λ o. o >>= λ x. some (left.manager, x))
                (run_one (listener i f ∷ []) i f e s u (rw (==_self i) refl) handled),
        λ k l live at.
            leave-kept reaction (record (enter reaction w) { calls = (i, e) ∷ [] }) k l live at,
      )

  undo_handled :
      (s : EditorState C A) (b : UndoBuffer) (r : ComponentRegistry ComponentType C)
      → is_ctrl_down can_rotate rotated payload read_payload input ≡ some true
      → undo ComponentType-discrete pool_type read_payload s.undo_buffer s.registry ≡ some (b, r)
      → handle can_rotate rotated payload read_payload input undoes (key_event key_z) s
        ≡ some (record s { undo_buffer = b; registry = r })
  unfolding handle
  undo_handled s b r ctrl undone = rw (ctrl, undone, ◌>>=◌) refl

  -- With a key of Ctrl held and no other listener for the two types of event, the undo of an edit: when
  -- the old transform of an entity is pushed before the component changes, in bytes that can be read
  -- back, Ctrl+Z takes the change back. The registry is the one before the edit and the buffer has lost the command.
  pub undo_edit :
      (manager : EventManager Callback) (i j : ℕ) (camera : A) (cs : List Command)
      (pools : List (ComponentType × ComponentPool C)) (active : List ℕ) (next : ℕ)
      (p q : ComponentPool C) (e : ℕ) (new old : C)
      → ListensAlone manager i j
      → is_ctrl_down can_rotate rotated payload read_payload input ≡ some true
      → read_payload update_transform (payload e old) ≡ some (e, old)
      → find_pool ComponentType-discrete transform pools ≡ some p
      → get p e ≡ some old
      → assign p e new ≡ some q
      → let registry : ComponentRegistry ComponentType C = record {
        m_active_entities = active;
        m_pools = pools;
        m_next_id = next;
      } in
        let pushed = push_command (represent cs) update_transform (payload e old) in
        let edited = record registry {
          m_pools = put_pool ComponentType-discrete transform q pools;
        } in
        let run = deliver can_rotate rotated payload read_payload input in
        (m : EventManager Callback) × (n : EventManager Callback) × (run on_push_undo_transform
            (push_undo_event e (some old))
            manager
            (record { camera = camera; undo_buffer = represent cs; registry = registry })
          ≡ some (m, record { camera = camera; undo_buffer = pushed; registry = registry }))
        × (run on_key_down
              (key_event key_z)
              m
              (record { camera = camera; undo_buffer = pushed; registry = edited })
            ≡ some (
              n,
              record { camera = camera; undo_buffer = represent (evict cs); registry = registry },
            ))
  undo_edit manager i j camera cs pools active next p q e new old alone ctrl read found was edit =
      let registry : ComponentRegistry ComponentType C = record {
        m_active_entities = active;
        m_pools = pools;
        m_next_id = next;
      } in
      let pushed = push_command (represent cs) update_transform (payload e old) in
      let (m, sent, kept) =
        deliver_one manager on_push_undo_transform i pushes_undo (push_undo_event e (some old))
          (record { camera = camera; undo_buffer = represent cs; registry = registry })
          (record { camera = camera; undo_buffer = pushed; registry = registry }) alone.0
          (unfold handle in refl) in
      let handled =
        undo_handled
          (record {
            camera = camera;
            undo_buffer = pushed;
            registry = record registry {
              m_pools = put_pool ComponentType-discrete transform q pools;
            };
          })
          (represent (evict cs)) registry ctrl
          (undo-push_command ComponentType-discrete pool_type read_payload cs update_transform
            (payload e old) pools active next p q e new old read found was edit) in
      let (n, undone, rest) =
        deliver_one m on_key_down j undoes (key_event key_z) _
          (record { camera = camera; undo_buffer = represent (evict cs); registry = registry })
          (kept on_key_down (listener j undoes) refl alone.1) handled in
      (m, n, sent, undone)
