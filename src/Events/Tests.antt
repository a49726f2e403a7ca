-- ===== src/Events/Tests.antt =====
-- Runs of the event manager of modules/core/a_event_manager.hpp, and the theorems at such inputs.
use esp32_particulate_sensor.Prelude.{ℕ, zero, suc, ◌≡◌, refl, false, List, [], ◌∷◌, ◌++◌}
use esp32_particulate_sensor.Events.{
  EventType, on_key_down, on_key_up, EventType-discrete, EventListener, EventManager, Action, adds,
  removes, dispatches, World, Outcome, done, undefined, out_of_fuel, new_manager,
  add_event_listener, remove_event_listener, dispatch, mark_pending,
}
use esp32_particulate_sensor.Events.Cleanup.{
  IsIdle, new_manager-IsIdle, add_event_listener-IsIdle, dispatch-IsIdle,
}
use esp32_particulate_sensor.Events.Order.{expected_calls, dispatch-order}

-- Callback 0 does nothing, 1 removes the listener 1 and dispatches a key-up, and 2 adds a listener.
abbrev react : ℕ → ℕ → List (Action ℕ ℕ)
react zero e = []
react (suc zero) e =
    removes (record { event_type = on_key_down; id = 1 }) ∷ dispatches on_key_up e ∷ []
react (suc (suc f)) e = adds on_key_down 0 ∷ []

abbrev listen : EventManager ℕ → EventType → ℕ → EventManager ℕ
listen m t f = (add_event_listener m t f).1

abbrev removing : World ℕ ℕ
removing = record {
  manager = listen (listen (listen new_manager on_key_down 1) on_key_down 0) on_key_up 0;
  calls = [];
}

abbrev calls_of : Outcome (World ℕ ℕ) → List (ℕ × ℕ)
calls_of (done w) = w.calls
calls_of undefined = []
calls_of out_of_fuel = []

-- The second listener is removed by the first one, and is not called.
removed_not_called : calls_of (dispatch react 3 on_key_down 7 removing) ≡ (0, 7) ∷ (2, 7) ∷ []
unfolding dispatch add_event_listener new_manager EventType-discrete remove_event_listener
    mark_pending
removed_not_called = refl

listened-IsIdle : IsIdle (listen new_manager on_key_down 0)
listened-IsIdle = add_event_listener-IsIdle new_manager on_key_down 0 new_manager-IsIdle

abbrev quiet : World ℕ ℕ
quiet = record { manager = listen (listen new_manager on_key_down 0) on_key_down 0; calls = [] }

quiet-IsIdle : IsIdle quiet.manager
quiet-IsIdle =
    add_event_listener-IsIdle (listen new_manager on_key_down 0) on_key_down 0 listened-IsIdle

abbrev two_listeners : List (EventListener ℕ)
two_listeners =
    record { callback = 0; id = 0; pending_removal = false }
    ∷ record { callback = 0; id = 1; pending_removal = false }
    ∷ []

dispatch-order_example :
    (v : World ℕ ℕ) × (dispatch react 1 on_key_down 5 quiet ≡ done v)
    × (v.calls ≡ [] ++ expected_calls 5 two_listeners)
unfolding add_event_listener new_manager EventType-discrete
dispatch-order_example =
    dispatch-order react 0 on_key_down 5 quiet two_listeners refl (refl, (refl, tt))

abbrev world_of : World ℕ ℕ → Outcome (World ℕ ℕ) → World ℕ ℕ
world_of w (done v) = v
world_of w undefined = w
world_of w out_of_fuel = w

-- The world after the dispatch that removes a listener while it runs.
abbrev after_removing : World ℕ ℕ
after_removing = world_of removing (dispatch react 3 on_key_down 7 removing)

removing-IsIdle : IsIdle removing.manager
removing-IsIdle =
    add_event_listener-IsIdle (listen (listen new_manager on_key_down 1) on_key_down 0) on_key_up 0
      (add_event_listener-IsIdle (listen new_manager on_key_down 1) on_key_down 0
        (add_event_listener-IsIdle new_manager on_key_down 1 new_manager-IsIdle))

dispatch-IsIdle_example : IsIdle after_removing.manager
unfolding dispatch add_event_listener new_manager EventType-discrete remove_event_listener
    mark_pending
dispatch-IsIdle_example =
    dispatch-IsIdle react 3 on_key_down 7 removing after_removing removing-IsIdle refl
