-- ===== src/Events.antt =====
-- `EventManager` of modules/core/a_event_manager.hpp and the event types of
-- modules/definitions/Engine/a_EventTypes.hpp. A callback is a closure of the program: `F` names
-- callbacks, `E` is the event object, and `react` says which calls of the manager a callback makes,
-- in order; callbacks that throw are not modelled. `calls` is the history of callbacks that were run,
-- newest last.
pub mod Level
pub mod Cleanup
pub mod Order
pub mod Tests
use mathlib.Core.Logic.{ite}
use esp32_particulate_sensor.Prelude.{
  ℕ, zero, suc, ◌+◌, ◌-◌, ◌%◌, ◌^◌, ◌≡◌, refl, Bool, true, false, not, Option, none, some, List, [],
  ◌∷◌, ◌++◌, map, ltb, ◌==◌, if◌then◌else◌, length, get_elem?, Option-cases, inl, inr, Bool-cases,
  ==_iff,
}

pub data EventType : Type 0 where
  on_key_down on_key_up on_mouse_btn_down on_mouse_btn_up on_mouse_wheel_scroll : EventType
  on_mouse_moved on_scene_object_selected on_enable_wireframe : EventType
  on_push_undo_transform on_sensor_message_received : EventType

unfoldable pub EventType-discrete : Discrete EventType
EventType-discrete = hlevel

pub record EventListenerId : Type 0 where
  pub event_type : EventType
  pub id : ℕ

pub record EventListener (F : Type 0) : Type 0 where
  pub callback : F
  pub id : ℕ
  pub pending_removal : Bool

-- `m_events t` is `none` where the map has no entry for `t`.
pub record EventManager (F : Type 0) : Type 0 where
  pub m_events : EventType → Option (List (EventListener F))
  pub m_next_id : ℕ
  pub m_dispatch_level : ℕ

-- What a callback does to the manager.
pub data Action (F E : Type 0) : Type 0 where
  adds : EventType → F → Action F E
  removes : EventListenerId → Action F E
  dispatches : EventType → E → Action F E

pub record World (F E : Type 0) : Type 0 where
  pub manager : EventManager F
  pub calls : List (ℕ × E)

-- `undefined` is the use of an iterator that a push_back has made invalid.
pub data Outcome (A : Type 0) : Type 0 where
  done : A → Outcome A
  undefined : Outcome A
  out_of_fuel : Outcome A

infixl 5 ◌>>=◌
abbrev pub ◌>>=◌ : {A B : Type 0} → Outcome A → (A → Outcome B) → Outcome B
done a >>= f = f a
undefined >>= f = undefined
out_of_fuel >>= f = out_of_fuel

abbrev pub listeners_of : {F : Type 0} → Option (List (EventListener F)) → List (EventListener F)
listeners_of none = []
listeners_of (some ls) = ls

module _ {F : Type 0} where
  unfoldable pub new_manager : EventManager F
  new_manager = record { m_events = λ t. none; m_next_id = 0; m_dispatch_level = 0 }

  abbrev pub with_listeners : EventManager F → EventType → List (EventListener F) → EventManager F
  with_listeners m t ls = record m {
    m_events = λ u. ite (EventType-discrete t u) (some ls) (m.m_events u);
  }

  -- `m_NextID++` wraps at the 64 bits of size_t.
  unfoldable pub add_event_listener :
      EventManager F → EventType → F → EventListenerId × EventManager F
  add_event_listener m t f =
      let listener : EventListener F = record {
        callback = f;
        id = m.m_next_id;
        pending_removal = false;
      } in
      (
        record { event_type = t; id = m.m_next_id },
        record (with_listeners m t (listeners_of (m.m_events t) ++ listener ∷ [])) {
          m_next_id = (m.m_next_id + 1) % 2 ^ 64;
        },
      )

  -- The loop of `RemoveEventListener` during a dispatch: the first match is marked.
  unfoldable pub mark_pending : ℕ → List (EventListener F) → List (EventListener F)
  mark_pending i [] = []
  mark_pending i (l ∷ ls) =
      if l.id == i then record l { pending_removal = true } ∷ ls else l ∷ mark_pending i ls

  unfoldable pub erase_id : ℕ → List (EventListener F) → List (EventListener F)
  erase_id i [] = []
  erase_id i (l ∷ ls) = let rest = erase_id i ls in if l.id == i then rest else l ∷ rest

  unfoldable pub erase_pending : List (EventListener F) → List (EventListener F)
  erase_pending [] = []
  erase_pending (l ∷ ls) =
      let rest = erase_pending ls in if l.pending_removal then rest else l ∷ rest

  unfoldable pub clear_pending_listeners : EventManager F → EventManager F
  clear_pending_listeners m = record m {
    m_events = λ t. elim (m.m_events t) [ none ↦ none | some ls ↦ some (erase_pending ls) ];
  }

  unfoldable pub remove_event_listener : EventManager F → EventListenerId → EventManager F
  remove_event_listener m h = elim (m.m_events h.event_type) [
    | none ↦ m
    | some ls ↦
        with_listeners m h.event_type
          (if ltb 0 m.m_dispatch_level then mark_pending h.id ls else erase_id h.id ls)
  ]

module _ {F E : Type 0} (react : F → E → List (Action F E)) where
  -- One call that a callback makes; `nested` is the dispatch that it may start.
  unfoldable pub perform :
      (EventType → E → World F E → Outcome (World F E))
      → Action F E
      → World F E
      → Outcome (World F E)
  perform nested (adds t f) w = done (record w { manager = (add_event_listener w.manager t f).1 })
  perform nested (removes h) w = done (record w { manager = remove_event_listener w.manager h })
  perform nested (dispatches t e) w = nested t e w

  unfoldable pub perform_all :
      (EventType → E → World F E → Outcome (World F E))
      → List (Action F E)
      → World F E
      → Outcome (World F E)
  unfolding perform
  perform_all nested [] w = done w
  perform_all nested (a ∷ actions) w = perform nested a w >>= perform_all nested actions

  -- The body of the loop in `Dispatch`, at one listener.
  unfoldable pub call_listener :
      (EventType → E → World F E → Outcome (World F E))
      → E
      → EventListener F
      → World F E
      → Outcome (World F E)
  unfolding perform_all
  call_listener nested e l w =
      if l.pending_removal
      then done w
      else perform_all nested (react l.callback e) (record w { calls = w.calls ++ (l.id, e) ∷ [] })

  abbrev pub listener_count : World F E → EventType → ℕ
  listener_count w t = length (listeners_of (w.manager.m_events t))

  -- The range-based loop from index `i` with `k` rounds left: it reads each listener as earlier
  -- callbacks have left it, and a push_back to this vector makes its iterators invalid.
  unfoldable pub for_listeners :
      (EventType → E → World F E → Outcome (World F E))
      → EventType
      → E
      → ℕ
      → ℕ
      → World F E
      → Outcome (World F E)
  unfolding call_listener
  for_listeners nested t e zero i w = done w
  for_listeners nested t e (suc k) i w = elim (get_elem? (listeners_of (w.manager.m_events t)) i) [
    | none ↦ undefined
    | some l ↦ call_listener nested e l w >>= λ v.
        let rest = for_listeners nested t e k (i + 1) v in
        if listener_count v t == listener_count w t then rest else undefined
  ]

  -- The end of `Dispatch`: clean up when the outermost dispatch is left.
  unfoldable pub leave : World F E → World F E
  leave w =
      let m = record (w.manager) { m_dispatch_level = w.manager.m_dispatch_level - 1 } in
      record w { manager = if m.m_dispatch_level == 0 then clear_pending_listeners m else m }

  abbrev pub enter : World F E → World F E
  enter w = record w {
    manager = record (w.manager) { m_dispatch_level = w.manager.m_dispatch_level + 1 };
  }

  -- The fuel bounds how deeply dispatches nest.
  unfoldable pub dispatch : ℕ → EventType → E → World F E → Outcome (World F E)
  unfolding for_listeners leave
  dispatch zero t e w = out_of_fuel
  dispatch (suc fuel) t e w = elim (w.manager.m_events t) [
    | none ↦ done w
    | some ls ↦ for_listeners (dispatch fuel) t e (length ls) 0 (enter w) >>= λ v. done (leave v)
  ]

-- A sequence that ends has ended its first part.
pub >>=-eq-done :
    {A B : Type 0} (m : Outcome A) (f : A → Outcome B) {b : B}
    → (m >>= f) ≡ done b
    → (a : A) × (m ≡ done a) × (f a ≡ done b)
>>=-eq-done (done a) f h = (a, refl, h)
>>=-eq-done undefined f h = cc
>>=-eq-done out_of_fuel f h = cc

pub done-injective : {A : Type 0} {a b : A} → done a ≡ done b → a ≡ b
done-injective h = cc

-- A round of the loop that ends has called the listener at its index, and the vector has kept its
-- length.
module _ {F E : Type 0} (react : F → E → List (Action F E)) where
  pub for_listeners-round :
      (nested : EventType → E → World F E → Outcome (World F E)) (t : EventType) (e : E) (k i : ℕ)
      (w : World F E) {v : World F E}
      → for_listeners react nested t e (suc k) i w ≡ done v
      → (l : EventListener F) × (u : World F E) × (get_elem? (listeners_of (w.manager.m_events t)) i
          ≡ some l)
        × (call_listener react nested e l w ≡ done u)
        × (listener_count react u t ≡ listener_count react w t)
        × (for_listeners react nested t e k (i + 1) u ≡ done v)
  unfolding for_listeners
  for_listeners-round nested t e k i w {v} h =
      elim (Option-cases (get_elem? (listeners_of (w.manager.m_events t)) i)) [
        | inl out ↦ let bad : undefined ≡ done v = rw (out, for_listeners) at h in cc bad
        | inr (l, at) ↦
            let run =
              >>=-eq-done (call_listener react nested e l w)
                (λ u.
                  let rest = for_listeners react nested t e k (i + 1) u in
                  if listener_count react u t == listener_count react w t then rest else undefined)
                (rw (at, for_listeners) at h) in
            let u = run.0 in
            elim (Bool-cases (listener_count react u t == listener_count react w t)) [
              | inl same ↦ (l, u, at, run.1, (==_iff _ _).0 same, rw same at run.2)
              | inr changed ↦ let bad : undefined ≡ done v = rw changed at run.2 in cc bad
            ]
      ]

  pub for_listeners-step :
      (nested : EventType → E → World F E → Outcome (World F E)) (t : EventType) (e : E) (k i : ℕ)
      (w v : World F E) (l : EventListener F)
      → get_elem? (listeners_of (w.manager.m_events t)) i ≡ some l
      → call_listener react nested e l w ≡ done v
      → for_listeners react nested t e (suc k) i w ≡ (
          if listener_count react v t == listener_count react w t
          then for_listeners react nested t e k (i + 1) v
          else undefined)
  unfolding for_listeners
  for_listeners-step nested t e k i w v l at called = rw (at, for_listeners, called)
