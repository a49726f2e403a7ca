-- ===== src/Events/Order.antt =====
-- Which callbacks a dispatch runs, and in which order.
use mathlib.Core.Logic.{if_pos}
use esp32_particulate_sensor.Prelude.{
  ◌-◌, length-append, get_elem?_middle, ==_self, ℕ, suc, ◌+◌, ◌≡◌, refl, sym, ap, ◌∙◌, arith, false,
  some, List, [], ◌∷◌, ◌++◌, length, get_elem?, ◌==◌, if◌then◌else◌, Bool-cases, inl, inr,
  get_elem?_middle, length-append, ==_self,
}
use mathlib.Core.List.{append_assoc, append-nil}
use esp32_particulate_sensor.Events.{
  EventType, EventType-discrete, EventListener, Action, adds, World, Outcome, done, undefined,
  listeners_of, call_listener, for_listeners, enter, leave, dispatch, for_listeners-step,
  listener_count, add_event_listener, clear_pending_listeners, erase_pending,
  clear_pending_listeners, erase_pending,
}

module _ {F E : Type 0} where
  -- The calls that a dispatch of `e` makes: the listeners that are not marked, in order.
  abbrev pub expected_calls : E → List (EventListener F) → List (ℕ × E)
  expected_calls e [] = []
  expected_calls e (l ∷ ls) =
      let rest = expected_calls e ls in if l.pending_removal then rest else (l.id, e) ∷ rest

module _ {F E : Type 0} where
  expected_calls-cons :
      (e : E) (l : EventListener F) (ls : List (EventListener F))
      → expected_calls e (l ∷ ls) ≡ expected_calls e (l ∷ []) ++ expected_calls e ls
  expected_calls-cons e l ls = ground arith

module _ {F E : Type 0} (react : F → E → List (Action F E)) where
  -- The callbacks of these listeners do not call the manager.
  abbrev pub AllQuiet : E → List (EventListener F) → Type 0
  AllQuiet e [] = Unit {0}
  AllQuiet e (l ∷ ls) = (react l.callback e ≡ []) × AllQuiet e ls

  module _ (nested : EventType → E → World F E → Outcome (World F E)) (t : EventType) (e : E) where
    call_listener-quiet :
        (l : EventListener F) (w : World F E)
        → react l.callback e ≡ []
        → call_listener react nested e l w
          ≡ done (record w { calls = w.calls ++ expected_calls e (l ∷ []) })
    unfolding call_listener
    call_listener-quiet l w quiet = elim (Bool-cases l.pending_removal) [
      | inl marked ↦ simp (marked, append-nil)
      | inr live ↦ simp (live, quiet)
    ]

    for_listeners-quiet :
        (before ls : List (EventListener F)) (w : World F E)
        → listeners_of (w.manager.m_events t) ≡ before ++ ls
        → AllQuiet e ls
        → for_listeners react nested t e (length ls) (length before) w
          ≡ done (record w { calls = w.calls ++ expected_calls e ls })
    unfolding for_listeners
    for_listeners-quiet before [] w here quiet = simp append-nil
    for_listeners-quiet before (l ∷ ls) w here quiet =
        let w' = record w { calls = w.calls ++ expected_calls e (l ∷ []) } in
        let at : get_elem? (listeners_of (w.manager.m_events t)) (length before) ≡ some l =
          rw here (get_elem?_middle before l ls) in
        let longer : length (before ++ l ∷ []) ≡ length before + 1 =
          omega (arith, length-append before (l ∷ [])) in
        let rest =
          for_listeners-quiet (before ++ l ∷ []) ls w'
            (rw here (sym (append_assoc before (l ∷ []) ls))) quiet.1 in
        rw
          (
            for_listeners-step react nested t e (length ls) (length before) w w' l at
                (call_listener-quiet l w quiet.0),
            ==_self (listener_count react w t),
            ← longer,
          )
          (rest
            ∙ ap (λ c. done (record w { calls = c }))
                (append_assoc w.calls (expected_calls e (l ∷ [])) (expected_calls e ls)
                  ∙ ap (λ c. w.calls ++ c) (sym (expected_calls-cons e l ls))))

  -- What such a dispatch ends in.
  pub dispatch-quiet :
      (fuel : ℕ) (t : EventType) (e : E) (w : World F E) (ls : List (EventListener F))
      → w.manager.m_events t ≡ some ls
      → AllQuiet e ls
      → dispatch react (suc fuel) t e w
        ≡ done (leave react (record (enter react w) { calls = w.calls ++ expected_calls e ls }))
  unfolding dispatch
  dispatch-quiet fuel t e w ls found quiet =
      rw
        (
          found,
          dispatch,
          for_listeners-quiet (dispatch react fuel) t e [] ls (enter react w)
              (ap listeners_of found) quiet,
        )
        refl

  -- A dispatch to callbacks that do not call the manager always ends. It runs exactly the listeners
  -- of its type that are not marked for removal, in the order of their registration.
  pub dispatch-order :
      (fuel : ℕ) (t : EventType) (e : E) (w : World F E) (ls : List (EventListener F))
      → w.manager.m_events t ≡ some ls
      → AllQuiet e ls
      → (v : World F E) × (dispatch react (suc fuel) t e w ≡ done v)
        × (v.calls ≡ w.calls ++ expected_calls e ls)
  unfolding dispatch
  dispatch-order fuel t e w ls found quiet = (
    leave react (record (enter react w) { calls = w.calls ++ expected_calls e ls }),
    dispatch-quiet fuel t e w ls found quiet,
    unfold leave in refl,
  )

  -- Listeners that are not marked stay when a dispatch is left.
  pub leave-kept :
      (w : World F E) (t : EventType) (l : EventListener F)
      → l.pending_removal ≡ false
      → w.manager.m_events t ≡ some (l ∷ [])
      → (leave react w).manager.m_events t ≡ some (l ∷ [])
  unfolding leave clear_pending_listeners erase_pending
  leave-kept w t l live found = elim (Bool-cases (w.manager.m_dispatch_level - 1 == 0)) [
    | inl last ↦ rw (last, found) (rw live refl)
    | inr inner ↦ rw inner found
  ]

  -- The world after such a callback.
  abbrev added : World F E → EventType → F → ℕ → E → World F E
  added w t f i e = record w {
    manager = (add_event_listener w.manager t f).1;
    calls = w.calls ++ (i, e) ∷ [];
  }

  call_listener-adds :
      (nested : EventType → E → World F E → Outcome (World F E)) (e : E) (l : EventListener F)
      (w : World F E) (t : EventType) (f : F)
      → l.pending_removal ≡ false
      → react l.callback e ≡ adds t f ∷ []
      → call_listener react nested e l w ≡ done (added w t f l.id e)
  unfolding call_listener
  call_listener-adds nested e l w t f live reacts = simp (live, reacts)

  listener_count-added :
      (w : World F E) (t : EventType) (f : F) (i : ℕ) (e : E)
      → listener_count react (added w t f i e) t ≡ listener_count react w t + 1
  unfolding add_event_listener
  listener_count-added w t f i e =
      rw (if_pos (EventType-discrete t t) refl)
        (length-append (listeners_of (w.manager.m_events t)) _)

  -- A callback that adds a listener for the type being dispatched makes the dispatch undefined.
  pub dispatch-adds_undefined :
      (fuel : ℕ) (t : EventType) (e : E) (w : World F E) (l : EventListener F)
      (ls : List (EventListener F)) (f : F)
      → w.manager.m_events t ≡ some (l ∷ ls)
      → l.pending_removal ≡ false
      → react l.callback e ≡ adds t f ∷ []
      → dispatch react (suc fuel) t e w ≡ undefined
  unfolding dispatch
  dispatch-adds_undefined fuel t e w l ls f found live reacts =
      let w' = enter react w in
      let v = added w' t f l.id e in
      let grown : (listener_count react v t == listener_count react w' t) ≡ false =
        ground (arith, listener_count-added w' t f l.id e) in
      rw (
        found,
        dispatch,
        for_listeners-step react (dispatch react fuel) t e (length ls) 0 w' v l
            (ap (λ o. get_elem? (listeners_of o) 0) found)
            (call_listener-adds (dispatch react fuel) e l w' t f live reacts),
        grown,
      )
