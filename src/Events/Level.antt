-- ===== src/Events/Level.antt =====
-- The dispatch level, and the clean-up when the outermost dispatch ends.
use esp32_particulate_sensor.Prelude.{
  ℕ, zero, suc, ◌+◌, ◌-◌, ◌≡◌, ◌∙◌, arith, List, [], ◌∷◌, length, Bool-cases, Option-cases, inl,
  inr, ap, sym,
}
use esp32_particulate_sensor.Events.{
  EventType, EventListener, Action, adds, removes, dispatches, World, Outcome, done, >>=-eq-done,
  add_event_listener, remove_event_listener, clear_pending_listeners, perform, perform_all,
  call_listener, for_listeners, leave, dispatch, for_listeners-round, done-injective, enter,
}

module _ {F E : Type 0} (react : F → E → List (Action F E)) where
  abbrev pub level : World F E → ℕ
  level w = w.manager.m_dispatch_level

  -- A dispatch that ends leaves the level as it found it.
  abbrev pub KeepsLevel : (EventType → E → World F E → Outcome (World F E)) → Type 0
  KeepsLevel nested =
      (t : EventType) (e : E) (w v : World F E) → nested t e w ≡ done v → level v ≡ level w

  module _ (nested : EventType → E → World F E → Outcome (World F E))
      (keeps : KeepsLevel nested) where
    perform-level :
        (a : Action F E) (w v : World F E) → perform react nested a w ≡ done v → level v ≡ level w
    unfolding perform add_event_listener remove_event_listener
    perform-level (adds t f) w v h = ground arith
    perform-level (removes i) w v h = ground arith
    perform-level (dispatches t e) w v h = keeps t e w v h

    perform_all-level :
        (actions : List (Action F E)) (w v : World F E)
        → perform_all react nested actions w ≡ done v
        → level v ≡ level w
    unfolding perform_all
    perform_all-level [] w v h = ground arith
    perform_all-level (a ∷ rest) w v h =
        let (u, first, others) =
          >>=-eq-done (perform react nested a w) (perform_all react nested rest) h in
        perform_all-level rest u v others ∙ perform-level a w u first

    call_listener-level :
        (e : E) (l : EventListener F) (w v : World F E)
        → call_listener react nested e l w ≡ done v
        → level v ≡ level w
    unfolding call_listener
    call_listener-level e l w v h = elim (Bool-cases l.pending_removal) [
      | inl skip ↦ ap level (sym (done-injective (rw skip at h)))
      | inr live ↦ perform_all-level (react l.callback e) _ v (rw live at h)
    ]

    pub for_listeners-level :
        (t : EventType) (e : E) (k i : ℕ) (w v : World F E)
        → for_listeners react nested t e k i w ≡ done v
        → level v ≡ level w
    unfolding for_listeners
    for_listeners-level t e zero i w v h = ground arith
    for_listeners-level t e (suc k) i w v h =
        let (l, u, at, called, same, rest) = for_listeners-round react nested t e k i w h in
        for_listeners-level t e k (i + 1) u v rest ∙ call_listener-level e l w u called

  leave-level : (w : World F E) → level (leave react w) ≡ level w - 1
  unfolding leave clear_pending_listeners
  leave-level w = ground arith

  -- A dispatch that ends leaves the dispatch level as it found it, whatever its callbacks do.
  pub dispatch-level : (fuel : ℕ) → KeepsLevel (dispatch react fuel)
  unfolding dispatch
  dispatch-level zero t e w v h = cc
  dispatch-level (suc fuel) t e w v h = elim (Option-cases (w.manager.m_events t)) [
    | inl missing ↦ ap level (sym (done-injective (rw (missing, dispatch) at h)))
    | inr (ls, found) ↦
        let (u, looped, left) =
          >>=-eq-done (for_listeners react (dispatch react fuel) t e (length ls) 0 (enter react w))
            (λ u. done (leave react u)) (rw (found, dispatch) at h) in
        let same =
          for_listeners-level (dispatch react fuel) (dispatch-level fuel) t e (length ls) 0
            (enter react w) u looped in
        omega (arith, same, leave-level u, ap level (done-injective left))
  ]
