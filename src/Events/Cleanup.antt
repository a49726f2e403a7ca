-- ===== src/Events/Cleanup.antt =====
-- Between dispatches no listener is marked for removal.
use mathlib.Core.Logic.{if_pos, if_neg}
use esp32_particulate_sensor.Prelude.{
  ℕ, zero, suc, ◌≡◌, refl, arith, false, List, [], ◌∷◌, ◌++◌, length, ◌==◌, Bool-cases,
  Option-cases, inl, inr,
}
use mathlib.Core.Path.{subst}
use esp32_particulate_sensor.Events.{
  EventType, EventType-discrete, EventListener, EventListenerId, EventManager, Action, World, done,
  >>=-eq-done, done-injective, listeners_of, with_listeners, new_manager, add_event_listener,
  remove_event_listener, clear_pending_listeners, erase_pending, erase_id, for_listeners, enter,
  leave, dispatch,
}
use esp32_particulate_sensor.Events.Level.{dispatch-level, for_listeners-level}

module _ {F : Type 0} where
  abbrev pub AllLive : List (EventListener F) → Type 0
  AllLive [] = Unit {0}
  AllLive (l ∷ ls) = (l.pending_removal ≡ false) × AllLive ls

  -- No dispatch is running, and nothing waits for its removal.
  pub record IsIdle (m : EventManager F) : Type 0 where
    pub outside : m.m_dispatch_level ≡ 0
    pub live : (t : EventType) → AllLive (listeners_of (m.m_events t))

  pub new_manager-IsIdle : IsIdle new_manager
  unfolding new_manager
  new_manager-IsIdle = record { outside = refl; live = λ t. tt }

  append-AllLive :
      (ls : List (EventListener F)) (l : EventListener F)
      → AllLive ls
      → l.pending_removal ≡ false
      → AllLive (ls ++ l ∷ [])
  append-AllLive [] l a h = (h, tt)
  append-AllLive (x ∷ ls) l a h = (a.0, append-AllLive ls l a.1 h)

  erase_pending-AllLive : (ls : List (EventListener F)) → AllLive (erase_pending ls)
  unfolding erase_pending
  erase_pending-AllLive [] = tt
  erase_pending-AllLive (l ∷ ls) = elim (Bool-cases l.pending_removal) [
    | inl marked ↦ rw marked (erase_pending-AllLive ls)
    | inr live ↦ rw live (refl, erase_pending-AllLive ls)
  ]

  erase_id-AllLive : (i : ℕ) (ls : List (EventListener F)) → AllLive ls → AllLive (erase_id i ls)
  unfolding erase_id
  erase_id-AllLive i [] a = tt
  erase_id-AllLive i (l ∷ ls) a = elim (Bool-cases (l.id == i)) [
    | inl hit ↦ rw hit (erase_id-AllLive i ls a.1)
    | inr miss ↦ rw miss (a.0, erase_id-AllLive i ls a.1)
  ]

  with_listeners-live :
      (m : EventManager F) (t : EventType) (ls : List (EventListener F))
      → ((u : EventType) → AllLive (listeners_of (m.m_events u)))
      → AllLive ls
      → (u : EventType) → AllLive (listeners_of ((with_listeners m t ls).m_events u))
  with_listeners-live m t ls old new u = elim (EventType-discrete t u) [
    | yes e ↦ rw (if_pos (EventType-discrete t u) e) new
    | no e ↦ rw (if_neg (EventType-discrete t u) e) (old u)
  ]

  -- Adding a listener outside of every dispatch keeps the manager idle.
  pub add_event_listener-IsIdle :
      (m : EventManager F) (t : EventType) (f : F) → IsIdle m → IsIdle (add_event_listener m t f).1
  unfolding add_event_listener
  add_event_listener-IsIdle m t f v = record {
    outside = v.outside;
    live =
        with_listeners-live m t _ v.live
          (append-AllLive (listeners_of (m.m_events t)) _ (v.live t) refl);
  }

  remove_event_listener-IsIdle :
      (m : EventManager F) (h : EventListenerId) → IsIdle m → IsIdle (remove_event_listener m h)
  unfolding remove_event_listener
  remove_event_listener-IsIdle m h v = elim (Option-cases (m.m_events h.event_type)) [
    | inl missing ↦ rw (missing, remove_event_listener) v
    | inr (ls, found) ↦
        rw (found, remove_event_listener)
          (record {
            outside = v.outside;
            live = with_listeners-live m h.event_type _ v.live (
                rw v.outside (
                  erase_id-AllLive h.id ls
                    (subst (λ o. AllLive (listeners_of o)) found (v.live h.event_type))));
          })
  ]

  clear-live :
      (m : EventManager F) (t : EventType)
      → AllLive (listeners_of ((clear_pending_listeners m).m_events t))
  unfolding clear_pending_listeners
  clear-live m t = elim (Option-cases (m.m_events t)) [
    | inl missing ↦ rw missing tt
    | inr (ls, found) ↦ rw found (erase_pending-AllLive ls)
  ]

module _ {F E : Type 0} (react : F → E → List (Action F E)) where
  leave-IsIdle : (w : World F E) → w.manager.m_dispatch_level ≡ 1 → IsIdle (leave react w).manager
  unfolding leave clear_pending_listeners
  leave-IsIdle w h =
      rw h
        (record { outside = refl; live = clear-live (record (w.manager) { m_dispatch_level = 0 }) })

  -- Whatever its callbacks do, a dispatch that starts on an idle manager and ends leaves the manager
  -- idle: the level is 0 again and no listener is marked for removal.
  pub dispatch-IsIdle :
      (fuel : ℕ) (t : EventType) (e : E) (w v : World F E)
      → IsIdle w.manager
      → dispatch react fuel t e w ≡ done v
      → IsIdle v.manager
  unfolding dispatch
  dispatch-IsIdle zero t e w v idle h = cc
  dispatch-IsIdle (suc fuel) t e w v idle h = elim (Option-cases (w.manager.m_events t)) [
    | inl missing ↦
        subst (λ (x : World F E). IsIdle x.manager) (done-injective (rw (missing, dispatch) at h))
          idle
    | inr (ls, found) ↦
        let (u, looped, left) =
          >>=-eq-done (for_listeners react (dispatch react fuel) t e (length ls) 0 (enter react w))
            (λ u. done (leave react u)) (rw (found, dispatch) at h) in
        let same =
          for_listeners-level react (dispatch react fuel) (dispatch-level react fuel) t e
            (length ls) 0 (enter react w) u looped in
        subst (λ (x : World F E). IsIdle x.manager) (done-injective left)
          (leave-IsIdle u (omega (arith, same, idle.outside)))
  ]
