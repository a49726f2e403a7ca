-- ===== src/Input/Held.antt =====
-- The keys that modules/input/input_manager.cpp holds.
use esp32_particulate_sensor.Prelude.{
  ℕ, ◌<◌, ◌≡◌, refl, ap, ◌∙◌, Bool, true, false, Option, some, List, [], ◌∷◌, arith, ltb, ◌==◌,
  if◌then◌else◌, ◌>>=◌, get_elem?, set, length, length-set, get_elem?-set, lt→ltb,
}
use esp32_particulate_sensor.Input.{
  InputSystem, SdlEvent, key_down, key_up, mouse_button_down, mouse_button_up, mouse_motion,
  other_event, key_code, sdl_key_to_andromeda, key_count, set_key, dispatch, update_event,
  update_events, is_key_held, Dispatched, on_key_down, on_key_up,
}

-- Every code is in the range of the key states.
code_below : (scancode key : ℕ) → sdl_key_to_andromeda scancode key < key_count
unfolding sdl_key_to_andromeda
code_below scancode key = below (key_code scancode key)
  where
    below : (c : ℕ) → (if ltb c key_count then c else 0) < key_count
    below c = ground arith

-- Whether a key is held after an event, where `held` says whether it was before.
abbrev pub after_event : {M : Type 0} → SdlEvent M → ℕ → Option Bool → Option Bool
after_event (key_down scancode key repeat) k held =
    if sdl_key_to_andromeda scancode key == k then some true else held
after_event (key_up scancode key) k held =
    if sdl_key_to_andromeda scancode key == k then some false else held
after_event e k held = held

-- The last event that is about the key decides.
abbrev pub after_events : {M : Type 0} → List (SdlEvent M) → ℕ → Option Bool → Option Bool
after_events [] k held = held
after_events (e ∷ es) k held = after_events es k (after_event e k held)

held_after_set :
    (states : List Bool) (code k : ℕ) (b : Bool)
    → length states ≡ key_count
    → code < key_count
    → (length (set states code b) ≡ key_count)
      × (get_elem? (set states code b) k ≡ (if code == k then some b else get_elem? states k))
held_after_set states code k b size low =
    (length-set states code b ∙ size, get_elem?-set states code k b (omega (arith, size, low)))

module _ {M : Type 0} where
  -- What an event promises.
  abbrev Follows : InputSystem M → SdlEvent M → InputSystem M → Type 0
  Follows s e t =
      (length t.s_key_states ≡ key_count)
      × ((k : ℕ) → is_key_held t k ≡ after_event e k (is_key_held s k))

  set_key_lem :
      (s : InputSystem M) (code : ℕ) (b : Bool)
      → length s.s_key_states ≡ key_count
      → code < key_count
      → set_key s code b ≡ some (record s { s_key_states = set s.s_key_states code b })
  unfolding set_key
  set_key_lem s code b size low =
      let fits : ltb code (length s.s_key_states) ≡ true =
        lt→ltb code (length s.s_key_states) (omega (arith, size, low)) in
      rw fits refl

  update_event-Follows :
      (s : InputSystem M) (e : SdlEvent M)
      → length s.s_key_states ≡ key_count
      → (t : InputSystem M) × (update_event s e ≡ some t) × Follows s e t
  unfolding update_event dispatch is_key_held
  update_event-Follows s (key_down scancode key repeat) size =
      let code = sdl_key_to_andromeda scancode key in
      let low = code_below scancode key in
      let t = record s { s_key_states = set s.s_key_states code true } in
      let after = λ (k : ℕ). held_after_set s.s_key_states code k true size low in
      (
        if repeat then t else dispatch t (on_key_down code),
        ap (λ o. o >>= λ u. some (if repeat then u else dispatch u (on_key_down code)))
            (set_key_lem s code true size low),
        kept repeat t (on_key_down code) key_count ((after 0).0, λ k. (after k).1),
      )
    where
      kept :
          (b : Bool) (t : InputSystem M) (d : Dispatched M) (n : ℕ)
          → Follows s (key_down scancode key repeat) t
          → Follows s (key_down scancode key repeat) (if b then t else dispatch t d)
      kept true t d n h = h
      kept false t d n h = h
  update_event-Follows s (key_up scancode key) size =
      let code = sdl_key_to_andromeda scancode key in
      let low = code_below scancode key in
      let t = record s { s_key_states = set s.s_key_states code false } in
      let after = λ (k : ℕ). held_after_set s.s_key_states code k false size low in
      (
        dispatch t (on_key_up code),
        ap (λ o. o >>= λ u. some (dispatch u (on_key_up code))) (set_key_lem s code false size low),
        ((after 0).0, λ k. (after k).1),
      )
  update_event-Follows s (mouse_button_down button) size = (_, refl, (size, λ k. refl))
  update_event-Follows s (mouse_button_up button) size = (_, refl, (size, λ k. refl))
  update_event-Follows s (mouse_motion m) size = (_, refl, (size, λ k. refl))
  update_event-Follows s other_event size = (s, refl, (size, λ k. refl))

  -- From key states of the right size no sequence of events makes an access out of range, whatever
  -- scancodes and keys it holds, and afterwards a key is held exactly if the last event about its code
  -- was a press, or if none was and it was held before.
  pub update_events_lem :
      (s : InputSystem M) (es : List (SdlEvent M))
      → length s.s_key_states ≡ key_count
      → (t : InputSystem M) × (update_events s es ≡ some t)
        × (length t.s_key_states ≡ key_count)
        × ((k : ℕ) → is_key_held t k ≡ after_events es k (is_key_held s k))
  unfolding update_events
  update_events_lem s [] size = (s, refl, size, λ k. refl)
  update_events_lem s (e ∷ es) size =
      let (t, step, follows) = update_event-Follows s e size in
      let (u, rest, sized, held) = update_events_lem t es follows.0 in
      (u, rw step rest, sized, λ k. held k ∙ ap (after_events es k) (follows.1 k))
