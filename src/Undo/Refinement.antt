-- ===== src/Undo/Refinement.antt =====
-- The undo buffer of modules/editor/a_undo_buffer.cpp behaves as the bounded stack of Undo/Stack:
-- pushing, evicting and undoing.
use mathlib.Core.List.{append_assoc}
use esp32_particulate_sensor.Prelude.{
  resize, ℕ, ◌+◌, ◌>>=◌, some, pop_back-push, back-push, resize-append, ◌-◌, ◌%◌, ◌^◌, ◌≡◌, refl,
  sym, ap, ◌∙◌, List, [], ◌∷◌, ◌++◌, map, arith, length, leb, drop, if◌then◌else◌, length-append,
  drop-append, inl, inr, Bool-cases, Option,
}
use esp32_particulate_sensor.Undo.{
  CommandType, update_tag, update_transform, command_type_at, header_size, header_bytes,
  max_undo_steps, push_command, delete_command, first_command_size, append_bytes, dispatch, undo,
  header_type, ComponentRegistry, undo_func, command_type_value, command_type_at, header_size,
}
use esp32_particulate_sensor.Undo.Stack.{
  Command, evict, push, command_bytes, stream, offsets, represent, stream-push, offsets-push,
  offsets-shift, length-offsets,
}

-- What is left when the bytes of the first command go.
without_first :
    (c : Command) (ds : List Command) (n : ℕ)
    → n ≡ length (command_bytes c)
    → record {
      content = drop n (command_bytes c ++ stream ds);
      command_offsets = map (λ o. o - n) (offsets n ds);
    }
      ≡ represent ds
without_first c ds n h =
    ap (λ s. record { content = s; command_offsets = map (λ o. o - n) (offsets n ds) })
      (ap (λ k. drop k (command_bytes c ++ stream ds)) h
        ∙ drop-append (command_bytes c) (stream ds))
    ∙ ap (λ s. record { content = stream ds; command_offsets = s })
        (ap (λ k. map (λ o. o - n) (offsets k ds)) {x = n} {y = n + 0} (omega arith)
          ∙ offsets-shift n 0 ds)

-- `deleteCommand` takes the oldest command away.
pub delete_command_lem : (cs : List Command) → delete_command (represent cs) ≡ represent (drop 1 cs)
unfolding delete_command first_command_size
delete_command_lem [] = refl
delete_command_lem (c ∷ []) =
    without_first c [] (length (command_bytes c ++ []))
      (length-append (command_bytes c) [] ∙ omega arith)
delete_command_lem (c ∷ d ∷ cs) =
    without_first c (d ∷ cs) (0 + length (command_bytes c)) (omega arith)

evict_lem :
    (cs : List Command)
    → (if leb max_undo_steps (length (offsets 0 cs))
        then delete_command (represent cs)
        else represent cs)
      ≡ represent (evict cs)
evict_lem cs =
    ap (λ n. if leb max_undo_steps n then delete_command (represent cs) else represent cs)
      (length-offsets 0 cs)
    ∙ elim (Bool-cases (leb max_undo_steps (length cs))) [
      | inl full ↦ rw (full, delete_command_lem cs)
      | inr room ↦ rw room
    ]

-- The representation of a stack with a command on top.
pushed :
    (cs : List Command) (t : CommandType) (payload : List ℕ)
    → represent (cs ++ (t, payload) ∷ []) ≡ record {
      content = stream cs ++ command_bytes (t, payload);
      command_offsets = offsets 0 cs ++ length (stream cs) ∷ [];
    }
pushed cs t payload =
    ap (λ s. record { content = s; command_offsets = offsets 0 (cs ++ (t, payload) ∷ []) })
      (stream-push cs (t, payload))
    ∙ ap (λ s. record { content = stream cs ++ command_bytes (t, payload); command_offsets = s })
        (offsets-push 0 cs (t, payload) ∙ ap (λ n. offsets 0 cs ++ n ∷ []) (omega arith))

append_lem :
    (cs : List Command) (t : CommandType) (payload : List ℕ)
    → append_bytes
        (append_bytes
          (record (represent cs) { command_offsets = offsets 0 cs ++ length (stream cs) ∷ [] })
          (header_bytes t (length payload % 2 ^ 32)))
        payload
      ≡ represent (cs ++ (t, payload) ∷ [])
unfolding append_bytes
append_lem cs t payload =
    ap (λ s. record { content = s; command_offsets = offsets 0 cs ++ length (stream cs) ∷ [] })
      (append_assoc (stream cs) (header_bytes t (length payload % 2 ^ 32)) payload)
    ∙ sym (pushed cs t payload)

-- On a buffer that represents a stack of commands `pushCommand` gives a buffer that represents the
-- stack with the new command on top, without the oldest one where 50 commands were held.
pub push_command_lem :
    (cs : List Command) (t : CommandType) (payload : List ℕ)
    → push_command (represent cs) t payload ≡ represent (push cs (t, payload))
unfolding push_command
push_command_lem cs t payload =
    ap
      (λ b.
        append_bytes
          (append_bytes (record b { command_offsets = b.command_offsets ++ length b.content ∷ [] })
            (header_bytes t (length payload % 2 ^ 32)))
          payload)
      (evict_lem cs)
    ∙ append_lem (evict cs) t payload

module _ {K C : Type 0} (same_type : Discrete K) (pool_type : CommandType → K)
    (read_payload : CommandType → List ℕ → Option (ℕ × C)) where
  -- `dispatch` on the bytes of a command runs the function of its type on its payload.
  pub dispatch_lem :
      (t : CommandType) (payload : List ℕ) (r : ComponentRegistry K C)
      → dispatch same_type pool_type read_payload (command_bytes (t, payload)) r
        ≡ undo_func same_type pool_type read_payload t payload r
  unfolding dispatch header_bytes header_type command_type_value command_type_at header_size
  dispatch_lem update_tag payload r = refl
  dispatch_lem update_transform payload r = refl

  undo_last :
      (content offs : List ℕ) (n : ℕ) (r : ComponentRegistry K C)
      → undo same_type pool_type read_payload
          (record { content = content; command_offsets = offs ++ n ∷ [] })
          r
        ≡ (dispatch same_type pool_type read_payload (drop n content) r >>= λ after.
            some (record { content = resize content n 0; command_offsets = offs }, after))
  unfolding undo
  undo_last content offs n r = rw (back-push offs n, undo, pop_back-push offs n)

  -- On a buffer that represents a stack `undo` runs the inverse of the command on top, and gives
  -- the stack without it; on an empty one it does nothing.
  pub undo_lem :
      (cs : List Command) (t : CommandType) (payload : List ℕ) (r : ComponentRegistry K C)
      → (undo same_type pool_type read_payload (represent (cs ++ (t, payload) ∷ [])) r ≡ (
          undo_func same_type pool_type read_payload t payload r >>= λ after.
          some (represent cs, after)))
        × (undo same_type pool_type read_payload (represent []) r ≡ some (represent [], r))
  unfolding undo
  undo_lem cs t payload r = (
    ap (λ b. undo same_type pool_type read_payload b r) (pushed cs t payload)
        ∙ undo_last (stream cs ++ command_bytes (t, payload)) (offsets 0 cs) (length (stream cs)) r
        ∙ rw (
          drop-append (stream cs) (command_bytes (t, payload)),
          resize-append (stream cs) (command_bytes (t, payload)) 0,
          dispatch_lem t payload r,
        ),
    refl,
  )
