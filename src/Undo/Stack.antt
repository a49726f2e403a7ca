-- ===== src/Undo/Stack.antt =====
-- What the undo buffer of modules/editor/a_undo_buffer.cpp promises: a stack of commands of bounded
-- depth, and the bytes and offsets that represent it.
use esp32_particulate_sensor.Prelude.{
  ℕ, ◌+◌, ◌-◌, ◌%◌, ◌^◌, ◌≡◌, refl, sym, ap, ◌∙◌, List, [], ◌∷◌, ◌++◌, map, arith, length, leb,
  drop, if◌then◌else◌, length-append, suc,
}
use mathlib.Core.List.{append_assoc, append-nil}
use esp32_particulate_sensor.Undo.{CommandType, UndoBuffer, header_bytes, max_undo_steps}

abbrev pub Command : Type 0
Command = CommandType × List ℕ

-- The oldest command goes when the stack is full.
abbrev pub evict : List Command → List Command
evict cs = if leb max_undo_steps (length cs) then drop 1 cs else cs

abbrev pub push : List Command → Command → List Command
push cs c = evict cs ++ c ∷ []

abbrev pub command_bytes : Command → List ℕ
command_bytes (t, payload) = header_bytes t (length payload % 2 ^ 32) ++ payload

abbrev pub stream : List Command → List ℕ
stream [] = []
stream (c ∷ cs) = command_bytes c ++ stream cs

abbrev pub offsets : ℕ → List Command → List ℕ
offsets from [] = []
offsets from (c ∷ cs) = from ∷ offsets (from + length (command_bytes c)) cs

abbrev pub represent : List Command → UndoBuffer
represent cs = record { content = stream cs; command_offsets = offsets 0 cs }

pub stream-push :
    (cs : List Command) (c : Command) → stream (cs ++ c ∷ []) ≡ stream cs ++ command_bytes c
stream-push [] c = append-nil (command_bytes c)
stream-push (d ∷ cs) c =
    ap (λ s. command_bytes d ++ s) (stream-push cs c)
    ∙ sym (append_assoc (command_bytes d) (stream cs) (command_bytes c))

pub offsets-push :
    (from : ℕ) (cs : List Command) (c : Command)
    → offsets from (cs ++ c ∷ []) ≡ offsets from cs ++ (from + length (stream cs)) ∷ []
offsets-push from [] c = ap (λ n. n ∷ []) (omega arith)
offsets-push from (d ∷ cs) c =
    ap (λ s. from ∷ s)
      (offsets-push (from + length (command_bytes d)) cs c
        ∙ ap (λ n. offsets (from + length (command_bytes d)) cs ++ n ∷ [])
            (omega (arith, length-append (command_bytes d) (stream cs))))

pub length-offsets : (from : ℕ) (cs : List Command) → length (offsets from cs) ≡ length cs
length-offsets from [] = refl
length-offsets from (c ∷ cs) = ap suc (length-offsets (from + length (command_bytes c)) cs)

pub offsets-shift :
    (n from : ℕ) (cs : List Command) → map (λ o. o - n) (offsets (n + from) cs) ≡ offsets from cs
offsets-shift n from [] = refl
offsets-shift n from (c ∷ cs) =
    ap (λ k. k ∷ map (λ o. o - n) (offsets (n + from + length (command_bytes c)) cs)) (omega arith)
    ∙ ap (λ s. from ∷ s)
        (ap (λ k. map (λ o. o - n) (offsets k cs)) (omega arith)
          ∙ offsets-shift n (from + length (command_bytes c)) cs)
