-- ===== src/Network/Queue/Order.antt =====
-- What the main thread sees of the sensor's stream, modules/network/a_network_manager.cpp.
use mathlib.Core.Path.{subst}
use mathlib.Core.List.{append_assoc, append-nil}
use esp32_particulate_sensor.Prelude.{
  ℕ, false, ◌==◌, ==_iff, ◌≡◌, refl, sym, ap, ◌∙◌, List, [], ◌∷◌, ◌++◌, Bool-cases, inl, inr,
}
use esp32_particulate_sensor.Prelude.Strings.{Str}
use esp32_particulate_sensor.Network.Queue.{
  Sensors, Step, receives, updates, Reaches, starts, then_step, receive, update, read_lines,
}
use esp32_particulate_sensor.Network.Queue.Lines.{read_lines-append, push_all_lem, dequeue_all_lem}

-- The lines read of all bytes are those dispatched and then those that wait, and the buffer is the rest.
abbrev HasRead : Str → Sensors → Type 0
HasRead arrived s =
    (s.dispatched ++ s.sensor_event_queue ≡ (read_lines [] arrived).0)
    × (s.buffer ≡ (read_lines [] arrived).1)

receive-HasRead :
    (arrived bytes : Str) (s : Sensors)
    → HasRead arrived s
    → HasRead (arrived ++ bytes) (receive s bytes)
unfolding receive
receive-HasRead arrived bytes s h =
    let whole = read_lines-append [] arrived bytes in
    let lines = (read_lines s.buffer bytes).0 in
    (
      ap (λ q. s.dispatched ++ q) (push_all_lem s.sensor_event_queue lines)
          ∙ sym (append_assoc s.dispatched s.sensor_event_queue lines)
          ∙ ap (λ x. x ++ lines) h.0
          ∙ ap (λ b. (read_lines [] arrived).0 ++ (read_lines b bytes).0) h.1
          ∙ sym whole.0,
      ap (λ b. (read_lines b bytes).1) h.1 ∙ sym whole.1,
    )

update-HasRead :
    (arrived : Str) (s : Sensors) → HasRead arrived s → HasRead (arrived ++ []) (update s)
unfolding update
update-HasRead arrived s h =
    subst (λ x. HasRead x (update s)) (sym (append-nil arrived))
      (
        ap (λ p. (s.dispatched ++ p.0) ++ p.1) (dequeue_all_lem s.sensor_event_queue)
            ∙ append-nil (s.dispatched ++ s.sensor_event_queue)
            ∙ h.0,
        h.1,
      )

Step-HasRead :
    (arrived : Str) {bytes : Str} {s t : Sensors}
    → Step s bytes t
    → HasRead arrived s
    → HasRead (arrived ++ bytes) t
Step-HasRead arrived (receives s bytes) h = receive-HasRead arrived bytes s h
Step-HasRead arrived (updates s) h = update-HasRead arrived s h

Reaches-HasRead : {arrived : Str} {s : Sensors} → Reaches arrived s → HasRead arrived s
unfolding read_lines
Reaches-HasRead starts = (refl, refl)
Reaches-HasRead (then_step {arrived} {bytes} {s} {t} reached step) =
    Step-HasRead arrived step (Reaches-HasRead reached)

-- The bytes of lines that are each ended by '\n'.
abbrev pub joined : List Str → Str
joined [] = []
joined (line ∷ lines) = line ++ 10 ∷ joined lines

abbrev pub NoNewline : Str → Type 0
NoNewline [] = Unit {0}
NoNewline (c ∷ cs) = ((c == 10) ≡ false) × NoNewline cs

abbrev pub NoNewlines : List Str → Type 0
NoNewlines [] = Unit {0}
NoNewlines (line ∷ lines) = NoNewline line × NoNewlines lines

NoNewline-append :
    (line : Str) (c : ℕ) → NoNewline line → (c == 10) ≡ false → NoNewline (line ++ c ∷ [])
NoNewline-append [] c h g = (g, tt)
NoNewline-append (d ∷ line) c h g = (h.0, NoNewline-append line c h.1 g)

-- The lines that the loop reads, and the rest, make up the bytes.
read_lines-joined :
    (line bytes : Str)
    → NoNewline line
    → let (lines, rest) = read_lines line bytes in
      (line ++ bytes ≡ joined lines ++ rest) × NoNewlines lines × NoNewline rest
unfolding read_lines
read_lines-joined line [] h = (append-nil line, tt, h)
read_lines-joined line (c ∷ cs) h = elim (Bool-cases (c == 10)) [
  | inl end' ↦
      let (whole, lines, rest) = read_lines-joined [] cs tt in
      let same : c ≡ 10 = (==_iff c 10).0 end' in
      let (ls, r) = read_lines [] cs in
      rw end' (
        ap (λ x. line ++ x ∷ cs) same
            ∙ ap (λ x. line ++ 10 ∷ x) whole
            ∙ sym (append_assoc line (10 ∷ joined ls) r),
        (h, lines),
        rest,
      )
  | inr inside ↦
      let (whole, lines, rest) =
        read_lines-joined (line ++ c ∷ []) cs (NoNewline-append line c h inside) in
      rw inside (sym (append_assoc line (c ∷ []) cs) ∙ whole, lines, rest)
]

-- The events dispatched and those that wait are lines, and what arrived is these lines, each with its
-- '\n', and then the buffer.
abbrev pub IsInOrder : Str → Sensors → Type 0
IsInOrder arrived s =
    let events = s.dispatched ++ s.sensor_event_queue in
    (arrived ≡ joined events ++ s.buffer) × NoNewlines events × NoNewline s.buffer

-- However the bytes of the sensor's stream are cut into pieces and however the updates of the main
-- thread fall between them, what has arrived is always the events dispatched, followed by those that
-- wait in the queue, each with a newline behind it, and then the buffer; no event and no byte of the
-- buffer has a newline. So the events are exactly the complete lines, in order.
pub Reaches-IsInOrder : {arrived : Str} {s : Sensors} → Reaches arrived s → IsInOrder arrived s
Reaches-IsInOrder {arrived} {s} reached =
    let (events, buffer) = Reaches-HasRead reached in
    let (whole, lines, rest) = read_lines-joined [] arrived tt in
    (
      whole
          ∙ ap (λ x. joined x ++ (read_lines [] arrived).1) (sym events)
          ∙ ap (λ b. joined (s.dispatched ++ s.sensor_event_queue) ++ b) (sym buffer),
      subst NoNewlines (sym events) lines,
      subst NoNewline (sym buffer) rest,
    )
