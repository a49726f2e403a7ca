-- ===== src/Network/Queue/Lines.antt =====
-- The lines of the sensor's stream, modules/network/a_tcp_sensor_client.cpp, do not depend on how the
-- bytes are cut into pieces.
use mathlib.Core.List.{append_assoc, append-nil}
use esp32_particulate_sensor.Prelude.{
  ◌≡◌, refl, sym, ap, ◌∙◌, List, [], ◌∷◌, ◌++◌, ◌==◌, Bool-cases, inl, inr,
}
use esp32_particulate_sensor.Prelude.Strings.{Str}
use esp32_particulate_sensor.Network.Queue.{
  newline, read_lines, push, push_all, dequeue_all, move_all,
}

-- Reading two pieces one after the other gives the lines and the rest of the whole.
pub read_lines-append :
    (line a b : Str)
    → ((read_lines line (a ++ b)).0
        ≡ (read_lines line a).0 ++ (read_lines (read_lines line a).1 b).0)
      × ((read_lines line (a ++ b)).1 ≡ (read_lines (read_lines line a).1 b).1)
unfolding read_lines
read_lines-append line [] b = (refl, refl)
read_lines-append line (c ∷ a) b = elim (Bool-cases (c == newline)) [
  | inl end' ↦ let rest = read_lines-append [] a b in rw end' (ap (λ t. line ∷ t) rest.0, rest.1)
  | inr inside ↦ rw inside (read_lines-append (line ++ c ∷ []) a b)
]

pub push_all_lem : (q lines : List Str) → push_all q lines ≡ q ++ lines
unfolding push_all push
push_all_lem q [] = sym (append-nil q)
push_all_lem q (line ∷ lines) =
    push_all_lem (q ++ line ∷ []) lines ∙ append_assoc q (line ∷ []) lines

move_all_lem : {T : Type 0} (values q : List T) → move_all values q ≡ (values ++ q, [])
unfolding move_all
move_all_lem values [] = ap (λ t. (t, [])) (sym (append-nil values))
move_all_lem values (value ∷ q) =
    move_all_lem (values ++ value ∷ []) q ∙ ap (λ t. (t, [])) (append_assoc values (value ∷ []) q)

pub dequeue_all_lem : {T : Type 0} (q : List T) → dequeue_all q ≡ (q, [])
unfolding dequeue_all
dequeue_all_lem q = move_all_lem [] q
