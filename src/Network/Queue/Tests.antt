-- ===== src/Network/Queue/Tests.antt =====
-- Runs of the sensor's queue, modules/core/a_threadSafeQueue.hpp, and the theorem at one of them.
use esp32_particulate_sensor.Prelude.{◌≡◌, refl, [], ◌∷◌, ◌++◌}
use esp32_particulate_sensor.Prelude.Strings.{Str}
use esp32_particulate_sensor.Network.Queue.{
  Sensors, receives, updates, starts, then_step, receive, update, newline, read_lines, push,
  push_all, dequeue_all, move_all,
}
use esp32_particulate_sensor.Network.Queue.Order.{IsInOrder, Reaches-IsInOrder}

abbrev start : Sensors
start = record { buffer = []; sensor_event_queue = []; dispatched = [] }

-- "ab" arrives, then the end of that line and the start of another, and then the main thread updates.
abbrev arrived : Str
arrived = (([] ++ 97 ∷ 98 ∷ []) ++ 99 ∷ newline ∷ 100 ∷ []) ++ []

abbrev reached : Sensors
reached = update (receive (receive start (97 ∷ 98 ∷ [])) (99 ∷ newline ∷ 100 ∷ []))

line_dispatched : reached.dispatched ≡ (97 ∷ 98 ∷ 99 ∷ []) ∷ []
unfolding update receive read_lines push_all push dequeue_all move_all
line_dispatched = refl

Reaches-IsInOrder_example : IsInOrder arrived reached
Reaches-IsInOrder_example = Reaches-IsInOrder (
    then_step
      (then_step (then_step starts (receives start (97 ∷ 98 ∷ [])))
        (receives (receive start (97 ∷ 98 ∷ [])) (99 ∷ newline ∷ 100 ∷ [])))
      (updates (receive (receive start (97 ∷ 98 ∷ [])) (99 ∷ newline ∷ 100 ∷ []))))
