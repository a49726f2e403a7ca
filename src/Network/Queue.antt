-- ===== src/Network/Queue.antt =====
-- `ThreadSafeQueue` of modules/core/a_threadSafeQueue.hpp, the sensor's stream of
-- modules/network/a_tcp_sensor_client.cpp that fills it, and `NetworkManager::update` of
-- modules/network/a_network_manager.cpp that empties it. Each operation holds the mutex, so the
-- threads interleave as whole operations.
pub mod Lines
pub mod Order
pub mod Tests
use esp32_particulate_sensor.Prelude.{
  ℕ, Bool, true, false, Option, none, some, List, [], ◌∷◌, ◌++◌, ◌==◌, if◌then◌else◌, length,
}
use esp32_particulate_sensor.Prelude.Strings.{Str}

module _ {T : Type 0} where
  unfoldable pub push : List T → T → List T
  push q value = q ++ value ∷ []

  -- `none` is the exception of an empty queue.
  unfoldable pub dequeue : List T → Option (T × List T)
  dequeue [] = none
  dequeue (value ∷ q) = some (value, q)

  -- The loop of `dequeueAll`: `values` are those that were moved, and the queue is empty after it.
  unfoldable pub move_all : List T → List T → List T × List T
  move_all values [] = (values, [])
  move_all values (value ∷ q) = move_all (values ++ value ∷ []) q

  unfoldable pub dequeue_all : List T → List T × List T
  unfolding move_all
  dequeue_all q = move_all [] q

  unfoldable pub is_empty : List T → Bool
  is_empty [] = true
  is_empty (value ∷ q) = false

  unfoldable pub size : List T → ℕ
  size q = length q

-- '\n'
abbrev pub newline : ℕ
newline = 10

-- The loop of `readSensorStream` on what has arrived: the lines that it pushes, and the bytes that
-- stay in the buffer; `line` holds the bytes read since the last newline.
unfoldable pub read_lines : Str → Str → List Str × Str
read_lines line [] = ([], line)
read_lines line (c ∷ cs) =
    let inside = read_lines (line ++ c ∷ []) cs in
    let after = read_lines [] cs in if c == newline then (line ∷ after.0, after.1) else inside

-- The two threads' shared state: the socket's buffer, the queue, and the events dispatched so far.
pub record Sensors : Type 0 where
  pub buffer : Str
  pub sensor_event_queue : List Str
  pub dispatched : List Str

unfoldable pub push_all : List Str → List Str → List Str
unfolding push
push_all q [] = q
push_all q (line ∷ lines) = push_all (push q line) lines

-- Bytes arrive, and the network thread reads the lines that are complete.
unfoldable pub receive : Sensors → Str → Sensors
unfolding read_lines push_all
receive s bytes =
    let (lines, rest) = read_lines s.buffer bytes in
    record s { buffer = rest; sensor_event_queue = push_all s.sensor_event_queue lines }

-- `NetworkManager::update` on the main thread: one `Dispatch` for each event.
unfoldable pub update : Sensors → Sensors
unfolding dequeue_all
update s =
    let (events, q) = dequeue_all s.sensor_event_queue in
    record s { sensor_event_queue = q; dispatched = s.dispatched ++ events }

-- The steps of the two threads, with the bytes that arrive.
pub data Step : Sensors → Str → Sensors → Type 0 where
  receives : (s : Sensors) (bytes : Str) → Step s bytes (receive s bytes)
  updates : (s : Sensors) → Step s [] (update s)

-- Runs of steps from a connection's start, with all bytes that have arrived.
pub data Reaches : Str → Sensors → Type 0 where
  starts : Reaches [] (record { buffer = []; sensor_event_queue = []; dispatched = [] })
  then_step :
      {arrived bytes : Str} {s t : Sensors}
      → Reaches arrived s
      → Step s bytes t
      → Reaches (arrived ++ bytes) t
