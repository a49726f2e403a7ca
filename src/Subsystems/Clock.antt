-- ===== src/Subsystems/Clock.antt =====
-- The frame clock of modules/core/a_subsystem_manager.cpp.
use esp32_particulate_sensor.Prelude.{ℕ, ◌+◌, ◌-◌, ◌/◌, ◌^◌, ◌<◌, ◌≤◌, ◌≡◌, ◌≢◌, arith}
use esp32_particulate_sensor.Subsystems.{SystemManager, update_clock}

module _ {S : Type 0} where
  -- The ticks of a frame of fewer than 2^31 ticks are those that passed since the last frame, as long
  -- as both counters fall into the same span of 2^32 ticks; where the counter enters the next span
  -- they are more than 2^63.
  pub update_clock_lem :
      (m : SystemManager S) (before counter : ℕ)
      → before ≤ counter
      → counter < before + 2 ^ 31
      → let n = update_clock (update_clock m before) counter in
        (before / 2 ^ 32 ≡ counter / 2 ^ 32 → n.ticks ≡ counter - before)
        × (before / 2 ^ 32 ≢ counter / 2 ^ 32 → 2 ^ 63 < n.ticks)
  unfolding update_clock
  update_clock_lem m before counter order near = (λ same. omega arith, λ next. omega arith)
