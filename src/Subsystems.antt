-- ===== src/Subsystems.antt =====
-- `SystemManager` of modules/core/a_subsystem_manager.hpp and a_subsystem_manager.cpp. `S` is a
-- subsystem and `W` the state that its functions change. The performance counter is a u64.
pub mod Clock
pub mod Tests
use esp32_particulate_sensor.Prelude.{
  ℕ, ◌+◌, ◌-◌, ◌%◌, ◌^◌, Option, none, some, List, [], ◌∷◌, ◌++◌,
}

pub record SystemManager (S : Type 0) : Type 0 where
  pub m_subsystems : List S
  pub last_counter : ℕ
  pub ticks : ℕ

module _ {S : Type 0} where
  unfoldable pub add_subsystem : SystemManager S → S → SystemManager S
  add_subsystem m s = record m { m_subsystems = m.m_subsystems ++ s ∷ [] }

  -- A loop that calls one function of every subsystem: `startSubsystems`, `updateEvent`, `destroy`.
  unfoldable pub for_all : {W : Type 0} → (S → W → W) → List S → W → W
  for_all call [] w = w
  for_all call (s ∷ ss) w = for_all call ss (call s w)

  -- The clock of `updateSubsystems`: the counter is cut to a u32, and the ticks since the last frame are
  -- a difference of u64; `s_deltaTime` is these ticks by the counter's frequency.
  unfoldable pub update_clock : SystemManager S → ℕ → SystemManager S
  update_clock m counter =
      let current_counter = counter % 2 ^ 32 in
      record m {
        ticks = (current_counter + 2 ^ 64 - m.last_counter) % 2 ^ 64;
        last_counter = current_counter;
      }

  unfoldable pub update_subsystems :
      {W : Type 0} → (S → ℕ → W → W) → SystemManager S → ℕ → W → SystemManager S × W
  unfolding update_clock for_all
  update_subsystems update m counter w =
      let n = update_clock m counter in (n, for_all (λ s. update s n.ticks) m.m_subsystems w)

  -- `getSubsystem<T>`, where `cast` is the dynamic_cast to `T`; `none` is the exception.
  unfoldable pub get_subsystem : {T : Type 0} → (S → Option T) → List S → Option T
  get_subsystem cast [] = none
  get_subsystem cast (s ∷ ss) = elim (cast s) [ none ↦ get_subsystem cast ss | some t ↦ some t ]
