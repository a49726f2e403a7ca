-- ===== src/Subsystems/Tests.antt =====
-- Runs of modules/core/a_subsystem_manager.cpp, and the theorem at one of them.
use esp32_particulate_sensor.Prelude.{
  ℕ, ◌+◌, ◌-◌, ◌/◌, ◌^◌, ◌<◌, ◌≡◌, ◌≢◌, refl, some, none, [], ◌∷◌, arith, ltb, if◌then◌else◌, ◌*◌,
}
use esp32_particulate_sensor.Subsystems.{
  SystemManager, update_clock, update_subsystems, for_all, get_subsystem,
}
use esp32_particulate_sensor.Subsystems.Clock.{update_clock_lem}

abbrev manager : SystemManager ℕ
manager = record { m_subsystems = 3 ∷ 8 ∷ 9 ∷ []; last_counter = 0; ticks = 0 }

-- Subsystems are updated in the order of their registration, and the first of a type is found.
updated_in_order : (update_subsystems (λ s ticks w. 10 * w + s) manager 5 0).1 ≡ 389
unfolding update_subsystems for_all update_clock
updated_in_order = refl

first_found : get_subsystem (λ s. if ltb 5 s then some s else none) manager.m_subsystems ≡ some 8
unfolding get_subsystem
first_found = refl

update_clock_lem_example :
    (4294967290 / 2 ^ 32 ≡ 4294967300 / 2 ^ 32
      → (update_clock (update_clock manager 4294967290) 4294967300).ticks ≡ 4294967300 - 4294967290)
    × (4294967290 / 2 ^ 32 ≢ 4294967300 / 2 ^ 32
        → 2 ^ 63 < (update_clock (update_clock manager 4294967290) 4294967300).ticks)
update_clock_lem_example =
    update_clock_lem manager 4294967290 4294967300 (omega arith) (omega arith)
