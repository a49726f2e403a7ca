-- ===== src/Filesystem/Tests.antt =====
-- Runs of modules/filesystem/a_filesystem.cpp, and the theorems at small inputs.
use esp32_particulate_sensor.Prelude.{◌≡◌, refl, true, false, [], ◌∷◌}
use esp32_particulate_sensor.Prelude.Strings.{Str}
use esp32_particulate_sensor.Filesystem.{Entry, get_all_files_in_directory_recursive}
use esp32_particulate_sensor.Filesystem.Listing.{chosen, get_all_files_in_directory_recursive_lem}

-- "DSensor"
abbrev folder : Str
folder = 68 ∷ 83 ∷ 101 ∷ 110 ∷ 115 ∷ 111 ∷ 114 ∷ []

abbrev file : Str → Entry
file p = record {
  path = p;
  extension = 46 ∷ 111 ∷ [];
  filename = p;
  is_regular_file = true;
  is_directory = false;
  fails = false;
}

abbrev broken : Entry
broken = record (file (98 ∷ [])) { fails = true }

get_all_files_in_directory_recursive_lem_example :
    (get_all_files_in_directory_recursive [] false (file (97 ∷ []) ∷ [])
      ≡ chosen [] (file (97 ∷ []) ∷ []))
    × (get_all_files_in_directory_recursive [] false (file (97 ∷ []) ∷ broken ∷ file (99 ∷ []) ∷ [])
        ≡ chosen [] (file (97 ∷ []) ∷ []))
    × (get_all_files_in_directory_recursive [] true (file (97 ∷ []) ∷ []) ≡ [])
get_all_files_in_directory_recursive_lem_example =
    get_all_files_in_directory_recursive_lem [] (file (97 ∷ []) ∷ []) (file (99 ∷ []) ∷ []) broken
      (refl, tt) refl
