-- ===== src/Console/Tests.antt =====
-- Runs of the console of modules/gui/Widgets/Console.cpp, and its theorems at small inputs.
use esp32_particulate_sensor.Prelude.{
  ◌≡◌, ◌⊎◌, refl, true, none, some, List, [], ◌∷◌, ◌++◌, arith, length, if◌then◌else◌, back,
}
use esp32_particulate_sensor.Prelude.Strings.{Str, c_str, eq_str}
use esp32_particulate_sensor.Console.{
  CommandLine, AppConsole, Edit, delete_chars, insert_chars, exec_command, find_command, submit,
  unknown_command, not_allowed, network, help, info, init_registry, new_console, parse_input,
  history_callback, recalled_text, up_arrow, candidates_of, matches_word, erase_str,
}
use esp32_particulate_sensor.Console.Parse.{print, parse_input-print}
use esp32_particulate_sensor.Console.Submit.{submit_nul}
use esp32_particulate_sensor.Console.History.{count, exec_command_lem}
use esp32_particulate_sensor.Console.Browse.{InRange, history_callback_lem}

abbrev network_info : CommandLine
network_info = record { command = network; flags = info ∷ [] }

-- The flag that the registry lists for the command is refused.
listed_flag_refused :
    (exec_command new_console network_info).items
    ≡ new_console.items ++ not_allowed info network ∷ []
unfolding new_console exec_command init_registry find_command
listed_flag_refused = refl

parse_input-print_example : parse_input (print network_info) ≡ network_info
parse_input-print_example = parse_input-print network_info refl (refl, tt)

-- "help" and four NUL bytes.
submit_nul_example :
    submit (record new_console { input_buf = help ++ 0 ∷ 0 ∷ 0 ∷ 0 ∷ [] }) ≡ record new_console {
      input_buf = 0 ∷ 101 ∷ 108 ∷ 112 ∷ 0 ∷ 0 ∷ 0 ∷ 0 ∷ [];
      items = new_console.items ++ unknown_command (help ++ 0 ∷ 0 ∷ 0 ∷ 0 ∷ []) ∷ [];
      history =
          erase_str (help ++ 0 ∷ 0 ∷ 0 ∷ 0 ∷ []) new_console.history
          ++ (help ++ 0 ∷ 0 ∷ 0 ∷ 0 ∷ []) ∷ [];
      history_pos = none;
      scroll_to_bottom = true;
    }
unfolding new_console init_registry
submit_nul_example =
    submit_nul new_console 104 (101 ∷ 108 ∷ 112 ∷ 0 ∷ 0 ∷ 0 ∷ 0 ∷ []) refl refl refl

exec_command_lem_example :
    (back (exec_command new_console network_info).history ≡ some network)
    × ((s : Str)
        → count (exec_command new_console network_info).history s
          ≡ (if eq_str network s then 1 else count new_console.history s))
    × ((exec_command new_console network_info).history_pos ≡ none)
exec_command_lem_example = exec_command_lem new_console network_info

abbrev used : AppConsole
used = record new_console { history = network ∷ help ∷ []; history_pos = some 1 }

history_callback_lem_example :
    (d : AppConsole) × (edits : List Edit) × (history_callback used up_arrow 4 ≡ some (d, edits))
    × InRange (length d.history) d.history_pos
    × (d.history ≡ used.history)
    × ((edits ≡ [])
        ⊎ ((text : Str) × (recalled_text d.history d.history_pos ≡ some text)
            × (edits ≡ delete_chars 0 4 ∷ insert_chars (c_str text) ∷ [])))
history_callback_lem_example = history_callback_lem used up_arrow 4 (omega arith)

-- "Net" against "network" and "nets".
abbrev nets : Str
nets = 110 ∷ 101 ∷ 116 ∷ 115 ∷ []

abbrev net : Str
net = 78 ∷ 101 ∷ 116 ∷ []

net_matches : candidates_of net init_registry ≡ network ∷ []
unfolding candidates_of matches_word init_registry
net_matches = refl
