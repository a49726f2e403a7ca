-- ===== src/Console.antt =====
-- `AppConsole` of modules/gui/Widgets/Console.h and Console.cpp, and the submission of its input
-- line in modules/gui/Panels/a_ConsolePanel.cpp. ImGui owns the text field: the callbacks return
-- the edits that they ask for. `history_pos` is `none` for -1.
pub mod Parse
pub mod Submit
pub mod History
pub mod Browse
pub mod Flags
pub mod Completion
pub mod Tests
use esp32_particulate_sensor.Prelude.{
  ℕ, zero, suc, ◌+◌, ◌-◌, Bool, true, false, not, ◌&&◌, ◌||◌, Option, none, some, List, [], ◌∷◌,
  ◌++◌, map, ltb, leb, ◌==◌, if◌then◌else◌, length, get_elem?, get_or, take, drop, set, replicate,
  ◌>>=◌,
}
use esp32_particulate_sensor.Prelude.Strings.{
  c_str, Str, eq_str, find_first, find_last, substr, contains_str, to_lower, to_upper,
}

pub record CommandLine : Type 0 where
  pub command : Str
  pub flags : List Str

-- The lines that `addLog` formats.
pub data LogLine : Type 0 where
  not_allowed : Str → Str → LogLine
  unknown_command no_match listed : Str → LogLine
  commands help_me network_status welcome : LogLine

-- What a command does: the actions of the registry only add lines.
pub record CommandProfile : Type 0 where
  pub allowed_flags : List Str
  pub action : CommandLine → List LogLine

pub record AppConsole : Type 0 where
  pub input_buf : Str
  pub items : List LogLine
  pub history : List Str
  pub history_pos : Option ℕ
  pub auto_scroll : Bool
  pub scroll_to_bottom : Bool
  pub command_registry : List (Str × CommandProfile)

-- `std::isspace` in the C locale, as `>>` skips it; the blanks of `parseInput`; those of the panel.
abbrev pub is_space : ℕ → Bool
is_space c = c == 32 || leb 9 c && leb c 13

abbrev pub is_blank : ℕ → Bool
is_blank c = c == 32 || c == 9

abbrev pub is_trimmed : ℕ → Bool
is_trimmed c = c == 32 || c == 9 || c == 13 || c == 10

-- `while (iss >> token)`; `token` holds the bytes read so far.
unfoldable pub tokens : Str → Str → List Str
tokens token [] = elim token [ [] ↦ [] | b ∷ bs ↦ (b ∷ bs) ∷ [] ]
tokens token (c ∷ cs) =
    let after = tokens [] cs in
    let inside = tokens (token ++ c ∷ []) cs in
    if is_space c then elim token [ [] ↦ after | b ∷ bs ↦ (b ∷ bs) ∷ after ] else inside

unfoldable pub parse_input : Str → CommandLine
unfolding tokens
parse_input input = elim (find_first is_blank input) [
  | none ↦ record { command = input; flags = [] }
  | some space_pos ↦ record {
    command = substr input 0 space_pos;
    flags = tokens [] (drop space_pos input);
  }
]

-- "network", "help" and "-info"
abbrev pub network : Str
network = 110 ∷ 101 ∷ 116 ∷ 119 ∷ 111 ∷ 114 ∷ 107 ∷ []

abbrev pub help : Str
help = 104 ∷ 101 ∷ 108 ∷ 112 ∷ []

abbrev pub info : Str
info = 45 ∷ 105 ∷ 110 ∷ 102 ∷ 111 ∷ []

-- `initRegistry`, in the order of the map's keys.
unfoldable pub init_registry : List (Str × CommandProfile)
init_registry =
    (help, record { allowed_flags = info ∷ []; action = λ line. help_me ∷ [] })
    ∷ (network, record { allowed_flags = info ∷ []; action = λ line. network_status ∷ [] })
    ∷ []

unfoldable pub add_log : AppConsole → LogLine → AppConsole
add_log c line = record c { items = c.items ++ line ∷ []; scroll_to_bottom = true }

unfoldable pub clear_log : AppConsole → AppConsole
clear_log c = record c { items = [] }

-- The constructor of `AppConsole`: `inputBuf` is resized to 256 NUL bytes.
unfoldable pub new_console : AppConsole
unfolding add_log init_registry
new_console =
    add_log
      (record {
        input_buf = replicate 256 0;
        items = [];
        history = [];
        history_pos = none;
        auto_scroll = true;
        scroll_to_bottom = false;
        command_registry = init_registry;
      })
      welcome

-- `std::erase(history, command)`
unfoldable pub erase_str : Str → List Str → List Str
erase_str s [] = []
erase_str s (x ∷ xs) = let rest = erase_str s xs in if eq_str x s then rest else x ∷ rest

unfoldable pub find_command : Str → List (Str × CommandProfile) → Option CommandProfile
find_command s [] = none
find_command s ((name, profile) ∷ rest) =
    if eq_str name s then some profile else find_command s rest

-- The loop over the flags of `execCommand`, with the value of `flagsValid`.
unfoldable pub check_flags :
    CommandLine → List Str → List Str → AppConsole → Bool → AppConsole × Bool
unfolding add_log
check_flags line allowed [] c valid = (c, valid)
check_flags line allowed (f ∷ fs) c valid =
    let refused = check_flags line allowed fs (add_log c (not_allowed f line.command)) false in
    let passed = check_flags line allowed fs c valid in
    if contains_str allowed f then refused else passed

unfoldable pub add_logs : AppConsole → List LogLine → AppConsole
unfolding add_log
add_logs c [] = c
add_logs c (line ∷ lines) = add_logs (add_log c line) lines

-- The command found, its flags checked, and its action run.
unfoldable pub run_profile : CommandProfile → CommandLine → AppConsole → AppConsole
unfolding check_flags add_logs
run_profile profile line c =
    let checked = check_flags line profile.allowed_flags line.flags c true in
    if checked.1 then add_logs checked.0 (profile.action line) else checked.0

unfoldable pub exec_command : AppConsole → CommandLine → AppConsole
unfolding run_profile add_log
exec_command c line =
    let recalled = record c {
      history_pos = none;
      history = erase_str line.command c.history ++ line.command ∷ [];
    } in
    let run : AppConsole = elim (find_command line.command c.command_registry) [
      | none ↦ add_log recalled (unknown_command line.command)
      | some profile ↦ run_profile profile line recalled
    ] in
    record run { scroll_to_bottom = true }

-- `OnUpdate` of the panel once InputText returns true.
unfoldable pub submit : AppConsole → AppConsole
unfolding exec_command parse_input
submit c =
    let ran : AppConsole = elim (find_first (λ b. not (is_trimmed b)) c.input_buf) [
      | none ↦ c
      | some start ↦ elim (find_last (λ b. not (is_trimmed b)) c.input_buf) [
        | none ↦ c
        | some end' ↦ exec_command c (parse_input (substr c.input_buf start (end' - start + 1)))
      ]
    ] in
    record ran { input_buf = set ran.input_buf 0 0 }

pub data Key : Type 0 where
  up_arrow down_arrow other_key : Key

-- `DeleteChars(pos, count)`, and `InsertChars(data->CursorPos, text)`.
pub data Edit : Type 0 where
  delete_chars : ℕ → ℕ → Edit
  insert_chars : Str → Edit

unfoldable pub move_history : Key → ℕ → Option ℕ → Option ℕ
move_history up_arrow size none = if ltb 0 size then some (size - 1) else none
move_history up_arrow size (some zero) = some zero
move_history up_arrow size (some (suc p)) = some p
move_history down_arrow size none = none
move_history down_arrow size (some p) = if leb size (p + 1) then none else some (p + 1)
move_history other_key size p = p

abbrev pub eq_pos : Option ℕ → Option ℕ → Bool
eq_pos none none = true
eq_pos none (some q) = false
eq_pos (some p) none = false
eq_pos (some p) (some q) = p == q

-- The text that takes the place of the input: `none` is an access out of range.
unfoldable pub recalled_text : List Str → Option ℕ → Option Str
recalled_text history none = some []
recalled_text history (some p) = get_elem? history p

-- The history callback, for a text of `text_len` bytes.
unfoldable pub history_callback : AppConsole → Key → ℕ → Option (AppConsole × List Edit)
unfolding move_history recalled_text
history_callback c key text_len =
    let pos = move_history key (length c.history) c.history_pos in
    if eq_pos c.history_pos pos then some (c, []) else do
      text ← recalled_text c.history pos
      some
          (record c { history_pos = pos }, delete_chars 0 text_len ∷ insert_chars (c_str text) ∷ [])

abbrev pub is_separator : ℕ → Bool
is_separator c = c == 32 || c == 9 || c == 44 || c == 59

-- The loop that moves `word_start` back from the cursor.
unfoldable pub word_start : Str → ℕ → ℕ
word_start buf zero = 0
word_start buf (suc k) =
    let rest = word_start buf k in if is_separator (get_or buf k 0) then suc k else rest

-- `name.size() >= word.size()` and `std::equal` with `char_iequal`.
unfoldable pub matches_word : Str → Str → Bool
matches_word [] name = true
matches_word (w ∷ ws) [] = false
matches_word (w ∷ ws) (c ∷ cs) = to_lower w == to_lower c && matches_word ws cs

unfoldable pub candidates_of : Str → List (Str × CommandProfile) → List Str
unfolding matches_word
candidates_of word [] = []
candidates_of word ((name, profile) ∷ rest) =
    let others = candidates_of word rest in if matches_word word name then name ∷ others else others

-- `is_match`: the other candidates have the same letter at `n`.
unfoldable pub all_agree : ℕ → ℕ → List Str → Bool
all_agree expected n [] = true
all_agree expected n (s ∷ ss) =
    (ltb n (length s) && to_upper (get_or s n 0) == expected) && all_agree expected n ss

-- The loop on `match_len`, for `k` more bytes of the first candidate.
unfoldable pub extend_match : Str → List Str → ℕ → ℕ → ℕ
unfolding all_agree
extend_match first others zero n = n
extend_match first others (suc k) n =
    let further = extend_match first others k (n + 1) in
    if all_agree (to_upper (get_or first n 0)) n others then further else n

unfoldable pub match_length : Str → Str → List Str → ℕ
unfolding extend_match
match_length word first others =
    extend_match first others (length first - length word) (length word)

-- The completion callback, for the text and the cursor of the field.
unfoldable pub completion_callback : AppConsole → Str → ℕ → AppConsole × List Edit
unfolding word_start candidates_of match_length add_log add_logs
completion_callback c buf cursor =
    let start = word_start buf cursor in
    let word = substr buf start (cursor - start) in
    elim (candidates_of word c.command_registry) [
      | [] ↦ (add_log c (no_match word), [])
      | first ∷ [] ↦ (
        c,
        delete_chars start (cursor - start) ∷ insert_chars first ∷ insert_chars (32 ∷ []) ∷ [],
      )
      | first ∷ second ∷ others ↦
          let n = match_length word first (second ∷ others) in
          (
            add_logs (add_log c commands) (map listed (first ∷ second ∷ others)),
            if ltb 0 n
                then delete_chars start (cursor - start) ∷ insert_chars (take n first) ∷ []
                else [],
          )
    ]
