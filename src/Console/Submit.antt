-- ===== src/Console/Submit.antt =====
-- The input buffer of modules/gui/Panels/a_ConsolePanel.cpp, with the NUL bytes after its text.
use esp32_particulate_sensor.Prelude.{
  ℕ, ◌-◌, suc, ◌+◌, ◌≡◌, refl, ap, ◌∙◌, Bool, true, false, not, ◌||◌, none, List, [], ◌∷◌, ◌++◌,
  arith, length, take, ◌==◌,
}
use esp32_particulate_sensor.Prelude.Strings.{
  Str, all_bytes, find_first, find_first-none, find_last_all, eq_str,
}
use esp32_particulate_sensor.Console.{
  CommandProfile, AppConsole, is_blank, is_trimmed, parse_input, find_command, submit, exec_command,
  add_log, erase_str, unknown_command, set,
}

abbrev pub holds_nul : Str → Bool
holds_nul [] = false
holds_nul (b ∷ bs) = b == 0 || holds_nul bs

abbrev pub names_hold_nul : List (Str × CommandProfile) → Bool
names_hold_nul [] = false
names_hold_nul ((name, profile) ∷ rest) = holds_nul name || names_hold_nul rest

nul_differs : (s t : Str) → holds_nul s ≡ false → holds_nul t ≡ true → eq_str s t ≡ false
nul_differs [] [] h g = ground arith
nul_differs [] (b ∷ bs) h g = refl
nul_differs (a ∷ s) [] h g = refl
nul_differs (a ∷ s) (b ∷ t) h g = ground (arith, nul_differs s t)

find_command_nul :
    (s : Str) (commands : List (Str × CommandProfile))
    → names_hold_nul commands ≡ false
    → holds_nul s ≡ true
    → find_command s commands ≡ none
unfolding find_command
find_command_nul s [] h g = refl
find_command_nul s ((name, profile) ∷ rest) h g =
    ground (arith, find_command_nul s rest, nul_differs name s)

take_all : (s : Str) → take (length s) s ≡ s
take_all [] = refl
take_all (b ∷ bs) = ap (λ t. b ∷ t) (take_all bs)

not_blank :
    (s : Str)
    → all_bytes (λ c. not (is_trimmed c)) s ≡ true
    → all_bytes (λ c. not (is_blank c)) s ≡ true
not_blank [] h = refl
not_blank (b ∷ bs) h = ground (arith, not_blank bs)

parsed :
    (b : ℕ) (bs : Str)
    → all_bytes (λ c. not (is_trimmed c)) (b ∷ bs) ≡ true
    → parse_input (take (length bs - 0 + 1) (b ∷ bs)) ≡ record { command = b ∷ bs; flags = [] }
unfolding parse_input
parsed b bs h =
    ap parse_input (
      ap (λ n. take n (b ∷ bs)) {x = length bs - 0 + 1} {y = suc (length bs)} (omega arith)
      ∙ take_all (b ∷ bs))
    ∙ rw (parse_input, find_first-none is_blank (b ∷ bs) (not_blank (b ∷ bs) h)) refl

-- Where the whole input buffer has no blank and still holds a NUL byte, and no command's name holds
-- one, `OnUpdate` reports an unknown command, the whole buffer, whatever word its text starts with.
pub submit_nul :
    (c : AppConsole) (b : ℕ) (bs : Str)
    → all_bytes (λ x. not (is_trimmed x)) (b ∷ bs) ≡ true
    → holds_nul (b ∷ bs) ≡ true
    → names_hold_nul c.command_registry ≡ false
    → submit (record c { input_buf = b ∷ bs }) ≡ record c {
      input_buf = 0 ∷ bs;
      items = c.items ++ unknown_command (b ∷ bs) ∷ [];
      history = erase_str (b ∷ bs) c.history ++ (b ∷ bs) ∷ [];
      history_pos = none;
      scroll_to_bottom = true;
    }
unfolding submit exec_command find_first add_log
submit_nul c b bs clean nul names =
    let first : (not (is_trimmed b)) ≡ true = ground arith in
    let d = record c { input_buf = b ∷ bs } in
    rw (submit, first, find_last_all (λ x. not (is_trimmed x)) b bs clean)
      (ap (λ l. record (exec_command d l) { input_buf = set (exec_command d l).input_buf 0 0 })
          (parsed b bs clean)
        ∙ rw (exec_command, find_command_nul (b ∷ bs) c.command_registry names nul) refl)
