-- ===== src/Console/Flags.antt =====
-- The check of the flags in `execCommand` of modules/gui/Widgets/Console.cpp.
use esp32_particulate_sensor.Prelude.{
  ◌≡◌, refl, sym, ap, ◌∙◌, Bool, true, false, ◌&&◌, none, some, List, [], ◌∷◌, ◌++◌, if◌then◌else◌,
  Bool-cases, inl, inr,
}
use mathlib.Core.List.{append_assoc, append-nil}
use esp32_particulate_sensor.Prelude.Strings.{Str, contains_str}
use esp32_particulate_sensor.Console.{
  CommandLine, CommandProfile, AppConsole, LogLine, find_command, exec_command, run_profile,
  check_flags, add_log, add_logs, erase_str, not_allowed,
}

-- The flags that stand in the set of the command.
abbrev pub listed_flags : List Str → List Str → List Str
listed_flags allowed [] = []
listed_flags allowed (f ∷ fs) =
    let rest = listed_flags allowed fs in if contains_str allowed f then f ∷ rest else rest

abbrev pub refusals : CommandLine → List Str → List LogLine
refusals line [] = []
refusals line (f ∷ fs) = not_allowed f line.command ∷ refusals line fs

abbrev pub is_empty : List Str → Bool
is_empty [] = true
is_empty (x ∷ xs) = false

check_flags_lem :
    (line : CommandLine) (allowed fs : List Str) (c : AppConsole) (valid : Bool)
    → ((check_flags line allowed fs c valid).0.items
        ≡ c.items ++ refusals line (listed_flags allowed fs))
      × ((check_flags line allowed fs c valid).1 ≡ valid && is_empty (listed_flags allowed fs))
unfolding check_flags add_log
check_flags_lem line allowed [] c true = (sym (append-nil c.items), refl)
check_flags_lem line allowed [] c false = (sym (append-nil c.items), refl)
check_flags_lem line allowed (f ∷ fs) c valid = elim (Bool-cases (contains_str allowed f)) [
  | inl listed ↦
      let rest = check_flags_lem line allowed fs (add_log c (not_allowed f line.command)) false in
      rw listed (
        rest.0
            ∙ append_assoc c.items (not_allowed f line.command ∷ [])
                (refusals line (listed_flags allowed fs)),
        rest.1 ∙ refused valid,
      )
  | inr free ↦ rw free (check_flags_lem line allowed fs c valid)
]
  where
    refused : (v : Bool) → false ≡ v && false
    refused true = refl
    refused false = refl

add_logs_items :
    (c : AppConsole) (lines : List LogLine) → (add_logs c lines).items ≡ c.items ++ lines
unfolding add_logs add_log
add_logs_items c [] = sym (append-nil c.items)
add_logs_items c (line ∷ lines) =
    add_logs_items (add_log c line) lines ∙ append_assoc c.items (line ∷ []) lines

-- A known command runs exactly if none of its flags stands in the set `allowedFlags` of its profile;
-- else `execCommand` adds one refusal for each flag that does, and does not run it.
pub exec_command_flags :
    (c : AppConsole) (line : CommandLine) (profile : CommandProfile)
    → find_command line.command c.command_registry ≡ some profile
    → (exec_command c line).items
      ≡ c.items
        ++ (if is_empty (listed_flags profile.allowed_flags line.flags)
            then profile.action line
            else refusals line (listed_flags profile.allowed_flags line.flags))
unfolding exec_command run_profile
exec_command_flags c line profile found =
    let recalled = record c {
      history_pos = none;
      history = erase_str line.command c.history ++ line.command ∷ [];
    } in
    let checked = check_flags line profile.allowed_flags line.flags recalled true in
    let lem = check_flags_lem line profile.allowed_flags line.flags recalled true in
    elim (Bool-cases (is_empty (listed_flags profile.allowed_flags line.flags))) [
      | inl free ↦
          let valid : checked.1 ≡ true = lem.1 ∙ free in
          rw (found, exec_command, valid, free)
            (add_logs_items checked.0 (profile.action line)
              ∙ rw (lem.0, nothing free) (ap (λ s. s ++ profile.action line) (append-nil c.items)))
      | inr listed ↦
          let invalid : checked.1 ≡ false = lem.1 ∙ listed in
          rw (found, exec_command, invalid, listed) lem.0
    ]
  where
    empty_refusals : (fs : List Str) → is_empty fs ≡ true → refusals line fs ≡ []
    empty_refusals [] h = refl
    empty_refusals (f ∷ fs) h = cc

    nothing :
        is_empty (listed_flags profile.allowed_flags line.flags) ≡ true
        → refusals line (listed_flags profile.allowed_flags line.flags) ≡ []
    nothing h = empty_refusals (listed_flags profile.allowed_flags line.flags) h
