-- ===== src/Console/History.antt =====
-- The command history of modules/gui/Widgets/Console.cpp: `execCommand` and the arrow keys.
use mathlib.Core.Path.{subst}
use esp32_particulate_sensor.Prelude.{
  ℕ, ◌+◌, ◌≡◌, refl, sym, ◌∙◌, Bool, true, false, none, some, List, [], ◌∷◌, ◌++◌, arith,
  if◌then◌else◌, back, back-push, Bool-cases, Option-cases, inl, inr,
}
use esp32_particulate_sensor.Prelude.Strings.{Str, eq_str, contains_str, eq_of_eq_str}
use esp32_particulate_sensor.Console.{
  CommandLine, CommandProfile, AppConsole, LogLine, find_command, exec_command, run_profile,
  check_flags, add_log, add_logs, erase_str, not_allowed,
}

-- How often a command stands in the history.
abbrev pub count : List Str → Str → ℕ
count [] s = 0
count (x ∷ xs) s = (if eq_str x s then 1 else 0) + count xs s

pub count-append : (xs ys : List Str) (s : Str) → count (xs ++ ys) s ≡ count xs s + count ys s
count-append [] ys s = omega arith
count-append (x ∷ xs) ys s = omega (arith, count-append xs ys s)

erased_count :
    (x : Str) (xs : List Str) (s : Str) → eq_str x s ≡ true → count (erase_str x xs) s ≡ 0
unfolding erase_str
erased_count x [] s h = refl
erased_count x (y ∷ ys) s h = elim (Bool-cases (eq_str y x)) [
  | inl same ↦ rw same (erased_count x ys s h)
  | inr other ↦
      let apart : eq_str y s ≡ false = subst (λ t. eq_str y t ≡ false) (eq_of_eq_str x s h) other in
      rw other (rw apart (omega (arith, erased_count x ys s h)))
]

kept_count :
    (x : Str) (xs : List Str) (s : Str) → eq_str x s ≡ false → count (erase_str x xs) s ≡ count xs s
unfolding erase_str
kept_count x [] s h = refl
kept_count x (y ∷ ys) s h = elim (Bool-cases (eq_str y x)) [
  | inl same ↦
      let apart : eq_str y s ≡ false =
        subst (λ t. eq_str t s ≡ false) (sym (eq_of_eq_str y x same)) h in
      rw same (rw apart (omega (arith, kept_count x ys s h)))
  | inr other ↦ rw other (omega (arith, kept_count x ys s h))
]

abbrev new_history : List Str → Str → List Str
new_history xs x = erase_str x xs ++ x ∷ []

check_flags_history :
    (line : CommandLine) (allowed fs : List Str) (c : AppConsole) (valid : Bool)
    → ((check_flags line allowed fs c valid).0.history ≡ c.history)
      × ((check_flags line allowed fs c valid).0.history_pos ≡ c.history_pos)
unfolding check_flags add_log
check_flags_history line allowed [] c valid = (refl, refl)
check_flags_history line allowed (f ∷ fs) c valid = elim (Bool-cases (contains_str allowed f)) [
  | inl bad ↦
      rw bad (check_flags_history line allowed fs (add_log c (not_allowed f line.command)) false)
  | inr good ↦ rw good (check_flags_history line allowed fs c valid)
]

add_logs_history :
    (c : AppConsole) (lines : List LogLine)
    → ((add_logs c lines).history ≡ c.history) × ((add_logs c lines).history_pos ≡ c.history_pos)
unfolding add_logs add_log
add_logs_history c [] = (refl, refl)
add_logs_history c (line ∷ lines) = add_logs_history (add_log c line) lines

run_profile_history :
    (profile : CommandProfile) (line : CommandLine) (c : AppConsole)
    → ((run_profile profile line c).history ≡ c.history)
      × ((run_profile profile line c).history_pos ≡ c.history_pos)
unfolding run_profile
run_profile_history profile line c =
    let checked = check_flags line profile.allowed_flags line.flags c true in
    let same = check_flags_history line profile.allowed_flags line.flags c true in
    let logged = add_logs_history checked.0 (profile.action line) in
    elim (Bool-cases checked.1) [
      | inl valid ↦ rw valid (logged.0 ∙ same.0, logged.1 ∙ same.1)
      | inr invalid ↦ rw invalid same
    ]

exec_command_history :
    (c : AppConsole) (line : CommandLine)
    → ((exec_command c line).history ≡ new_history c.history line.command)
      × ((exec_command c line).history_pos ≡ none)
unfolding exec_command add_log
exec_command_history c line = elim (Option-cases (find_command line.command c.command_registry)) [
  | inl missing ↦ rw (missing, exec_command) (refl, refl)
  | inr (profile, found) ↦ rw (found, exec_command) (run_profile_history profile line _)
]

-- After `execCommand` the command stands in the history exactly once, as its last entry, every other
-- command as often as before, and no entry is being browsed, whether the command is known or not.
pub exec_command_lem :
    (c : AppConsole) (line : CommandLine)
    → (back (exec_command c line).history ≡ some line.command)
      × ((s : Str)
          → count (exec_command c line).history s
            ≡ (if eq_str line.command s then 1 else count c.history s))
      × ((exec_command c line).history_pos ≡ none)
exec_command_lem c line =
    let h = exec_command_history c line in
    (
      rw h.0 (back-push (erase_str line.command c.history) line.command),
      λ s. rw h.0 (count_new c.history line.command s),
      h.1,
    )
  where
    count_new :
        (xs : List Str) (x s : Str)
        → count (new_history xs x) s ≡ (if eq_str x s then 1 else count xs s)
    count_new xs x s = elim (Bool-cases (eq_str x s)) [
      | inl same ↦
          rw (count-append (erase_str x xs) (x ∷ []) s, erased_count x xs s same, same)
            (omega arith)
      | inr other ↦
          rw (count-append (erase_str x xs) (x ∷ []) s, kept_count x xs s other, other)
            (omega arith)
    ]
