-- ===== src/Console/Parse.antt =====
-- `parseInput` of modules/gui/Widgets/Console.cpp against the printed form of a command line, and
-- the input buffer of modules/gui/Panels/a_ConsolePanel.cpp.
use mathlib.Core.List.{append-nil, append_assoc}
use esp32_particulate_sensor.Prelude.{
  ℕ, ◌≡◌, refl, sym, ap, ◌∙◌, true, false, not, List, [], ◌∷◌, ◌++◌, arith, take-append,
  drop-append,
}
use esp32_particulate_sensor.Prelude.Strings.{Str, all_bytes, find_first-append, find_first-none}
use esp32_particulate_sensor.Console.{CommandLine, is_space, is_blank, tokens, parse_input}

-- A nonempty word without white space.
abbrev pub IsWord : Str → Type 0
IsWord [] = ⊥
IsWord (b ∷ bs) = all_bytes (λ c. not (is_space c)) (b ∷ bs) ≡ true

abbrev pub AllWords : List Str → Type 0
AllWords [] = Unit {0}
AllWords (w ∷ ws) = IsWord w × AllWords ws

-- Each flag after one space.
abbrev pub print_flags : List Str → Str
print_flags [] = []
print_flags (f ∷ fs) = (32 ∷ f) ++ print_flags fs

abbrev pub print : CommandLine → Str
print line = line.command ++ print_flags line.flags

tokens_word :
    (token w rest : Str)
    → all_bytes (λ c. not (is_space c)) w ≡ true
    → tokens token (w ++ rest) ≡ tokens (token ++ w) rest
unfolding tokens
tokens_word token [] rest h = ap (λ t. tokens t rest) (sym (append-nil token))
tokens_word token (c ∷ w) rest h =
    let inside : is_space c ≡ false = ground arith in
    let others : all_bytes (λ b. not (is_space b)) w ≡ true = ground arith in
    rw inside (
      tokens_word (token ++ c ∷ []) w rest others
      ∙ ap (λ t. tokens t rest) (append_assoc token (c ∷ []) w))

tokens-print_flags :
    (b : ℕ) (bs : Str) (fs : List Str)
    → AllWords fs
    → tokens (b ∷ bs) (print_flags fs) ≡ (b ∷ bs) ∷ fs
unfolding tokens
tokens-print_flags b bs [] h = refl
tokens-print_flags b bs ([] ∷ fs) h = absurd h.0
tokens-print_flags b bs ((c ∷ cs) ∷ fs) h =
    ap (λ t. (b ∷ bs) ∷ t)
      (tokens_word [] (c ∷ cs) (print_flags fs) h.0 ∙ tokens-print_flags c cs fs h.1)

-- Parsing the printed form of a command line gives it back, if the command has no space and no tab
-- and the flags are nonempty and without white space.
pub parse_input-print :
    (line : CommandLine)
    → all_bytes (λ c. not (is_blank c)) line.command ≡ true
    → AllWords line.flags
    → parse_input (print line) ≡ line
unfolding parse_input tokens
parse_input-print line h words = go line.command line.flags h words
  where
    go :
        (command : Str) (flags : List Str)
        → all_bytes (λ c. not (is_blank c)) command ≡ true
        → AllWords flags
        → parse_input (command ++ print_flags flags) ≡ record { command = command; flags = flags }
    go command [] h words =
        rw (append-nil command, parse_input, find_first-none is_blank command h)
          (ap (λ x. record { command = x; flags = [] }) (append-nil command))
    go command ([] ∷ fs) h words = absurd words.0
    go command ((b ∷ bs) ∷ fs) h words =
        rw
          (
            parse_input,
            find_first-append is_blank command 32 ((b ∷ bs) ++ print_flags fs) h refl,
            take-append command (32 ∷ ((b ∷ bs) ++ print_flags fs)),
            drop-append command (32 ∷ ((b ∷ bs) ++ print_flags fs)),
            tokens_word [] (b ∷ bs) (print_flags fs) words.0,
          )
          (ap (λ fs'. record { command = command; flags = fs' })
            (tokens-print_flags b bs fs words.1))
