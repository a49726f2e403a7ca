-- ===== src/Console/Completion.antt =====
-- The completion of a command's name in modules/gui/Widgets/Console.cpp.
use mathlib.Core.Path.{subst}
use esp32_particulate_sensor.Prelude.{
  ==_iff, ℕ, zero, suc, ◌+◌, ◌-◌, ◌≡◌, ◌<◌, ◌≤◌, ◌⊎◌, refl, sym, true, false, List, arith, length,
  ◌==◌, get_or, Bool-cases, inl, inr,
}
use esp32_particulate_sensor.Prelude.Strings.{Str, to_upper}
use esp32_particulate_sensor.Console.{
  all_agree, extend_match, match_length, word_start, is_separator,
}

-- The other candidates have the letter of the first one at `i`, upper or lower case.
abbrev pub Agree : Str → List Str → ℕ → Type 0
Agree first others i = all_agree (to_upper (get_or first i 0)) i others ≡ true

-- `m` ends the common part of the candidates from `n` on, within `k` places.
abbrev CommonUpTo : Str → List Str → ℕ → ℕ → ℕ → Type 0
CommonUpTo first others k n m =
    (n ≤ m)
    × (m ≤ n + k)
    × ((i : ℕ) → n ≤ i → i < m → Agree first others i)
    × ((m ≡ n + k) ⊎ (¬ Agree first others m))

Agree-from :
    (first : Str) (others : List Str) (n m : ℕ)
    → Agree first others n
    → ((i : ℕ) → n + 1 ≤ i → i < m → Agree first others i)
    → (i : ℕ) → n ≤ i
    → i < m
    → Agree first others i
Agree-from first others n m agree later i low high = elim (Bool-cases (n == i)) [
  | inl same ↦ subst (λ j. Agree first others j) ((==_iff n i).0 same) agree
  | inr other ↦ later i (ground arith) high
]

extend_match_lem :
    (first : Str) (others : List Str) (k n : ℕ)
    → CommonUpTo first others k n (extend_match first others k n)
unfolding extend_match
extend_match_lem first others zero n =
    (omega arith, omega arith, λ i low high. absurd (omega arith), inl (omega arith))
extend_match_lem first others (suc k) n =
    let m = extend_match first others k (n + 1) in
    let rest = extend_match_lem first others k (n + 1) in
    elim (Bool-cases (all_agree (to_upper (get_or first n 0)) n others)) [
      | inl agree ↦
          let step : extend_match first others (suc k) n ≡ m = rw agree refl in
          subst (λ x. CommonUpTo first others (suc k) n x) (sym step)
            (
              omega (arith, rest.0),
              omega (arith, rest.1),
              Agree-from first others n m agree rest.2,
              elim (rest.3) [ inl whole ↦ inl (omega (arith, whole)) | inr apart ↦ inr apart ],
            )
      | inr apart ↦
          let step : extend_match first others (suc k) n ≡ n = rw apart refl in
          subst (λ x. CommonUpTo first others (suc k) n x) (sym step)
            (omega arith, omega arith, λ i low high. absurd (omega arith), inr (λ h. cc))
    ]

-- For a first candidate that is no shorter than the word, the common length that the completion
-- inserts lies between the word's and the candidate's; at every place from the word on up to it all
-- candidates have the same letter, and at it they have not, unless the first candidate ends there.
pub match_length_lem :
    (word first : Str) (others : List Str)
    → length word ≤ length first
    → (length word ≤ match_length word first others)
      × (match_length word first others ≤ length first)
      × ((i : ℕ) → length word ≤ i → i < match_length word first others → Agree first others i)
      × ((match_length word first others ≡ length first)
          ⊎ (¬ Agree first others (match_length word first others)))
unfolding match_length
match_length_lem word first others h =
    let m = extend_match_lem first others (length first - length word) (length word) in
    (
      m.0,
      omega (arith, m.1),
      m.2,
      elim (m.3) [ inl whole ↦ inl (omega (arith, whole)) | inr apart ↦ inr apart ],
    )

-- `s` starts the word before the cursor.
abbrev StartsWord : Str → ℕ → ℕ → Type 0
StartsWord buf cursor s =
    (s ≤ cursor)
    × ((i : ℕ) → s ≤ i → i < cursor → is_separator (get_or buf i 0) ≡ false)
    × ((s ≡ 0) ⊎ (is_separator (get_or buf (s - 1) 0) ≡ true))

-- `word_start` is at most the cursor; no separator stands between it and the cursor, and one stands
-- before it unless it is the start of the text.
pub word_start_lem :
    (buf : Str) (cursor : ℕ)
    → (word_start buf cursor ≤ cursor)
      × ((i : ℕ) → word_start buf cursor ≤ i → i < cursor → is_separator (get_or buf i 0) ≡ false)
      × ((word_start buf cursor ≡ 0)
          ⊎ (is_separator (get_or buf (word_start buf cursor - 1) 0) ≡ true))
unfolding word_start
word_start_lem buf zero = (omega arith, λ i low high. absurd (omega arith), inl refl)
word_start_lem buf (suc k) =
    let rest = word_start_lem buf k in
    elim (Bool-cases (is_separator (get_or buf k 0))) [
      | inl sep ↦
          let step : word_start buf (suc k) ≡ suc k = rw sep refl in
          subst (λ s. StartsWord buf (suc k) s) (sym step)
            (
              omega arith,
              λ i low high. absurd (omega arith),
              inr (
                  subst (λ j. is_separator (get_or buf j 0) ≡ true) {x = k} {y = suc k - 1}
                    (omega arith) sep),
            )
      | inr other ↦
          let step : word_start buf (suc k) ≡ word_start buf k = rw other refl in
          subst (λ s. StartsWord buf (suc k) s) (sym step)
            (omega (arith, rest.0), clear_up_to other rest.1, rest.2)
    ]
  where
    clear_up_to :
        is_separator (get_or buf k 0) ≡ false
        → ((i : ℕ) → word_start buf k ≤ i → i < k → is_separator (get_or buf i 0) ≡ false)
        → (i : ℕ) → word_start buf k ≤ i
        → i < suc k
        → is_separator (get_or buf i 0) ≡ false
    clear_up_to other before i low high = elim (Bool-cases (k == i)) [
      | inl same ↦ subst (λ j. is_separator (get_or buf j 0) ≡ false) ((==_iff k i).0 same) other
      | inr apart ↦ before i low (ground arith)
    ]
