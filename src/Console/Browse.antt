-- ===== src/Console/Browse.antt =====
-- Browsing the history of modules/gui/Widgets/Console.cpp by the arrow keys.
use esp32_particulate_sensor.Prelude.{
  ℕ, zero, suc, ◌+◌, ◌-◌, ◌≡◌, ◌<◌, refl, sym, ap, ◌∙◌, Option, none, some, List, [], ◌∷◌, arith,
  length, get_elem?_of_lt, Bool-cases, inl, inr, ◌⊎◌,
}
use esp32_particulate_sensor.Prelude.Strings.{Str, c_str}
use esp32_particulate_sensor.Console.{
  AppConsole, Key, up_arrow, down_arrow, other_key, Edit, delete_chars, insert_chars, move_history,
  history_callback, recalled_text, eq_pos,
}

-- The position is -1 or that of an entry.
abbrev pub InRange : ℕ → Option ℕ → Type 0
InRange size none = Unit {0}
InRange size (some p) = p < size

move_history-InRange :
    (key : Key) (size : ℕ) (pos : Option ℕ)
    → InRange size pos
    → InRange size (move_history key size pos)
unfolding move_history
move_history-InRange up_arrow size none h = ground arith
move_history-InRange up_arrow size (some zero) h = h
move_history-InRange up_arrow size (some (suc p)) h = omega arith
move_history-InRange down_arrow size none h = tt
move_history-InRange down_arrow size (some p) h = ground arith
move_history-InRange other_key size none h = h
move_history-InRange other_key size (some p) h = h

recalled_text-InRange :
    (history : List Str) (pos : Option ℕ)
    → InRange (length history) pos
    → (text : Str) × (recalled_text history pos ≡ some text)
unfolding recalled_text
recalled_text-InRange history none h = ([], refl)
recalled_text-InRange history (some p) h = get_elem?_of_lt history p h

-- With a position in range the history callback makes no access out of range, whichever key is
-- pressed, and leaves a position in range and the history as it was; if it edits the text, then it
-- replaces all of it by the entry at the new position up to its first NUL, the empty text at none.
pub history_callback_lem :
    (c : AppConsole) (key : Key) (text_len : ℕ)
    → InRange (length c.history) c.history_pos
    → (d : AppConsole) × (edits : List Edit) × (history_callback c key text_len ≡ some (d, edits))
      × InRange (length d.history) d.history_pos
      × (d.history ≡ c.history)
      × ((edits ≡ [])
          ⊎ ((text : Str) × (recalled_text d.history d.history_pos ≡ some text)
              × (edits ≡ delete_chars 0 text_len ∷ insert_chars (c_str text) ∷ [])))
unfolding history_callback
history_callback_lem c key text_len h =
    let pos = move_history key (length c.history) c.history_pos in
    let valid = move_history-InRange key (length c.history) c.history_pos h in
    let found = recalled_text-InRange c.history pos valid in
    elim (Bool-cases (eq_pos c.history_pos pos)) [
      | inl same ↦ (c, [], rw same refl, h, refl, inl refl)
      | inr moved ↦ (
        record c { history_pos = pos },
        delete_chars 0 text_len ∷ insert_chars (c_str found.0) ∷ [],
        rw (moved, found.1) refl,
        valid,
        refl,
        inr (found.0, found.1, refl),
      )
    ]

-- The arrow-up key pressed `n` times.
abbrev pub press_up : ℕ → ℕ → Option ℕ → Option ℕ
press_up zero size pos = pos
press_up (suc n) size pos = move_history up_arrow size (press_up n size pos)

up_from : (size p : ℕ) → move_history up_arrow size (some p) ≡ some (p - 1)
unfolding move_history
up_from size zero = refl
up_from size (suc p) = ap some (omega arith)

press_up_at : (n size : ℕ) → n < size → press_up (suc n) size none ≡ some (size - 1 - n)
unfolding move_history
press_up_at zero size h = ground arith
press_up_at (suc n) size h =
    ap (move_history up_arrow size) (press_up_at n size (omega arith))
    ∙ up_from size (size - 1 - n)
    ∙ ap some (omega arith)

press_up_oldest : (size k : ℕ) → 0 < size → press_up (size + k) size none ≡ some 0
press_up_oldest (suc s) zero h =
    ap (λ n. press_up n (suc s) none) {x = suc s + 0} {y = suc s} (omega arith)
    ∙ press_up_at s (suc s) (omega arith)
    ∙ ap some (omega arith)
press_up_oldest (suc s) (suc k) h =
    ap (λ n. press_up n (suc s) none) {x = suc s + suc k} {y = suc (suc s + k)} (omega arith)
    ∙ ap (move_history up_arrow (suc s)) (press_up_oldest (suc s) k h)
    ∙ up_from (suc s) 0
press_up_oldest zero k h = absurd (omega arith)

-- Pressing arrow-up `n + 1` times from no position reaches the entry `n` steps before the newest, and
-- arrow-down then leads back to where it was one press before; with as many presses as there are
-- entries, or more, the oldest one is reached and kept.
pub press_up_lem :
    (n size k : ℕ)
    → n < size
    → (press_up (suc n) size none ≡ some (size - 1 - n))
      × (move_history down_arrow size (press_up (suc n) size none) ≡ press_up n size none)
      × (press_up (size + k) size none ≡ some 0)
unfolding move_history
press_up_lem zero size k h = (
  press_up_at zero size h,
  ap (move_history down_arrow size) (press_up_at zero size h) ∙ ground arith,
  press_up_oldest size k (omega arith),
)
press_up_lem (suc n) size k h = (
  press_up_at (suc n) size h,
  ap (move_history down_arrow size) (press_up_at (suc n) size h)
      ∙ down
      ∙ sym (press_up_at n size (omega arith)),
  press_up_oldest size k (omega arith),
)
  where
    down : move_history down_arrow size (some (size - 1 - suc n)) ≡ some (size - 1 - n)
    down = ground arith
