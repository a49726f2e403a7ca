-- ===== src/Reflector/Annotations/Lines.antt =====
-- The two regular expressions of `ParseGlslAnnotations` on an annotation and a declaration as shader
-- sources write them.
use esp32_particulate_sensor.Prelude.{
  ◌||◌, ◌∙◌, refl, ◌==◌, ℕ, ◌≡◌, refl, Bool, true, false, not, [], ◌∷◌, ◌++◌, some, arith, none,
  Option, ap,
}
use esp32_particulate_sensor.Prelude.Strings.{Str, all_bytes, codes}
use esp32_particulate_sensor.Reflector.Annotations.{
  before_mark, some_of, take_while, drop_while, expect_word, is_word, is_space, is_bound,
  match_bounds, match_annotation, search_annotation, match_name, search_name,
}

-- A repetition that takes `f` ends where `r` begins.
abbrev pub stops : (ℕ → Bool) → Str → Bool
stops f [] = true
stops f (c ∷ r) = not (f c)

abbrev pub IsSome : (ℕ → Bool) → Str → Type 0
IsSome f [] = ⊥
IsSome f (c ∷ w) = all_bytes f (c ∷ w) ≡ true

module _ (f : ℕ → Bool) where
  take_while-append :
      (w r : Str) → all_bytes f w ≡ true → stops f r ≡ true → take_while f (w ++ r) ≡ w
  take_while-append [] [] h e = refl
  take_while-append [] (c ∷ r) h e = ground arith
  take_while-append (c ∷ w) r h e = ground (arith, take_while-append w r)

  drop_while-append :
      (w r : Str) → all_bytes f w ≡ true → stops f r ≡ true → drop_while f (w ++ r) ≡ r
  drop_while-append [] [] h e = refl
  drop_while-append [] (c ∷ r) h e = ground arith
  drop_while-append (c ∷ w) r h e = ground (arith, drop_while-append w r)

  some_of_lem :
      (s : Str) (c : ℕ) (w r : Str)
      → take_while f s ≡ c ∷ w
      → drop_while f s ≡ r
      → some_of f s ≡ some (c ∷ w, r)
  some_of_lem s c w r p q = rw (some_of, p) (rw q refl)

  some_of-append : (w r : Str) → IsSome f w → stops f r ≡ true → some_of f (w ++ r) ≡ some (w, r)
  some_of-append [] r h e = absurd h
  some_of-append (c ∷ w) r h e =
      some_of_lem (c ∷ (w ++ r)) c w r (take_while-append (c ∷ w) r h e)
        (drop_while-append (c ∷ w) r h e)

  some_of-none : (c : ℕ) (s : Str) → f c ≡ false → some_of f (c ∷ s) ≡ none
  some_of-none c s h = rw (some_of, h) refl

expect_word-append : (w r : Str) → expect_word w (w ++ r) ≡ some r
expect_word-append [] r = refl
expect_word-append (c ∷ w) r = ground (arith, expect_word-append w r)

-- A text that begins with a byte of `f` ends a repetition of other bytes.
stops_at :
    (f g : ℕ → Bool) (w r : Str)
    → ((c : ℕ) → f c ≡ true → g c ≡ false)
    → IsSome f w
    → stops g (w ++ r) ≡ true
stops_at f g [] r apart h = absurd h
stops_at f g (c ∷ w) r apart h = let first : f c ≡ true = ground arith in rw (apart c first) refl

-- Blanks before a byte that `f` does not take end it too.
stops_gap :
    (f : ℕ → Bool) (gap : Str) (c : ℕ) (r : Str)
    → ((b : ℕ) → is_space b ≡ true → f b ≡ false)
    → all_bytes is_space gap ≡ true
    → f c ≡ false
    → stops f (gap ++ c ∷ r) ≡ true
stops_gap f [] c r apart blank out = rw out refl
stops_gap f (b ∷ gap) c r apart blank out =
    let first : is_space b ≡ true = ground arith in rw (apart b first) refl

space_no_bound : (c : ℕ) → is_space c ≡ true → is_bound c ≡ false
space_no_bound c h = ground arith

space_no_word : (c : ℕ) → is_space c ≡ true → is_word c ≡ false
space_no_word c h = ground arith

word_no_space : (c : ℕ) → is_word c ≡ true → is_space c ≡ false
word_no_space c h = ground arith

bound_no_space : (c : ℕ) → is_bound c ≡ true → is_space c ≡ false
bound_no_space c h = ground arith

module _ (low high gap gap' post : Str) (low_some : IsSome is_bound low)
    (high_some : IsSome is_bound high) (blank : all_bytes is_space gap ≡ true)
    (blank' : all_bytes is_space gap' ≡ true) where
  abbrev pub bounds_text : Str
  bounds_text = 40 ∷ (low ++ (gap ++ 44 ∷ (gap' ++ (high ++ 41 ∷ post))))

  pub match_bounds_lem : match_bounds bounds_text ≡ some (low, high)
  unfolding match_bounds
  match_bounds_lem =
      rw
        (some_of-append is_bound low _ low_some
          (stops_gap is_bound gap 44 (gap' ++ (high ++ 41 ∷ post)) space_no_bound blank refl))
        (rw (drop_while-append is_space gap (44 ∷ (gap' ++ (high ++ 41 ∷ post))) blank refl) (
          rw
            (drop_while-append is_space gap' (high ++ 41 ∷ post) blank'
              (stops_at is_bound is_space high (41 ∷ post) bound_no_space high_some))
            (rw (some_of-append is_bound high (41 ∷ post) high_some refl) refl)))

no_comment : (c : ℕ) (s : Str) → (c == 47) ≡ false → match_annotation (c ∷ s) ≡ none
unfolding match_annotation
no_comment c s h = rw (expect_word, h) refl

search_here :
    (c : ℕ) (s : Str) {a : Str × Option (Str × Str)}
    → match_annotation (c ∷ s) ≡ some a
    → search_annotation (c ∷ s) ≡ some a
unfolding search_annotation
search_here c s e = rw (search_annotation, e) refl

search_later :
    (c : ℕ) (s : Str) → (c == 47) ≡ false → search_annotation (c ∷ s) ≡ search_annotation s
unfolding search_annotation
search_later c s other = rw (search_annotation, no_comment c s other) refl

-- A line without a slash holds no annotation.
pub search_annotation-none :
    (s : Str) → all_bytes (λ c. not (c == 47)) s ≡ true → search_annotation s ≡ none
unfolding search_annotation
search_annotation-none [] h = refl
search_annotation-none (c ∷ s) h =
    let others : all_bytes (λ b. not (b == 47)) s ≡ true = ground arith in
    let other : (c == 47) ≡ false = ground arith in
    search_later c s other ∙ search_annotation-none s others

module _ (gap gap' widget tail : Str) (blank : all_bytes is_space gap ≡ true)
    (blank' : all_bytes is_space gap' ≡ true) (widget_some : IsSome is_word widget)
    (ended : stops is_word tail ≡ true) where
  abbrev pub annotation_text : Str
  annotation_text = codes "//" ++ (gap ++ (codes "@Editor:" ++ (gap' ++ (widget ++ tail))))

  match_annotation_lem : match_annotation annotation_text ≡ some (widget, match_bounds tail)
  unfolding match_annotation
  match_annotation_lem =
      rw
        (drop_while-append is_space gap (codes "@Editor:" ++ (gap' ++ (widget ++ tail))) blank refl)
        (rw
          (drop_while-append is_space gap' (widget ++ tail) blank'
            (stops_at is_word is_space widget tail word_no_space widget_some))
          (rw (some_of-append is_word widget tail widget_some ended) refl))

  -- What stands before the comment is passed over.
  pub search_annotation_lem :
      (before : Str)
      → all_bytes (λ c. not (c == 47)) before ≡ true
      → search_annotation (before ++ annotation_text) ≡ some (widget, match_bounds tail)
  search_annotation_lem [] h = search_here _ _ match_annotation_lem
  search_annotation_lem (c ∷ before) h =
      let other : (c == 47) ≡ false = ground arith in
      let others : all_bytes (λ c. not (c == 47)) before ≡ true = ground arith in
      search_later c (before ++ annotation_text) other ∙ search_annotation_lem before others

-- A declaration: blanks, a type, blanks, a name, blanks, and a semicolon or a bracket.
module _ (type gap name gap' : Str) (mark : ℕ) (post : Str) (type_some : IsSome is_word type)
    (gap_some : IsSome is_space gap) (name_some : IsSome is_word name)
    (blank : all_bytes is_space gap' ≡ true) (marked : (mark == 59 || mark == 91) ≡ true) where
  abbrev pub declaration_text : Str
  declaration_text = type ++ (gap ++ (name ++ (gap' ++ mark ∷ post)))

  pub match_name_lem : match_name declaration_text ≡ some name
  unfolding match_name
  match_name_lem =
      let mark_no_word : is_word mark ≡ false = ground arith in
      let mark_no_space : not (is_space mark) ≡ true = ground arith in
      rw
        (some_of-append is_word type _ type_some
          (stops_at is_space is_word gap (name ++ (gap' ++ mark ∷ post)) space_no_word gap_some))
        (rw
          (some_of-append is_space gap _ gap_some
            (stops_at is_word is_space name (gap' ++ mark ∷ post) word_no_space name_some))
          (rw
            (some_of-append is_word name _ name_some
              (stops_gap is_word gap' mark post space_no_word blank mark_no_word))
            (ap (before_mark name)
                (drop_while-append is_space gap' (mark ∷ post) blank mark_no_space)
              ∙ rw marked refl)))

name_here : (s name : Str) → match_name s ≡ some name → search_name false s ≡ some name
unfolding search_name match_name
name_here [] name e = cc e
name_here (c ∷ s) name e = rw (search_name, e) refl

space_no_name : (c : ℕ) (s : Str) → is_word c ≡ false → match_name (c ∷ s) ≡ none
unfolding match_name
space_no_name c s h = rw (some_of-none is_word c s h) refl

-- The declaration is found after blanks.
pub search_name_lem :
    (indent s name : Str)
    → all_bytes is_space indent ≡ true
    → match_name s ≡ some name
    → search_name false (indent ++ s) ≡ some name
unfolding search_name
search_name_lem [] s name blank e = name_here s name e
search_name_lem (b ∷ indent) s name blank e =
    let first : is_space b ≡ true = ground arith in
    let others : all_bytes is_space indent ≡ true = ground arith in
    rw (search_name, space_no_name b (indent ++ s) (space_no_word b first))
      (rw (space_no_word b first) (search_name_lem indent s name others e))

pub slash_no_space : (c : ℕ) → is_space c ≡ true → not (c == 47) ≡ true
slash_no_space c h = ground arith

pub slash_no_word : (c : ℕ) → is_word c ≡ true → not (c == 47) ≡ true
slash_no_word c h = ground arith
