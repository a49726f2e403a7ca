-- ===== src/Reflector/Annotations/RoundTrip.antt =====
-- An annotation and the declaration under it, printed as lines of a shader and read again by
-- `ParseGlslAnnotations`.
use esp32_particulate_sensor.Prelude.{
  ℕ, ◌≡◌, ◌∙◌, refl, Bool, true, false, not, ◌||◌, [], ◌∷◌, ◌++◌, some, arith, ◌==◌, none,
}
use esp32_particulate_sensor.Prelude.Strings.{Str, codes, all_bytes, all_bytes-append}
use esp32_particulate_sensor.Prelude.Maps.{assign_key}
use esp32_particulate_sensor.Reflector.Annotations.{
  Floats, parse_glsl_annotations, parse_lines, read_metadata, is_word, is_space, is_bound,
  search_annotation, search_name,
}
use esp32_particulate_sensor.Reflector.Annotations.Lines.{
  IsSome, match_bounds_lem, search_annotation_lem, search_annotation-none, match_name_lem,
  search_name_lem, slash_no_space, slash_no_word,
}

-- `before // @Editor: widget(low, high) after`, with all its blanks.
pub record AnnotationLine : Type 0 where
  pub before : Str
  pub gap : Str
  pub gap_widget : Str
  pub widget : Str
  pub low : Str
  pub gap_low : Str
  pub gap_high : Str
  pub high : Str
  pub after : Str

abbrev pub bounds_part : AnnotationLine → Str
bounds_part l = 40 ∷ (l.low ++ (l.gap_low ++ 44 ∷ (l.gap_high ++ (l.high ++ 41 ∷ l.after))))

abbrev pub print_annotation : AnnotationLine → Str
print_annotation l =
    l.before
    ++ (codes "//"
        ++ (l.gap ++ (codes "@Editor:" ++ (l.gap_widget ++ (l.widget ++ bounds_part l)))))

abbrev pub no_slash : Str → Bool
no_slash s = all_bytes (λ c. not (c == 47)) s

pub record IsAnnotation (l : AnnotationLine) : Type 0 where
  pub before_plain : no_slash l.before ≡ true
  pub gap_blank : all_bytes is_space l.gap ≡ true
  pub gap_widget_blank : all_bytes is_space l.gap_widget ≡ true
  pub widget_some : IsSome is_word l.widget
  pub low_some : IsSome is_bound l.low
  pub gap_low_blank : all_bytes is_space l.gap_low ≡ true
  pub gap_high_blank : all_bytes is_space l.gap_high ≡ true
  pub high_some : IsSome is_bound l.high

-- `type name;`, or with a bracket, with all its blanks.
pub record DeclarationLine : Type 0 where
  pub indent : Str
  pub type : Str
  pub gap : Str
  pub name : Str
  pub gap_mark : Str
  pub mark : ℕ
  pub after : Str

abbrev pub print_declaration : DeclarationLine → Str
print_declaration d =
    d.indent ++ (d.type ++ (d.gap ++ (d.name ++ (d.gap_mark ++ d.mark ∷ d.after))))

pub record IsDeclaration (d : DeclarationLine) : Type 0 where
  pub indent_blank : all_bytes is_space d.indent ≡ true
  pub type_some : IsSome is_word d.type
  pub gap_some : IsSome is_space d.gap
  pub name_some : IsSome is_word d.name
  pub gap_mark_blank : all_bytes is_space d.gap_mark ≡ true
  pub marked : (d.mark == 59 || d.mark == 91) ≡ true
  pub after_plain : no_slash d.after ≡ true

all_bytes-both :
    (f : ℕ → Bool) (s t : Str)
    → all_bytes f s ≡ true
    → all_bytes f t ≡ true
    → all_bytes f (s ++ t) ≡ true
all_bytes-both f s t p q = ground (arith, all_bytes-append f s t)

all_bytes_mono :
    (f g : ℕ → Bool) (s : Str)
    → ((c : ℕ) → f c ≡ true → g c ≡ true)
    → all_bytes f s ≡ true
    → all_bytes g s ≡ true
all_bytes_mono f g [] imp h = refl
all_bytes_mono f g (c ∷ s) imp h = ground (arith, imp c, all_bytes_mono f g s imp)

word_plain : (w : Str) → IsSome is_word w → no_slash w ≡ true
word_plain [] h = refl
word_plain (c ∷ w) h = all_bytes_mono is_word _ (c ∷ w) slash_no_word h

blank_plain : (w : Str) → all_bytes is_space w ≡ true → no_slash w ≡ true
blank_plain w h = all_bytes_mono is_space _ w slash_no_space h

some_blank_plain : (w : Str) → IsSome is_space w → no_slash w ≡ true
some_blank_plain [] h = refl
some_blank_plain (c ∷ w) h = blank_plain (c ∷ w) h

print_declaration_plain :
    (d : DeclarationLine) → IsDeclaration d → no_slash (print_declaration d) ≡ true
print_declaration_plain d h =
    let mark_plain : no_slash (d.mark ∷ d.after) ≡ true = ground (arith, h.marked, h.after_plain) in
    all_bytes-both _ d.indent _ (blank_plain d.indent h.indent_blank) (
      all_bytes-both _ d.type _ (word_plain d.type h.type_some) (
        all_bytes-both _ d.gap _ (some_blank_plain d.gap h.gap_some) (
          all_bytes-both _ d.name _ (word_plain d.name h.name_some)
            (all_bytes-both _ d.gap_mark _ (blank_plain d.gap_mark h.gap_mark_blank) mark_plain))))

search_annotation-print :
    (l : AnnotationLine)
    → IsAnnotation l
    → search_annotation (print_annotation l) ≡ some (l.widget, some (l.low, l.high))
search_annotation-print l h =
    search_annotation_lem l.gap l.gap_widget l.widget (bounds_part l) h.gap_blank h.gap_widget_blank
      h.widget_some refl l.before h.before_plain
    ∙ rw
        (match_bounds_lem l.low l.high l.gap_low l.gap_high l.after h.low_some h.high_some
          h.gap_low_blank h.gap_high_blank)
        refl

search_name-print :
    (d : DeclarationLine) → IsDeclaration d → search_name false (print_declaration d) ≡ some d.name
search_name-print d h = search_name_lem d.indent _ d.name h.indent_blank (
    match_name_lem d.type d.gap d.name d.gap_mark d.mark d.after h.type_some h.gap_some h.name_some
      h.gap_mark_blank h.marked)

module _ {F : Type 0} (fl : Floats F) where
  two_lines :
      (a d widget low high name : Str) (min max : F)
      → search_annotation a ≡ some (widget, some (low, high))
      → fl.stof low ≡ some min
      → fl.stof high ≡ some max
      → search_annotation d ≡ none
      → search_name false d ≡ some name
      → parse_glsl_annotations fl (some (a ∷ d ∷ []))
        ≡ some ((name, record { widget_type = widget; min_bound = min; max_bound = max }) ∷ [])
  unfolding parse_glsl_annotations parse_lines read_metadata assign_key
  two_lines a d widget low high name min max ea el eh ed en = ground (arith, ea, el, eh, ed, en)

  -- An annotation with bounds that are numbers, and a declaration in the next line, are read as the
  -- declared name with the annotation's widget and bounds, whatever blanks stand between the words
  -- and whatever stands before the comment, if it has no slash.
  pub parse_glsl_annotations-print :
      (l : AnnotationLine) (d : DeclarationLine) (low high : F)
      → IsAnnotation l
      → IsDeclaration d
      → fl.stof l.low ≡ some low
      → fl.stof l.high ≡ some high
      → parse_glsl_annotations fl (some (print_annotation l ∷ print_declaration d ∷ []))
        ≡ some ((d.name, record { widget_type = l.widget; min_bound = low; max_bound = high }) ∷ [])
  parse_glsl_annotations-print l d low high hl hd el eh =
      two_lines (print_annotation l) (print_declaration d) l.widget l.low l.high d.name low high
        (search_annotation-print l hl) el eh
        (search_annotation-none (print_declaration d) (print_declaration_plain d hd))
        (search_name-print d hd)
