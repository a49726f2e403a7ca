-- ===== src/Reflector/Annotations.antt =====
-- `ParseGlslAnnotations` of tools/shader_reflector/shader_comment_parser.hpp. Its two regular
-- expressions leave no choice to the search: what follows each repetition cannot begin with a
-- character of it.
pub mod Lines
pub mod Pairs
pub mod RoundTrip
use esp32_particulate_sensor.Prelude.{
  ℕ, ◌≡◌, Bool, true, false, ◌&&◌, ◌||◌, not, List, [], ◌∷◌, Option, none, some, leb, ◌==◌,
  if◌then◌else◌, ◌>>=◌, check, ◌>>◌, drop,
}
use esp32_particulate_sensor.Prelude.Strings.{Str, codes, starts_with}
use esp32_particulate_sensor.Prelude.Maps.{assign_key, str_keys}

-- std::stof, whose `none` is an exception, the tests and the printing of floats.
pub record Floats (F : Type 0) : Type 0 where
  pub zero_float : F
  pub stof : Str → Option F
  pub eq_float : F → F → Bool
  pub print_fixed : F → Str

pub record PropertyUiMetadata (F : Type 0) : Type 0 where
  pub widget_type : Str
  pub min_bound : F
  pub max_bound : F

-- `\w`
abbrev pub is_word : ℕ → Bool
is_word c = leb 48 c && leb c 57 || leb 65 c && leb c 90 || c == 95 || leb 97 c && leb c 122

-- `\s`
abbrev pub is_space : ℕ → Bool
is_space c = leb 9 c && leb c 13 || c == 32

-- `[0-9.-]`
abbrev pub is_bound : ℕ → Bool
is_bound c = leb 48 c && leb c 57 || leb 45 c && leb c 46

-- What a greedy repetition takes, and what is left.
abbrev pub take_while : (ℕ → Bool) → Str → Str
take_while f [] = []
take_while f (c ∷ s) = if f c then c ∷ take_while f s else []

abbrev pub drop_while : (ℕ → Bool) → Str → Str
drop_while f [] = []
drop_while f (c ∷ s) = if f c then drop_while f s else c ∷ s

-- A repetition of one or more.
abbrev pub some_of : (ℕ → Bool) → Str → Option (Str × Str)
some_of f s = elim (take_while f s) [ [] ↦ none | c ∷ w ↦ some (c ∷ w, drop_while f s) ]

abbrev pub expect : ℕ → Str → Option Str
expect c [] = none
expect c (b ∷ s) = if b == c then some s else none

abbrev pub expect_word : Str → Str → Option Str
expect_word [] s = some s
expect_word (c ∷ w) s = expect c s >>= expect_word w

-- `\(([0-9.-]+)\s*,\s*([0-9.-]+)\)`
unfoldable pub match_bounds : Str → Option (Str × Str)
match_bounds s = do
  opened ← expect 40 s
  (low, r) ← some_of is_bound opened
  comma ← expect 44 (drop_while is_space r)
  (high, t) ← some_of is_bound (drop_while is_space comma)
  closed ← expect 41 t
  some (low, high)

-- `editorRegex` at the start of a text: the widget, and the bounds if they are there.
unfoldable pub match_annotation : Str → Option (Str × Option (Str × Str))
unfolding match_bounds
match_annotation s = do
  comment ← expect_word (codes "//") s
  tagged ← expect_word (codes "@Editor:") (drop_while is_space comment)
  (widget, r) ← some_of is_word (drop_while is_space tagged)
  some (widget, match_bounds r)

-- `std::regex_search` with it: the leftmost match.
unfoldable pub search_annotation : Str → Option (Str × Option (Str × Str))
search_annotation [] = none
search_annotation (c ∷ s) = elim (match_annotation (c ∷ s)) [
  | none ↦ search_annotation s
  | some a ↦ some a
]

abbrev pub before_mark : Str → Str → Option Str
before_mark name [] = none
before_mark name (c ∷ s) = if c == 59 || c == 91 then some name else none

-- `nameRegex` at the start of a word: a type, a name, and a semicolon or a bracket.
unfoldable pub match_name : Str → Option Str
match_name s = do
  (type, r) ← some_of is_word s
  (gap, t) ← some_of is_space r
  (name, u) ← some_of is_word t
  before_mark name (drop_while is_space u)

-- The leftmost match; `inside` tells that the byte before is one of a word.
unfoldable pub search_name : Bool → Str → Option Str
search_name inside [] = none
search_name inside (c ∷ s) =
    let rest = search_name (is_word c) s in
    if inside then rest else elim (match_name (c ∷ s)) [ none ↦ rest | some name ↦ some name ]

module _ {F : Type 0} (fl : Floats F) where
  open fl use {zero_float, stof}

  -- The metadata of a match; `none` where a bound is no number.
  unfoldable pub read_metadata : Str × Option (Str × Str) → Option (PropertyUiMetadata F)
  read_metadata (widget, none) =
      some (record { widget_type = widget; min_bound = zero_float; max_bound = zero_float })
  read_metadata (widget, some (low, high)) = do
    min ← stof low
    max ← stof high
    some (record { widget_type = widget; min_bound = min; max_bound = max })

  -- The loop over the lines; `none` is the exception of std::stof, which nothing catches.
  unfoldable pub parse_lines :
      List Str
      → List (Str × PropertyUiMetadata F)
      → PropertyUiMetadata F
      → Bool
      → Option (List (Str × PropertyUiMetadata F))
  unfolding read_metadata
  parse_lines [] metadata_map pending has_pending = some metadata_map
  parse_lines (line ∷ lines) metadata_map pending has_pending = elim (search_annotation line) [
    | some found ↦ elim (read_metadata found) [
      | none ↦ none
      | some metadata ↦ parse_lines lines metadata_map metadata true
    ]
    | none ↦
        parse_lines lines
          (if has_pending
            then elim (search_name false line) [
              | none ↦ metadata_map
              | some name ↦ assign_key str_keys name pending metadata_map
            ]
            else metadata_map)
          pending false
  ]

  -- The file's lines, or `none` where it does not open.
  unfoldable pub parse_glsl_annotations :
      Option (List Str) → Option (List (Str × PropertyUiMetadata F))
  parse_glsl_annotations none = some []
  parse_glsl_annotations (some lines) =
      parse_lines lines []
        (record { widget_type = codes "Drag"; min_bound = zero_float; max_bound = zero_float })
        false
