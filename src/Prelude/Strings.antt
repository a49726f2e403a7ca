-- ===== src/Prelude/Strings.antt =====
-- std::string and std::string_view as lists of bytes, with the searches that the sources use.
use Prim.Native.Char.{code}
use Prim.Native.String.{String}
use Prim.Native.Nat.{zero, suc, ℕ, ◌+◌, ◌-◌, ◌*◌, ◌/◌, ◌%◌, ◌^◌, ◌<◌}
use mathlib.Core.Path.{◌∙◌, subst, ◌≡◌, refl}
use mathlib.Core.Logic.{inl, inr}
use mathlib.Core.List.{List, [], ◌∷◌, ◌++◌}
use mathlib.Core.Option.{some-injective, Option, none, some}
use mathlib.Core.Bool.{Bool, true, false, not, ◌&&◌, ◌||◌}
use native.Mathlib.Omega.{arith}
use esp32_particulate_sensor.Prelude.Tests.{ltb, Option-cases, leb, ◌==◌, if◌then◌else◌, Bool-cases}
use esp32_particulate_sensor.Prelude.Lists.{get_elem?, length, take, drop}

abbrev pub Str : Type 0
Str = List ℕ

-- The bytes of a literal of the sources.
abbrev pub codes : String → Str
codes String.[] = []
codes (String.◌∷◌ c s) = code c ∷ codes s

abbrev pub eq_str : Str → Str → Bool
eq_str [] [] = true
eq_str [] (b ∷ bs) = false
eq_str (a ∷ as') [] = false
eq_str (a ∷ as') (b ∷ bs) = a == b && eq_str as' bs

abbrev pub all_bytes : (ℕ → Bool) → Str → Bool
all_bytes f [] = true
all_bytes f (b ∷ bs) = f b && all_bytes f bs

-- `find_first_of`, for a set of bytes given by its test.
unfoldable pub find_first : (ℕ → Bool) → Str → Option ℕ
find_first f [] = none
find_first f (b ∷ bs) =
    if f b then some 0 else elim (find_first f bs) [ none ↦ none | some i ↦ some (suc i) ]

-- `find_last_of`.
unfoldable pub find_last : (ℕ → Bool) → Str → Option ℕ
find_last f [] = none
find_last f (b ∷ bs) = elim (find_last f bs) [
  | none ↦ if f b then some 0 else none
  | some i ↦ some (suc i)
]

-- `s.substr(pos, n)`, and `s.substr(pos)` below, for `pos` up to the size.
abbrev pub substr : Str → ℕ → ℕ → Str
substr s pos n = take n (drop pos s)

abbrev pub contains_str : List Str → Str → Bool
contains_str [] s = false
contains_str (x ∷ xs) s = eq_str x s || contains_str xs s

-- `std::tolower` and `std::toupper` in the C locale.
abbrev pub to_lower : ℕ → ℕ
to_lower c = if leb 65 c && leb c 90 then c + 32 else c

abbrev pub to_upper : ℕ → ℕ
to_upper c = if leb 97 c && leb c 122 then c - 32 else c

-- `s.find(key) != npos`
abbrev pub starts_with : Str → Str → Bool
starts_with [] s = true
starts_with (k ∷ ks) [] = false
starts_with (k ∷ ks) (b ∷ bs) = k == b && starts_with ks bs

abbrev pub contains_sub : Str → Str → Bool
contains_sub key [] = starts_with key []
contains_sub key (b ∷ bs) = starts_with key (b ∷ bs) || contains_sub key bs

pub starts_with-append : (key s : Str) → starts_with key (key ++ s) ≡ true
starts_with-append [] s = refl
starts_with-append (k ∷ ks) s = ground (arith, starts_with-append ks s)

pub contains_sub_middle : (key pre post : Str) → contains_sub key (pre ++ (key ++ post)) ≡ true
contains_sub_middle [] [] [] = refl
contains_sub_middle [] [] (b ∷ bs) = refl
contains_sub_middle (k ∷ ks) [] post = ground (arith, starts_with-append (k ∷ ks) post)
contains_sub_middle key (b ∷ bs) post = ground (arith, contains_sub_middle key bs post)

pub find_last-none :
    (f : ℕ → Bool) (s : Str) → all_bytes (λ c. not (f c)) s ≡ true → find_last f s ≡ none
unfolding find_last
find_last-none f [] h = refl
find_last-none f (c ∷ s) h =
    let others : all_bytes (λ x. not (f x)) s ≡ true = ground arith in
    let out : f c ≡ false = ground arith in rw (find_last-none f s others) (rw out refl)

pub find_last-append :
    (f : ℕ → Bool) (s : Str) (b : ℕ) (t : Str)
    → all_bytes (λ c. not (f c)) t ≡ true
    → f b ≡ true
    → find_last f (s ++ b ∷ t) ≡ some (length s)
unfolding find_last
find_last-append f [] b t h hit = rw (find_last-none f t h) (rw hit refl)
find_last-append f (c ∷ s) b t h hit = rw (find_last-append f s b t h hit) refl

pub eq_str_self : (s : Str) → eq_str s s ≡ true
eq_str_self [] = refl
eq_str_self (b ∷ bs) = ground (arith, eq_str_self bs)

pub eq_of_eq_str : (s t : Str) → eq_str s t ≡ true → s ≡ t
eq_of_eq_str [] [] h = refl
eq_of_eq_str [] (b ∷ bs) h = ground arith
eq_of_eq_str (a ∷ as') [] h = ground arith
eq_of_eq_str (a ∷ as') (b ∷ bs) h = ground (arith, eq_of_eq_str as' bs)

pub find_first-append :
    (f : ℕ → Bool) (s : Str) (b : ℕ) (t : Str)
    → all_bytes (λ c. not (f c)) s ≡ true
    → f b ≡ true
    → find_first f (s ++ b ∷ t) ≡ some (length s)
unfolding find_first
find_first-append f [] b t h hit = ground arith
find_first-append f (c ∷ s) b t h hit = ground (arith, find_first-append f s b t)

pub find_first-none :
    (f : ℕ → Bool) (s : Str) → all_bytes (λ c. not (f c)) s ≡ true → find_first f s ≡ none
unfolding find_first
find_first-none f [] h = refl
find_first-none f (c ∷ s) h = ground (arith, find_first-none f s)

pub find_last_all :
    (f : ℕ → Bool) (b : ℕ) (s : Str)
    → all_bytes f (b ∷ s) ≡ true
    → find_last f (b ∷ s) ≡ some (length s)
unfolding find_last
find_last_all f b [] h = ground arith
find_last_all f b (c ∷ s) h = ground (arith, find_last_all f c s)

pub all_bytes-append :
    (f : ℕ → Bool) (s t : Str) → all_bytes f (s ++ t) ≡ (all_bytes f s && all_bytes f t)
all_bytes-append f [] t = refl
all_bytes-append f (b ∷ s) t = ground (arith, all_bytes-append f s t)

pub all_bytes_at :
    (f : ℕ → Bool) (s : Str) (i b : ℕ) → all_bytes f s ≡ true → get_elem? s i ≡ some b → f b ≡ true
all_bytes_at f [] i b h at = cc
all_bytes_at f (c ∷ s) zero b h at = ground arith
all_bytes_at f (c ∷ s) (suc i) b h at = all_bytes_at f s i b (ground arith) at

-- What stands before the first byte found holds none.
pub all_bytes-take :
    (f : ℕ → Bool) (s : Str) (i : ℕ)
    → find_first f s ≡ some i
    → all_bytes (λ c. not (f c)) (take i s) ≡ true
unfolding find_first
all_bytes-take f [] i h = cc
all_bytes-take f (b ∷ s) i h = elim (Bool-cases (f b)) [
  | inl hit ↦
      let e : some 0 ≡ some i = rw hit at h in
      subst (λ k. all_bytes (λ c. not (f c)) (take k (b ∷ s)) ≡ true) (some-injective 0 i e) refl
  | inr miss ↦ elim (Option-cases (find_first f s)) [
    | inl out ↦ let bad : none ≡ some i = rw (miss, out) at h in cc bad
    | inr (j, at) ↦
        let e : some (suc j) ≡ some i = rw (miss, at) at h in
        subst (λ k. all_bytes (λ c. not (f c)) (take k (b ∷ s)) ≡ true) (some-injective (suc j) i e)
          (rw miss (all_bytes-take f s j at))
  ]
]

-- The decimal digits of a number of at most `fuel` digits.
unfoldable pub decimal_digits : ℕ → ℕ → Str
decimal_digits zero n = []
decimal_digits (suc fuel) n =
    let rest = decimal_digits fuel (n / 10) in
    if ltb n 10 then (n + 48) ∷ [] else rest ++ ((n % 10 + 48) ∷ [])

-- `std::to_string` and the output of a u32, which has at most ten digits.
unfoldable pub decimal : ℕ → Str
unfolding decimal_digits
decimal n = decimal_digits 10 n

abbrev pub digits_value : ℕ → Str → ℕ
digits_value n [] = n
digits_value n (c ∷ s) = digits_value (10 * n + (c - 48)) s

digits_value-append :
    (n : ℕ) (s : Str) (c : ℕ) → digits_value n (s ++ c ∷ []) ≡ 10 * digits_value n s + (c - 48)
digits_value-append n [] c = refl
digits_value-append n (b ∷ s) c = digits_value-append (10 * n + (b - 48)) s c

pow_step : (n : ℕ) → 10 ^ suc n ≡ 10 * 10 ^ n
pow_step n = omega arith

digits_value-decimal_digits :
    (fuel n : ℕ) → n < 10 ^ fuel → digits_value 0 (decimal_digits fuel n) ≡ n
unfolding decimal_digits
digits_value-decimal_digits zero n h = omega arith
digits_value-decimal_digits (suc fuel) n h = elim (Bool-cases (ltb n 10)) [
  | inl small ↦ rw small (omega arith)
  | inr large ↦
      let less : n / 10 < 10 ^ fuel = omega (arith, pow_step fuel) in
      rw large (
        digits_value-append 0 (decimal_digits fuel (n / 10)) (n % 10 + 48)
        ∙ omega (arith, digits_value-decimal_digits fuel (n / 10) less))
]

-- Ten digits are enough: the printed number is the one that went in.
pub digits_value-decimal : (n : ℕ) → n < 2 ^ 32 → digits_value 0 (decimal n) ≡ n
unfolding decimal
digits_value-decimal n h = digits_value-decimal_digits 10 n (omega arith)

-- What a C function reads of a string: the bytes before the first NUL.
abbrev pub c_str : Str → Str
c_str [] = []
c_str (b ∷ bs) = if b == 0 then [] else b ∷ c_str bs
