-- ===== src/Network/Proxy/Port.antt =====
-- Numbers that std::stoi reads in modules/network/a_network_info.hpp.
use esp32_particulate_sensor.Prelude.{
  ℕ, ◌+◌, ◌-◌, ◌*◌, ◌^◌, ◌<◌, ◌≡◌, refl, ap, ◌∙◌, true, false, some, List, [], ◌∷◌, map, arith, leb,
  ◌==◌,
}
use esp32_particulate_sensor.Prelude.Strings.{Str}
use esp32_particulate_sensor.Network.Proxy.{is_digit, is_white, read_digits, signed, stoi}

abbrev pub AllDigits : List ℕ → Type 0
AllDigits [] = Unit {0}
AllDigits (d ∷ ds) = (d < 10) × AllDigits ds

-- The number of decimal digits, most significant first, after `n`.
abbrev pub value : ℕ → List ℕ → ℕ
value n [] = n
value n (d ∷ ds) = value (10 * n + d) ds

abbrev pub print_digits : List ℕ → Str
print_digits ds = map (λ d. d + 48) ds

digit : (d : ℕ) → d < 10 → (is_digit (d + 48) ≡ true) × (d + 48 - 48 ≡ d)
digit d h = (ground arith, omega arith)

read_more :
    (n : ℕ) (ds : List ℕ) → AllDigits ds → read_digits true n (print_digits ds) ≡ some (value n ds)
unfolding read_digits
read_more n [] h = refl
read_more n (d ∷ ds) h = rw ((digit d h.0).0) (rw ((digit d h.0).1) (read_more (10 * n + d) ds h.1))

read_first :
    (d : ℕ) (ds : List ℕ)
    → AllDigits (d ∷ ds)
    → read_digits false 0 (print_digits (d ∷ ds)) ≡ some (value 0 (d ∷ ds))
unfolding read_digits
read_first d ds h = rw ((digit d h.0).0) (rw ((digit d h.0).1) (read_more (10 * 0 + d) ds h.1))

-- A printed number that fits an int is read back.
pub stoi-print_digits :
    (d : ℕ) (ds : List ℕ)
    → AllDigits (d ∷ ds)
    → value 0 (d ∷ ds) < 2 ^ 31
    → stoi (print_digits (d ∷ ds)) ≡ some (false, value 0 (d ∷ ds))
unfolding stoi read_digits signed
stoi-print_digits d ds h room =
    let white : is_white (d + 48) ≡ false = ground arith in
    let minus : (d + 48 == 45) ≡ false = ground arith in
    let plus : (d + 48 == 43) ≡ false = ground arith in
    let fits : leb (value 0 (d ∷ ds)) (2 ^ 31 - 1) ≡ true = ground arith in
    rw white (rw minus (rw plus (ap (signed false) (read_first d ds h) ∙ rw (signed, fits) refl)))
