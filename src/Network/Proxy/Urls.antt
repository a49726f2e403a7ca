-- ===== src/Network/Proxy/Urls.antt =====
-- Proxy URLs that `getProxySettings` of modules/network/a_network_info.hpp reads.
use esp32_particulate_sensor.Prelude.{
  ◌||◌, none, take, if◌then◌else◌, ℕ, suc, ◌+◌, ◌-◌, ◌<◌, ◌≤◌, ◌≡◌, refl, ap, ◌∙◌, true, false, not,
  Option, some, List, [], ◌∷◌, ◌++◌, arith, ltb, ◌==◌, Option-cases, inl, inr, drop, back,
  back-push, pop_back-push, take-append, length,
}
use esp32_particulate_sensor.Prelude.Strings.{
  Str, all_bytes-append, all_bytes_at, find_first-append,
}
use esp32_particulate_sensor.Network.Proxy.{
  stoi, is_nil, ProxySettings, split_host_port, find_str, check_port, scheme_mark, after_scheme,
  is_slash, without_slash, parse_proxy, get_proxy_settings, find_first,
}
use esp32_particulate_sensor.Network.Proxy.Port.{AllDigits, value, print_digits, stoi-print_digits}
use esp32_particulate_sensor.Network.Proxy.Settings.{lacks_byte}

find_str-mark :
    (scheme rest : Str)
    → lacks_byte 58 scheme ≡ true
    → find_str scheme_mark (scheme ++ (scheme_mark ++ rest)) ≡ some (length scheme)
unfolding find_str
find_str-mark [] rest h = refl
find_str-mark (b ∷ scheme) rest h =
    let other : (58 == b) ≡ false = ground arith in
    let later : lacks_byte 58 scheme ≡ true = ground arith in
    rw other (rw (find_str-mark scheme rest later) (ap some (omega arith)))

drop_mark : (scheme rest : Str) → drop (length scheme + 3) (scheme ++ (scheme_mark ++ rest)) ≡ rest
drop_mark scheme rest =
    ap (λ n. drop n (scheme ++ (scheme_mark ++ rest))) {x = length scheme + 3}
      {y = suc (suc (suc (length scheme)))} (omega arith)
    ∙ go scheme
  where
    go : (s : Str) → drop (suc (suc (suc (length s)))) (s ++ (scheme_mark ++ rest)) ≡ rest
    go [] = refl
    go (b ∷ s) = go s

after_scheme_lem :
    (scheme rest : Str)
    → lacks_byte 58 scheme ≡ true
    → after_scheme (scheme ++ (scheme_mark ++ rest)) ≡ rest
after_scheme_lem scheme rest h =
    rw (after_scheme, find_str-mark scheme rest h) (drop_mark scheme rest)

no_slash : (s : Str) → lacks_byte 47 s ≡ true → is_slash (back s) ≡ false
no_slash s h = elim (Option-cases (back s)) [
  | inl none' ↦ rw none' refl
  | inr (b, at) ↦
      let other : not (b == 47) ≡ true =
        all_bytes_at (λ c. not (c == 47)) s (length s - 1) b h at in
      rw at (ground arith)
]

digits_lack : (ds : List ℕ) → AllDigits ds → lacks_byte 47 (print_digits ds) ≡ true
digits_lack [] h = refl
digits_lack (d ∷ ds) h =
    let other : (d + 48 == 47) ≡ false = ground arith in rw other (digits_lack ds h.1)

drop_colon : (host rest : Str) → drop (length host + 1) (host ++ 58 ∷ rest) ≡ rest
drop_colon host rest =
    ap (λ n. drop n (host ++ 58 ∷ rest)) {x = length host + 1} {y = suc (length host)} (omega arith)
    ∙ go host
  where
    go : (s : Str) → drop (suc (length s)) (s ++ 58 ∷ rest) ≡ rest
    go [] = refl
    go (b ∷ s) = go s

split_found :
    (s host port_str : Str) (colon : ℕ)
    → find_first (λ c. c == 58) s ≡ some colon
    → take colon s ≡ host
    → drop (colon + 1) s ≡ port_str
    → split_host_port s
      ≡ (if is_nil host || is_nil port_str then none else check_port host (stoi port_str))
unfolding split_host_port
split_found s host port_str colon found before after =
    rw (split_host_port, found)
      (ap
          (λ x.
            if is_nil x || is_nil (drop (colon + 1) s)
            then none
            else check_port x (stoi (drop (colon + 1) s)))
          before
        ∙ ap (λ x. if is_nil host || is_nil x then none else check_port host (stoi x)) after)

get_of_url :
    (http : Option Str) (scheme rest : Str)
    → get_proxy_settings (some (scheme ++ (scheme_mark ++ rest))) http
      ≡ split_host_port (without_slash (after_scheme (scheme ++ (scheme_mark ++ rest))))
unfolding get_proxy_settings parse_proxy
get_of_url http [] rest = refl
get_of_url http (x ∷ xs) rest = refl

module _ (scheme : Str) (b : ℕ) (bs : Str) (d : ℕ) (ds : List ℕ) where
  abbrev pub host_port : Str
  host_port = (b ∷ bs) ++ 58 ∷ print_digits (d ∷ ds)

  without_slash_lem :
      lacks_byte 47 (b ∷ bs) ≡ true
      → AllDigits (d ∷ ds)
      → (without_slash host_port ≡ host_port) × (without_slash (host_port ++ 47 ∷ []) ≡ host_port)
  without_slash_lem clean digits = (
    rw (without_slash, no_slash host_port whole) refl,
    rw (without_slash, back-push host_port 47) (pop_back-push host_port 47),
  )
    where
      whole : lacks_byte 47 host_port ≡ true
      whole =
          all_bytes-append (λ c. not (c == 47)) (b ∷ bs) (58 ∷ print_digits (d ∷ ds))
          ∙ rw (clean) (digits_lack (d ∷ ds) digits)

  split_host_port_lem :
      lacks_byte 58 (b ∷ bs) ≡ true
      → AllDigits (d ∷ ds)
      → 0 < value 0 (d ∷ ds)
      → value 0 (d ∷ ds) ≤ 65535
      → split_host_port host_port ≡ some (record { host = b ∷ bs; port = value 0 (d ∷ ds) })
  unfolding split_host_port check_port
  split_host_port_lem clean digits low high =
      let positive : (value 0 (d ∷ ds) == 0) ≡ false = ground arith in
      let bounded : ltb 65535 (value 0 (d ∷ ds)) ≡ false = ground arith in
      split_found host_port (b ∷ bs) (print_digits (d ∷ ds)) (length (b ∷ bs))
        (find_first-append (λ c. c == 58) (b ∷ bs) 58 (print_digits (d ∷ ds)) clean refl)
        (take-append (b ∷ bs) (58 ∷ print_digits (d ∷ ds)))
        (drop_colon (b ∷ bs) (print_digits (d ∷ ds)))
      ∙ ap (check_port (b ∷ bs)) (stoi-print_digits d ds digits (omega arith))
      ∙ rw (positive, bounded) refl

  -- A URL of a scheme, a host without colon and slash, and a port from 1 to 65535 in decimal digits,
  -- with a slash at the end or without, gives that host and that port.
  pub get_proxy_settings_lem :
      (http : Option Str)
      → lacks_byte 58 scheme ≡ true
      → lacks_byte 58 (b ∷ bs) ≡ true
      → lacks_byte 47 (b ∷ bs) ≡ true
      → AllDigits (d ∷ ds)
      → 0 < value 0 (d ∷ ds)
      → value 0 (d ∷ ds) ≤ 65535
      → let p : ProxySettings = record { host = b ∷ bs; port = value 0 (d ∷ ds) } in
        (get_proxy_settings (some (scheme ++ (scheme_mark ++ host_port))) http ≡ some p)
        × (get_proxy_settings (some (scheme ++ (scheme_mark ++ (host_port ++ 47 ∷ [])))) http
            ≡ some p)
  unfolding get_proxy_settings
  get_proxy_settings_lem http a c s digits low high =
      let trimmed = without_slash_lem s digits in
      let split = split_host_port_lem c digits low high in
      (
        get_of_url http scheme host_port
            ∙ ap split_host_port
                (ap without_slash (after_scheme_lem scheme host_port a) ∙ trimmed.0)
            ∙ split,
        get_of_url http scheme (host_port ++ 47 ∷ [])
            ∙ ap split_host_port
                (ap without_slash (after_scheme_lem scheme (host_port ++ 47 ∷ []) a) ∙ trimmed.1)
            ∙ split,
      )
