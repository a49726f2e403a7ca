-- ===== src/Network/Proxy.antt =====
-- `NetworkInfo` of modules/network/a_network_info.hpp. The environment variables are arguments, `none`
-- for one that is not set.
pub mod Port
pub mod Settings
pub mod Urls
pub mod Tests
use esp32_particulate_sensor.Prelude.{
  ℕ, ◌+◌, ◌-◌, ◌*◌, ◌^◌, Bool, true, false, not, ◌&&◌, ◌||◌, Option, none, some, List, [], ◌∷◌,
  ◌==◌, ltb, leb, if◌then◌else◌, ◌>>=◌, drop, take, back, pop_back,
}
use esp32_particulate_sensor.Prelude.Strings.{Str, find_first, starts_with}

pub record ProxySettings : Type 0 where
  pub host : Str
  pub port : ℕ

-- `s.find(key)`
unfoldable pub find_str : Str → Str → Option ℕ
find_str key [] = if starts_with key [] then some 0 else none
find_str key (b ∷ bs) =
    if starts_with key (b ∷ bs) then some 0 else (find_str key bs >>= λ i. some (i + 1))

abbrev pub is_digit : ℕ → Bool
is_digit c = leb 48 c && leb c 57

abbrev pub is_white : ℕ → Bool
is_white c = c == 32 || leb 9 c && leb c 13

-- The digits at the start of a text, as a number: `read` says whether one was read before.
unfoldable pub read_digits : Bool → ℕ → Str → Option ℕ
read_digits read n [] = if read then some n else none
read_digits read n (c ∷ cs) =
    let more = read_digits true (10 * n + (c - 48)) cs in
    if is_digit c then more else if read then some n else none

-- After white space and sign: the number's sign, true for minus, and its magnitude. Out of the range
-- of an int is an exception.
unfoldable pub signed : Bool → Option ℕ → Option (Bool × ℕ)
signed negative none = none
signed negative (some n) =
    if leb n (if negative then 2 ^ 31 else 2 ^ 31 - 1) then some (negative, n) else none

-- `std::stoi`; `none` is its exception.
unfoldable pub stoi : Str → Option (Bool × ℕ)
unfolding read_digits signed
stoi [] = none
stoi (c ∷ cs) =
    let rest = stoi cs in
    if is_white c
    then rest
    else if c == 45
    then signed true (read_digits false 0 cs)
    else if c == 43
    then signed false (read_digits false 0 cs)
    else signed false (read_digits false 0 (c ∷ cs))

-- What the code does with the number of the port.
unfoldable pub check_port : Str → Option (Bool × ℕ) → Option ProxySettings
check_port host none = none
check_port host (some (negative, n)) =
    if negative || n == 0 || ltb 65535 n then none else some (record { host = host; port = n })

abbrev pub is_nil : Str → Bool
is_nil [] = true
is_nil (b ∷ bs) = false

-- "://"
abbrev pub scheme_mark : Str
scheme_mark = 58 ∷ 47 ∷ 47 ∷ []

abbrev pub after_scheme : Str → Str
after_scheme url = elim (find_str scheme_mark url) [ none ↦ url | some i ↦ drop (i + 3) url ]

abbrev pub is_slash : Option ℕ → Bool
is_slash none = false
is_slash (some b) = b == 47

abbrev pub without_slash : Str → Str
without_slash s = if is_slash (back s) then pop_back s else s

-- The part from the search for the colon on.
unfoldable pub split_host_port : Str → Option ProxySettings
unfolding stoi check_port
split_host_port host_port = elim (find_first (λ c. c == 58) host_port) [
  | none ↦ none
  | some colon ↦
      let host = take colon host_port in
      let port_str = drop (colon + 1) host_port in
      if is_nil host || is_nil port_str then none else check_port host (stoi port_str)
]

unfoldable pub parse_proxy : Str → Option ProxySettings
unfolding split_host_port
parse_proxy url = split_host_port (without_slash (after_scheme url))

-- `!proxyEnv || proxyEnv[0] == '\0'`
abbrev pub is_unset : Option Str → Bool
is_unset none = true
is_unset (some s) = is_nil s

unfoldable pub get_proxy_settings : Option Str → Option Str → Option ProxySettings
unfolding parse_proxy
get_proxy_settings https http =
    (if is_unset https then http else https) >>= λ env. if is_nil env then none else parse_proxy env

unfoldable pub has_proxysettings : Option ProxySettings → Bool
has_proxysettings none = false
has_proxysettings (some p) = not (is_nil p.host) && ltb 0 p.port
