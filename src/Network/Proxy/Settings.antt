-- ===== src/Network/Proxy/Settings.antt =====
-- What `getProxySettings` of modules/network/a_network_info.hpp accepts.
use mathlib.Core.Path.{subst}
use mathlib.Core.Option.{some-injective}
use esp32_particulate_sensor.Prelude.{
  ℕ, ◌+◌, ◌<◌, ◌≤◌, ◌≡◌, refl, sym, Bool, true, false, not, Option, some, none, arith,
  if◌then◌else◌, ltb, ◌==◌, ◌&&◌, ◌||◌, Bool-cases, Option-cases, inl, inr, lt→ltb, drop, take,
}
use esp32_particulate_sensor.Prelude.Strings.{Str, all_bytes, all_bytes-take, find_first}
use esp32_particulate_sensor.Network.Proxy.{
  ProxySettings, split_host_port, stoi, check_port, is_nil, after_scheme, without_slash,
  parse_proxy, is_unset, get_proxy_settings, has_proxysettings,
}

abbrev pub lacks_byte : ℕ → Str → Bool
lacks_byte b s = all_bytes (λ c. not (c == b)) s

-- A host, and a port that TCP knows.
abbrev pub IsUsable : ProxySettings → Type 0
IsUsable p =
    (is_nil p.host ≡ false) × (lacks_byte 58 p.host ≡ true) × (0 < p.port) × (p.port ≤ 65535)

check_port_lem :
    (host : Str) (n : Option (Bool × ℕ)) (p : ProxySettings)
    → check_port host n ≡ some p
    → (p.host ≡ host) × (0 < p.port) × (p.port ≤ 65535)
unfolding check_port
check_port_lem host none p h = cc
check_port_lem host (some (negative, n)) p h =
    elim (Bool-cases (negative || n == 0 || ltb 65535 n)) [
      | inl out ↦ let bad : none ≡ some p = rw out at h in cc bad
      | inr good ↦
          let e : some (record { host = host; port = n }) ≡ some p = rw good at h in
          let same = some-injective (record { host = host; port = n }) p e in
          subst (λ q. (q.host ≡ host) × (0 < q.port) × (q.port ≤ 65535)) same
            (refl, nonzero negative n good, bounded negative n good)
    ]
  where
    nonzero : (b : Bool) (k : ℕ) → (b || k == 0 || ltb 65535 k) ≡ false → 0 < k
    nonzero b k q = ground arith

    bounded : (b : Bool) (k : ℕ) → (b || k == 0 || ltb 65535 k) ≡ false → k ≤ 65535
    bounded b k q = ground arith

split_host_port-IsUsable : (s : Str) (p : ProxySettings) → split_host_port s ≡ some p → IsUsable p
unfolding split_host_port
split_host_port-IsUsable s p h = elim (Option-cases (find_first (λ c. c == 58) s)) [
  | inl out ↦ let bad : none ≡ some p = rw (out, split_host_port) at h in cc bad
  | inr (colon, at) ↦ elim (Bool-cases (is_nil (take colon s) || is_nil (drop (colon + 1) s))) [
    | inl empty ↦ let bad : none ≡ some p = rw (at, split_host_port, empty) at h in cc bad
    | inr full ↦
        let checked =
          check_port_lem (take colon s) (stoi (drop (colon + 1) s)) p
            (rw (at, split_host_port, full) at h) in
        let named : is_nil (take colon s) ≡ false = ground arith in
        (
          subst (λ x. is_nil x ≡ false) (sym checked.0) named,
          subst (λ x. lacks_byte 58 x ≡ true) (sym checked.0)
              (all_bytes-take (λ c. c == 58) s colon at),
          checked.1,
          checked.2,
        )
  ]
]

-- Settings that `getProxySettings` returns have a host, without a colon, and a port between 1 and
-- 65535, whatever the environment holds, and `hasProxysettings` accepts them.
pub get_proxy_settings-IsUsable :
    (https http : Option Str) (p : ProxySettings)
    → get_proxy_settings https http ≡ some p
    → IsUsable p × (has_proxysettings (some p) ≡ true)
unfolding get_proxy_settings has_proxysettings parse_proxy
get_proxy_settings-IsUsable https http p h =
    elim (Option-cases (if is_unset https then http else https)) [
      | inl out ↦ let bad : none ≡ some p = rw (out, get_proxy_settings) at h in cc bad
      | inr (env, at) ↦ elim (Bool-cases (is_nil env)) [
        | inl empty ↦ let bad : none ≡ some p = rw (at, get_proxy_settings, empty) at h in cc bad
        | inr full ↦
            let usable =
              split_host_port-IsUsable (without_slash (after_scheme env)) p
                (rw (at, get_proxy_settings, full) at h) in
            (usable, accepted usable)
      ]
    ]
  where
    accepted : IsUsable p → (not (is_nil p.host) && ltb 0 p.port) ≡ true
    accepted usable = rw (usable.0) (lt→ltb 0 p.port usable.2)
