-- ===== src/Network/Proxy/Tests.antt =====
-- Runs of modules/network/a_network_info.hpp, and the theorems at small inputs.
use esp32_particulate_sensor.Prelude.{◌≡◌, refl, some, none, [], ◌∷◌, ◌++◌, arith}
use esp32_particulate_sensor.Prelude.Strings.{Str}
use esp32_particulate_sensor.Network.Proxy.{ProxySettings, scheme_mark, get_proxy_settings}
use esp32_particulate_sensor.Network.Proxy.Urls.{host_port, get_proxy_settings_lem}

-- "http"
abbrev scheme : Str
scheme = 104 ∷ 116 ∷ 116 ∷ 112 ∷ []

-- "px" and 80
abbrev settings : ProxySettings
settings = record { host = 112 ∷ 120 ∷ []; port = 80 }

get_proxy_settings_lem_example :
    (get_proxy_settings
        (some (scheme ++ (scheme_mark ++ host_port scheme 112 (120 ∷ []) 8 (0 ∷ []))))
        none
      ≡ some settings)
    × (get_proxy_settings
          (some
            (scheme ++ (scheme_mark ++ (host_port scheme 112 (120 ∷ []) 8 (0 ∷ []) ++ 47 ∷ []))))
          none
        ≡ some settings)
get_proxy_settings_lem_example =
    get_proxy_settings_lem scheme 112 (120 ∷ []) 8 (0 ∷ []) none refl refl refl
      (omega arith, (omega arith, tt)) (omega arith) (omega arith)

-- "px:80"
abbrev plain : Str
plain = 112 ∷ 120 ∷ 58 ∷ 56 ∷ 48 ∷ []
