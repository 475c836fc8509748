-- ===== src/Mqtt/Broker.antt =====
-- The part of `MqttService::startConnect` that picks the broker profile and builds its URI.
pub mod Choice
pub mod Uri
use io_tsmart_sys_core.Base.{
  ℕ, zero, suc, ◌+◌, ◌/◌, ◌%◌, Bool, true, false, not, ◌&&◌, List, [], ◌∷◌, ◌++◌, Text, codes,
  text_eq, leb, ltb, ◌==◌, if◌then◌else◌,
}
use io_tsmart_sys_core.Base.Int.{ℤ, pos, negsuc}
use io_tsmart_sys_core.Settings.Mqtt.{MqttConfig, MqttSettings, config_is_valid}

-- The names "primary", "secondary" and "tertiary", which are all that the code puts in
-- `_activeProfileName`, `selectedProfileName` and `targetProfileName`.
pub data Profile : Type 0 where
  primary secondary tertiary : Profile

unfoldable pub profile_eq : Profile → Profile → Bool
profile_eq primary primary = true
profile_eq secondary secondary = true
profile_eq tertiary tertiary = true
profile_eq _ _ = false

unfoldable pub select_profile : MqttSettings → Profile
select_profile s =
    if text_eq s.profile (codes "tertiary") && config_is_valid s.tertiary
    then tertiary
    else if text_eq s.profile (codes "secondary") && config_is_valid s.secondary
    then secondary
    else primary

unfoldable pub resolve_profile : MqttSettings → Profile → MqttConfig
resolve_profile s tertiary = s.tertiary
resolve_profile s secondary = s.secondary
resolve_profile s primary = s.primary

abbrev pub broker_fallback_attempt_threshold : ℕ
broker_fallback_attempt_threshold = 3

fallback_for : MqttSettings → Profile → Profile
fallback_for s selected =
    if not (profile_eq selected primary) && config_is_valid s.primary
    then primary
    else if not (profile_eq selected secondary) && config_is_valid s.secondary
    then secondary
    else if not (profile_eq selected tertiary) && config_is_valid s.tertiary
    then tertiary
    else selected

-- `targetProfileName`, after `attempt` failures.
unfoldable pub target_profile : MqttSettings → ℕ → Profile
unfolding fallback_for
target_profile s attempt =
    let selected = select_profile s in
    if leb broker_fallback_attempt_threshold attempt then fallback_for s selected else selected

-- Host and path, split at the first `/`, which stays with the path.
unfoldable pub split_host : Text → Text × Text
split_host [] = ([], [])
split_host (c ∷ cs) =
    let (host, path) = split_host cs in if c == b'/' then ([], c ∷ cs) else (c ∷ host, path)

-- `std::to_string` of a number below 10^10, the most significant digit first.
unfoldable pub decimal_onto : ℕ → ℕ → Text → Text
decimal_onto zero n out = out
decimal_onto (suc fuel) n out =
    let digit = n % 10 + b'0' in
    let more = decimal_onto fuel (n / 10) (digit ∷ out) in if ltb n 10 then digit ∷ out else more

abbrev pub to_string : ℕ → Text
to_string n = decimal_onto 10 n []

-- `(port > 0) ? port : 1883`
unfoldable pub port_or_default : ℤ → ℕ
port_or_default (pos n) = if ltb 0 n then n else 1883
port_or_default (negsuc n) = 1883

unfoldable pub or_mqtt : Text → Text
or_mqtt [] = codes "mqtt"
or_mqtt (c ∷ cs) = c ∷ cs

uri_of : Text → Text → ℕ → Text → Text
uri_of proto [] port path = []
uri_of proto (c ∷ cs) port path =
    proto ++ (codes "://" ++ ((c ∷ cs) ++ (codes ":" ++ (to_string port ++ path))))

uri_from : MqttConfig → Text × Text → Text
unfolding uri_of
uri_from c (host, path) = uri_of (or_mqtt c.protocol) host (port_or_default c.port) path

-- Empty where there is no host to connect to.
unfoldable pub build_uri : MqttConfig → Text
unfolding uri_from
build_uri c = uri_from c (split_host c.host)
