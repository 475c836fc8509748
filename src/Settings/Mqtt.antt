-- ===== src/Settings/Mqtt.antt =====
-- src/Contracts/Settings/MqttConfig.h and src/Contracts/Settings/MqttSettings.h.
pub mod Topic
mod Tests
use io_tsmart_sys_core.Base.{
  ℕ, suc, zero, ◌+◌, Bool, true, false, not, ◌&&◌, ◌||◌, List, [], ◌∷◌, ◌++◌, Option, none, some,
  Text, codes, text_eq, length, take, drop, leb, ltb, ◌==◌, if◌then◌else◌, bool_eq, is_empty,
}
use io_tsmart_sys_core.Base.Int.{ℤ, pos, negsuc, int_eq}

pub record MqttConfig : Type 0 where
  pub host : Text
  pub port : ℤ
  pub user : Text
  pub password : Text
  pub protocol : Text
  pub ttl : ℤ
  pub keep_alive_sec : ℕ
  pub clean_session : Bool

pub record MqttSettings : Type 0 where
  pub primary : MqttConfig
  pub secondary : MqttConfig
  pub tertiary : MqttConfig
  pub announce_topic : Text
  pub command_topic : Text
  pub notify_topic : Text
  pub profile : Text

-- `port > 0 && port <= 65535`
unfoldable pub port_in_range : ℤ → Bool
port_in_range (pos n) = ltb 0 n && leb n 65535
port_in_range (negsuc n) = false

-- `MqttConfig::isValid`
unfoldable pub config_is_valid : MqttConfig → Bool
config_is_valid c = not (is_empty c.host) && port_in_range c.port

unfoldable pub get_current_profile : MqttSettings → MqttConfig
get_current_profile s =
    if text_eq s.profile (codes "tertiary") && config_is_valid s.tertiary
    then s.tertiary
    else if text_eq s.profile (codes "secondary") && config_is_valid s.secondary
    then s.secondary
    else s.primary

abbrev pub has_secondary : MqttSettings → Bool
has_secondary s = not (is_empty s.secondary.host)

abbrev pub has_tertiary : MqttSettings → Bool
has_tertiary s = not (is_empty s.tertiary.host)

abbrev pub settings_is_valid : MqttSettings → Bool
settings_is_valid s = config_is_valid s.primary

-- `std::string::find`: the position of the first occurrence.
unfoldable pub starts_with : Text → Text → Bool
starts_with [] s = true
starts_with (p ∷ ps) [] = false
starts_with (p ∷ ps) (x ∷ xs) = x == p && starts_with ps xs

unfoldable pub find : Text → Text → Option ℕ
find p [] = if starts_with p [] then some 0 else none
find p (x ∷ xs) =
    let later = find p xs in
    if starts_with p (x ∷ xs) then some 0 else elim later [ none ↦ none | some i ↦ some (suc i) ]

-- `std::string::replace` of `n` bytes at a position that `find` returned.
abbrev pub replace_at : ℕ → ℕ → Text → Text → Text
replace_at i n r s = take i s ++ (r ++ drop n (drop i s))

abbrev pub device_id_placeholder : Text
device_id_placeholder = codes "{device_id}"

unfoldable pub fill_placeholder : Text → Text → Text
fill_placeholder topic device_id = elim (find device_id_placeholder topic) [
  | none ↦ topic
  | some i ↦ replace_at i 12 device_id topic
]

unfoldable pub get_command_topic_for_device : MqttSettings → Text → Text
unfolding fill_placeholder
get_command_topic_for_device s device_id = fill_placeholder s.command_topic device_id

-- `MqttConfig::hasChanged`
unfoldable pub config_has_changed : MqttConfig → MqttConfig → Bool
config_has_changed c d =
    not (text_eq c.host d.host)
    || (not (int_eq c.port d.port)
        || (not (text_eq c.user d.user)
            || (not (text_eq c.password d.password)
                || (not (text_eq c.protocol d.protocol)
                    || (not (int_eq c.ttl d.ttl)
                        || (not (c.keep_alive_sec == d.keep_alive_sec)
                            || not (bool_eq c.clean_session d.clean_session)))))))

unfoldable pub settings_has_changed : MqttSettings → MqttSettings → Bool
settings_has_changed s t =
    config_has_changed s.primary t.primary
    || (config_has_changed s.secondary t.secondary
        || (config_has_changed s.tertiary t.tertiary
            || (not (text_eq s.announce_topic t.announce_topic)
                || (not (text_eq s.command_topic t.command_topic)
                    || (not (text_eq s.notify_topic t.notify_topic)
                        || not (text_eq s.profile t.profile))))))
