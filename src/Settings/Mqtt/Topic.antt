-- ===== src/Settings/Mqtt/Topic.antt =====
-- The command topic, and when two settings count as different.
use io_tsmart_sys_core.Base.{
  take-length-append, drop-length-append, bool_eq, Bool, true, false, ◌≡◌, refl, ◌↔◌, ap₂, [], ◌∷◌,
  ◌++◌, none, some, Text, text_eq_iff, arith, length, drop, ◌==◌,
}
use io_tsmart_sys_core.Base.Int.{int_eq, ℤ, pos, negsuc}
use io_tsmart_sys_core.Settings.Mqtt.{
  MqttConfig, MqttSettings, starts_with, find, device_id_placeholder, fill_placeholder,
  get_command_topic_for_device, config_has_changed, settings_has_changed,
}

-- No byte of the text is `{`.
abbrev pub NoBrace : Text → Type 0
NoBrace [] = Unit {0}
NoBrace (x ∷ xs) = ((x == b'{') ≡ false) × NoBrace xs

starts_with-append : (p s : Text) → starts_with p (p ++ s) ≡ true
unfolding starts_with
starts_with-append [] s = refl
starts_with-append (x ∷ p) s = ground (arith, starts_with-append p s)

-- The first occurrence behind a text without braces is at its end.
find-append :
    (pre rest : Text)
    → NoBrace pre
    → find device_id_placeholder (pre ++ (device_id_placeholder ++ rest)) ≡ some (length pre)
unfolding find starts_with
find-append [] rest h = refl
find-append (x ∷ pre) rest h = ground (arith, find-append pre rest h.1)

find_absent : (s : Text) → NoBrace s → find device_id_placeholder s ≡ none
unfolding find starts_with
find_absent [] h = refl
find_absent (x ∷ s) h = ground (arith, find_absent s h.1)

drop_12 :
    (pre rest : Text)
    → drop 12 (drop (length pre) (pre ++ (device_id_placeholder ++ rest))) ≡ drop 1 rest
drop_12 pre rest = rw (drop-length-append pre (device_id_placeholder ++ rest))

fill_placeholder_absent : (s device_id : Text) → NoBrace s → fill_placeholder s device_id ≡ s
unfolding fill_placeholder
fill_placeholder_absent s device_id h = rw (find_absent s h, fill_placeholder)

fill_placeholder-append :
    (pre rest device_id : Text)
    → NoBrace pre
    → fill_placeholder (pre ++ (device_id_placeholder ++ rest)) device_id
      ≡ pre ++ (device_id ++ drop 1 rest)
unfolding fill_placeholder
fill_placeholder-append pre rest device_id h =
    rw (find-append pre rest h, fill_placeholder)
      (ap₂ (λ a b. a ++ (device_id ++ b)) (take-length-append pre (device_id_placeholder ++ rest))
        (drop_12 pre rest))

-- Where no brace stands before the placeholder, it is replaced by the device's id together with the
-- byte behind it: the code removes 12 bytes, and the placeholder has 11. A topic without a brace is
-- left alone.
pub command_topic_lem :
    (s : MqttSettings) (pre rest device_id : Text)
    → NoBrace pre
    → (get_command_topic_for_device
          (record s { command_topic = pre ++ (device_id_placeholder ++ rest) })
          device_id
        ≡ pre ++ (device_id ++ drop 1 rest))
      × (get_command_topic_for_device (record s { command_topic = pre }) device_id ≡ pre)
unfolding get_command_topic_for_device
command_topic_lem s pre rest device_id h =
    (fill_placeholder-append pre rest device_id h, fill_placeholder_absent pre device_id h)

pub bool_eq_iff : (a b : Bool) → (bool_eq a b ≡ true) ↔ (a ≡ b)
bool_eq_iff a b = ground arith

pub int_eq_iff : (a b : ℤ) → (int_eq a b ≡ true) ↔ (a ≡ b)
int_eq_iff (pos a) (pos b) = ground arith
int_eq_iff (negsuc a) (negsuc b) = ground arith
int_eq_iff (pos a) (negsuc b) = ground arith
int_eq_iff (negsuc a) (pos b) = ground arith

config_has_changed_iff : (c d : MqttConfig) → (config_has_changed c d ≡ false) ↔ (c ≡ d)
unfolding config_has_changed
config_has_changed_iff c d = ground (
  arith,
  text_eq_iff c.host d.host,
  int_eq_iff c.port d.port,
  text_eq_iff c.user d.user,
  text_eq_iff c.password d.password,
  text_eq_iff c.protocol d.protocol,
  int_eq_iff c.ttl d.ttl,
  bool_eq_iff c.clean_session d.clean_session,
)

-- `hasChanged` answers false exactly when the two settings agree in every field.
pub settings_has_changed_iff : (s t : MqttSettings) → (settings_has_changed s t ≡ false) ↔ (s ≡ t)
unfolding settings_has_changed
settings_has_changed_iff s t = ground (
  arith,
  config_has_changed_iff s.primary t.primary,
  config_has_changed_iff s.secondary t.secondary,
  config_has_changed_iff s.tertiary t.tertiary,
  text_eq_iff s.announce_topic t.announce_topic,
  text_eq_iff s.command_topic t.command_topic,
  text_eq_iff s.notify_topic t.notify_topic,
  text_eq_iff s.profile t.profile,
)
