-- ===== src/Settings/Mqtt/Tests.antt =====
-- The settings of a device with one broker.
use io_tsmart_sys_core.Base.{true, ◌≡◌, arith, [], ◌++◌, codes, drop}
use io_tsmart_sys_core.Base.Int.{pos}
use io_tsmart_sys_core.Settings.Mqtt.{
  MqttConfig, MqttSettings, device_id_placeholder, get_command_topic_for_device,
}
use io_tsmart_sys_core.Settings.Mqtt.Topic.{NoBrace, command_topic_lem}

abbrev broker : MqttConfig
broker = record {
  host = codes "a.example";
  port = pos 1883;
  user = [];
  password = [];
  protocol = codes "mqtt";
  ttl = pos 60;
  keep_alive_sec = 60;
  clean_session = true;
}

abbrev settings : MqttSettings
settings = record {
  primary = broker;
  secondary = broker;
  tertiary = broker;
  announce_topic = codes "announce";
  command_topic = codes "device/{device_id}/command";
  notify_topic = codes "notify";
  profile = codes "primary";
}

no_brace : NoBrace (codes "device/")
no_brace = ground arith

command_topic_example :
    (get_command_topic_for_device
        (record settings {
          command_topic = codes "device/" ++ (device_id_placeholder ++ codes "/command");
        })
        (codes "abc")
      ≡ codes "device/" ++ (codes "abc" ++ drop 1 (codes "/command")))
    × (get_command_topic_for_device
          (record settings { command_topic = codes "device/" })
          (codes "abc")
        ≡ codes "device/")
command_topic_example =
    command_topic_lem settings (codes "device/") (codes "/command") (codes "abc") no_brace
