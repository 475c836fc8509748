-- ===== src/Lib.antt =====
-- IoTSmartSysCore is the firmware core of networked devices: capabilities (sensors and actuators)
-- publish their state through an event sink and take commands, and services connect the device to
-- Wi-Fi and to an MQTT broker under gates for network and settings. This library models parts of it
-- in the state-passing style: a class is a record, a method a function from the record (and from
-- what it reads: the clock, pins, gates) to the record, and calls are composed as the code does.
--
-- Parts, with their files here and in the repository:
--   * Capability: `ICapability` (src/Contracts/Capabilities/ICapability.h) with `updateState` and
--     `readState`; the sink is the list of events received.
--   * Garage, Garage/Commands: `GarageControlCapability` (src/Contracts/Capabilities and
--     src/Core/Capabilities): `handle_sensor_state`, `update_stable_sensor_states`,
--     `evaluate_state_from_sensors`, `handle`, and the commands `press_open` (open), `press_close`
--     (close), `lock`, `stop`, `unlock`, `apply_command`. The levels of the pins and the clock come
--     with each pass as a `Reading`; relay pulses and delays are the list `effects`. Arduino's
--     `String` is the parameter `ArduinoString`.
--   * BinaryState: `EspNvsBinaryCapabilityStateProvider` (src/Platform/Espressif/Capabilities/Providers):
--     BinaryState/Records the snapshot and its validation, BinaryState/Nvs `loadSnapshot`,
--     BinaryState/Store `requestSave`, `tryGet`, `activateWriter` and the writer task. The task is cut
--     at its lock into the steps wake, look and write, so that a save can come between any two of
--     them; what NVS returns is a record of codes, and only a successful commit changes `flash`.
--   * Hardware, Binary: `BinaryCommandCapability` (src/Core/Capabilities/CapabilityHelpers.h) over the
--     interface records `HardwareAdapter` and `StateProvider`; Binary/Led is `LEDCapability`, and
--     Binary/Nvs fills `StateProvider` with the provider of BinaryState.
--   * Digital: `DebouncedDigitalCapability` and `LatchedTriggerCapability` of the same header, and
--     `DoorSensorCapability`.
--   * Backoff: `computeBackoffMs` of src/Core/Services/MqttService.cpp and of
--     src/Platform/Espressif/Wifi/WiFiManager.cpp.
--   * Settings/Mqtt: src/Contracts/Settings/MqttConfig.h and MqttSettings.h.
--   * SettingsGate: `SettingsGateImpl` (src/Core/Settings): `setLevel`, the signals and `runWhenReady`.
--   * Settings/Wifi and Settings/Config: src/Contracts/Settings/WifiConfig.h, Settings.h, ApiConfig.h
--     and FirmwareConfig.h, with `applyChanges`.
--   * Settings/Manager: `SettingsManager` (src/Core/Settings/SettingsManager.cpp). Settings/Manager
--     applies a fetched update, Settings/Manager/Url builds the URL and fills the manifest's
--     placeholder, Settings/Manager/Loop has `init`, the completion of a fetch, `syncFromApi`,
--     `refreshFromApiAsync`, `handle`, `save` and `clear`, and Settings/Manager/Calls runs sequences
--     of calls. What storage,
--     fetcher and parser answer comes with a call; the manager holds the gate of SettingsGate. The
--     hand-over of a fetched update between two tasks is one step here.
--   * Connectivity: the bits of src/Contracts/Connectivity/ConnectivityGate.h.
--   * Wifi: `WiFiManager` (src/Platform/Espressif/Wifi/WiFiManager.cpp and
--     src/Contracts/Connections/WiFiManager.h). Wifi holds configuration and state, Wifi/Select the
--     cache of access points and the choices from it, Wifi/Loop `begin`, `startConnect`,
--     `scheduleRetry`, `handle` and `onWiFiEvent`. The answers of the radio are the record `Radio`;
--     where `std::sort` may put any of several equal signals first, the first of them is taken.
--   * Commands: src/Platform/Espressif/Parsers/EspIdfCommandParser.cpp in Commands/Parser, and
--     src/Core/Commands in Commands/Dispatch, over capabilities with an unknown state.
--   * App: src/App/Managers. App/Bootstrap is `ConnectivityBootstrap`, App/Provisioning
--     `completeProvisioning` of `ProvisioningController`, App/DeviceState `DeviceStateManager` with
--     the pin of its LED in App/DeviceState/Output, and App/FactoryReset
--     `FactoryResetButtonController`; the adapters are the `OutputHardwareAdapter` and the
--     `InputHardwareAdapter` of src/Platform/Arduino/Adapters. They act on the settings manager of
--     Settings/Manager and on the Wi-Fi manager of Wifi.
--   * Transport: src/Contracts/Transports/TransportMessageView.h and ITransportChannel.h;
--     Transport/Hub is `TransportHub` (src/Core/Transports/TransportHub.cpp) over dispatchers of
--     which nothing is assumed.
--   * Mqtt: `MqttService<12, 16, 256>` (src/Core/Services/MqttService.h and .cpp), the one
--     instantiation that the sources build. Mqtt/Queue is the offline ring, Mqtt/Broker the choice
--     of a profile and its URI, Mqtt/Service the state with publishing and subscribing, Mqtt/Connect
--     `begin` and `scheduleRetry`, Mqtt/Loop `startConnect`, `handle` and `stop`, Mqtt/Calls the
--     sequences of calls, in which other components may clear the gate's bit of the service. The client (src/Contracts/Mqtt/IMqttClient.h) is the parameter
--     `MqttClient`: a state with functions of which nothing is assumed, and that may change between
--     two calls. The gates, the clock and the settings that a call meets are its `Env`.
--
-- Numbers: uint32 and uint64 values are natural numbers, with `u32`, `sub32` and `sub64` where the
-- code's arithmetic can wrap. Texts are lists of bytes. Loops recur on a list or on the rounds left,
-- so there is fuel only in `to_string`, whose ten digits are enough for every port of an int, and in
-- `resolve_loop`, with a round for each byte of the text. RSSI and channels are the integers of
-- Base/Int.
--
-- Not modelled: log texts, user callbacks, the platform's drivers, the JSON of settings, the channels
-- of provisioning, OTA and the display, which are input
-- and output or belong to libraries that are not in the repository.
pub mod App
pub mod Backoff
pub mod Base
pub mod Binary
pub mod BinaryState
pub mod Capability
pub mod Commands
pub mod Connectivity
pub mod Digital
pub mod Garage
pub mod Hardware
pub mod Mqtt
pub mod Settings
pub mod SettingsGate
pub mod Transport
pub mod Wifi
