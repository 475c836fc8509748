-- ===== src/App/DeviceState/Output.antt =====
-- `OutputHardwareAdapter` of src/Platform/Arduino/Adapters/OutputHardwareAdapter.h, as far as the
-- status LED uses it.
use io_tsmart_sys_core.Base.{Bool, not, bool_eq}
use io_tsmart_sys_core.App.DeviceState.{LedCommand, led_on, led_off, led_toggle}

-- `OutputHardwareAdapter::applyCommand` on the level of the pin, true for HIGH, which the pin reads
-- back.
unfoldable pub apply_command : Bool → LedCommand → Bool → Bool
apply_command high_is_on led_on level = high_is_on
apply_command high_is_on led_off level = not high_is_on
apply_command high_is_on led_toggle level = not level

-- `OutputHardwareAdapter::getStateValue`
unfoldable pub is_lit : Bool → Bool → Bool
is_lit high_is_on level = bool_eq level high_is_on
