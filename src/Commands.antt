-- ===== src/Commands.antt =====
-- The commands that a device takes: src/Contracts/Events/DeviceCommand.h,
-- src/Contracts/Commands/CommandTypes.h and src/Contracts/Commands/SystemCommands.h.
pub mod Parser
pub mod Dispatch
mod Tests
use io_tsmart_sys_core.Base.{
  ℕ, ◌-◌, ◌&&◌, Bool, true, false, List, [], ◌∷◌, Option, none, some, Text, codes, text_eq,
  is_empty, leb, map, zero, suc, if◌then◌else◌,
}

pub data CommandType : Type 0 where
  unknown capability system : CommandType

pub data SystemCommand : Type 0 where
  unknown_command reboot factory_reset update_firmware : SystemCommand

pub record DeviceCommand : Type 0 where
  pub capability_name : Text
  pub device_id : Text
  pub value : Text
  pub type : Text
  pub args : List (Text × Text)

-- `std::toupper` on a byte, in the C locale.
unfoldable pub to_upper : ℕ → ℕ
to_upper c = if leb b'a' c && leb c b'z' then c - 32 else c

-- `CommandTypeUtils::fromString`
unfoldable pub command_type_from_string : Text → CommandType
unfolding to_upper
command_type_from_string t =
    let normalized = map to_upper t in
    if text_eq normalized (codes "CAPABILITY")
    then capability
    else if text_eq normalized (codes "SYSTEM")
    then system
    else unknown

-- `SystemCommandUtils::fromString`
unfoldable pub system_command_from_string : Text → SystemCommand
unfolding to_upper
system_command_from_string t =
    let normalized = map to_upper t in
    if text_eq normalized (codes "REBOOT")
    then reboot
    else if text_eq normalized (codes "FACTORY_RESET")
    then factory_reset
    else if text_eq normalized (codes "UPDATE_FIRMWARE")
    then update_firmware
    else unknown_command

-- The text up to its first zero byte, as `c_str()` hands it on.
unfoldable pub c_str : Text → Text
c_str [] = []
c_str (zero ∷ cs) = []
c_str (suc c ∷ cs) = suc c ∷ c_str cs

unfoldable pub get_command_type : DeviceCommand → CommandType
get_command_type c = if is_empty c.type then unknown else command_type_from_string (c_str c.type)

unfoldable pub get_system_command : DeviceCommand → SystemCommand
get_system_command c =
    if is_empty c.value then unknown_command else system_command_from_string (c_str c.value)
