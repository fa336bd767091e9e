-- ===== src/Hid/Hdl/Setup.antt =====
-- What `Initialize` of source/ControllerSwitch/SwitchHDLHandler.cpp sets for each input.
use sys_con.Prelude.{ℕ, zero, suc, ◌+◌, ◌*◌, ◌/◌, ◌%◌, ◌<◌, ◌≡◌, ◌==◌, if◌then◌else◌, arith}
use sys_con.Config.Data.{ControllerConfig, ControllerType}
use sys_con.Hid.Hdl.{HandlerData, reset}

-- The constants of libnx that `ControllerTypeToDeviceType` gives.
pub data DeviceType : Type 0 where
  full_key3 full_key6 full_key13 full_key15 : DeviceType
  lucia palma system19 lagon lager lark_nes_left lark_hvc_left : DeviceType

abbrev controller_type_to_device_type : ControllerType → DeviceType
controller_type_to_device_type ControllerType.pro_with_battery = DeviceType.full_key3
controller_type_to_device_type ControllerType.tarragon = DeviceType.full_key6
controller_type_to_device_type ControllerType.snes = DeviceType.lucia
controller_type_to_device_type ControllerType.pokeball_plus = DeviceType.palma
controller_type_to_device_type ControllerType.gamecube = DeviceType.full_key13
controller_type_to_device_type ControllerType.pro = DeviceType.full_key15
controller_type_to_device_type ControllerType.third_party_pro = DeviceType.system19
controller_type_to_device_type ControllerType.n64 = DeviceType.lagon
controller_type_to_device_type ControllerType.sega = DeviceType.lager
controller_type_to_device_type ControllerType.nes = DeviceType.lark_nes_left
controller_type_to_device_type ControllerType.famicom = DeviceType.lark_hvc_left
controller_type_to_device_type ControllerType.unknown = DeviceType.full_key15

-- `__builtin_bswap32`
unfoldable bswap32 : ℕ → ℕ
bswap32 n = n % 256 * 16777216 + n / 256 % 256 * 65536 + n / 65536 % 256 * 256 + n / 16777216 % 256

-- `HiddbgHdlsDeviceInfo`; the interface type is that of USB.
pub record DeviceInfo : Type 0 where
  pub device_type : DeviceType
  pub single_color_body : ℕ
  pub single_color_buttons : ℕ
  pub color_left_grip : ℕ
  pub color_right_grip : ℕ

-- An input behind its turn of the loop.
pub record Prepared : Type 0 where
  pub device : HandlerData
  pub info : DeviceInfo
  pub battery_level : ℕ

unfoldable pub prepared : ControllerConfig → Prepared
unfolding bswap32
prepared c = record {
  device = reset;
  info = record {
    device_type = controller_type_to_device_type c.controller_type;
    single_color_body = bswap32 c.body_color;
    single_color_buttons = bswap32 c.buttons_color;
    color_left_grip = bswap32 c.left_grip_color;
    color_right_grip = bswap32 c.right_grip_color;
  };
  battery_level = 4;
}

-- The loop over the inputs.
unfoldable pub initialize : ControllerConfig → ℕ → (ℕ → Prepared) → ℕ → Prepared
initialize c zero inputs = inputs
initialize c (suc n) inputs = λ i. if i == n then prepared c else initialize c n inputs i

-- The bytes of a color change places, and back.
bswap32-bswap32 : (n : ℕ) → n < 4294967296 → bswap32 (bswap32 n) ≡ n
unfolding bswap32
bswap32-bswap32 n h = omega arith
