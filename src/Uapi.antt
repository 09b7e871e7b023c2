-- ===== src/Uapi.antt =====
-- include/usbdisplay/uapi.h: the constants and structures that the kernel module and the daemon
-- share. A C enumeration travels in a __u32, so its values stay numbers here.
use usbdisplay_stack.Common.{ℕ, List}

abbrev pub abi_version : ℕ
abi_version = 1

abbrev pub slot_count : ℕ
slot_count = 3

abbrev pub format_invalid : ℕ
format_invalid = 0

abbrev pub format_rgb565 : ℕ
format_rgb565 = 1

abbrev pub format_xrgb8888 : ℕ
format_xrgb8888 = 2

abbrev pub source_initial : ℕ
source_initial = 0

abbrev pub source_drm : ℕ
source_drm = 1

abbrev pub source_fbdev : ℕ
source_fbdev = 2

-- struct usbdisplay_device_info
pub record DeviceInfo : Type 0 where
  pub abi : ℕ
  pub width : ℕ
  pub height : ℕ
  pub slots : ℕ
  pub slot_bytes : ℕ
  pub map_bytes : ℕ
  pub reserved0 : ℕ
  pub reserved1 : ℕ
  pub sequence : ℕ

-- struct usbdisplay_update
pub record Update : Type 0 where
  pub sequence : ℕ
  pub timestamp_ns : ℕ
  pub slot : ℕ
  pub width : ℕ
  pub height : ℕ
  pub stride : ℕ
  pub format : ℕ
  pub source : ℕ
  pub damage_x : ℕ
  pub damage_y : ℕ
  pub damage_width : ℕ
  pub damage_height : ℕ
  pub reserved : List ℕ
