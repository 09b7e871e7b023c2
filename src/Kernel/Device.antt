-- ===== src/Kernel/Device.antt =====
-- kernel/usbdisplay_drv.c: the state of the driver and of an open stream, and its pixel formats.
use usbdisplay_stack.Common.{ℕ, Option, List, ◌==◌, if◌then◌else◌}
use usbdisplay_stack.Uapi.{Update, format_invalid, format_rgb565, format_xrgb8888}

-- struct usbdisplay_device, the fields that the snapshot ring works on. The read-only module
-- parameters `width` and `height` stand beside them. A slot of -1 is `none`; the two atomic
-- counters are 32-bit patterns.
pub record Device : Type 0 where
  pub width : ℕ
  pub height : ℕ
  pub frame_ring : List ℕ
  pub slot_bytes : ℕ
  pub map_bytes : ℕ
  pub sequence : ℕ
  pub next_slot : ℕ
  pub held_slot : Option ℕ
  pub consumer_open : ℕ
  pub producer_open : ℕ
  pub latest_update : Update

-- struct usbdisplay_file; `udev` is the device that every call passes along.
pub record FileContext : Type 0 where
  pub last_sequence : ℕ
  pub held_slot : Option ℕ

-- The two fourcc codes are the kernel's (drm_fourcc.h).
module _ (drm_format_xrgb8888 drm_format_rgb565 : ℕ) where
  unfoldable pub format_from_drm : ℕ → ℕ
  format_from_drm drm_format =
      if drm_format == drm_format_xrgb8888
      then format_xrgb8888
      else if drm_format == drm_format_rgb565
      then format_rgb565
      else format_invalid

unfoldable pub bytes_per_pixel : ℕ → ℕ
bytes_per_pixel format =
    if format == format_xrgb8888 then 4 else if format == format_rgb565 then 2 else 0
