-- ===== src/Kernel/Probe.antt =====
-- kernel/usbdisplay_drv.c: the part of usbdisplay_probe that builds the ring, and the first frame.
pub mod Laws
use usbdisplay_stack.Common.{
  ℕ, ◌+◌, ◌*◌, ◌≤◌, ◌<◌, Bool, not, ◌||◌, none, some, List, [], ◌∷◌, ltb, ◌==◌, if◌then◌else◌, u32,
  Status, success, failure, Result, ok, err, ◌then_try◌, replicate, einval, enomem,
}
use usbdisplay_stack.Kernel.Device.{Device}
use usbdisplay_stack.Kernel.Publish.{mul_size, publish, Request}
use usbdisplay_stack.Uapi.{slot_count, format_xrgb8888, source_initial, Update}

-- The kernel's ALIGN macro and its page size (linux/kernel.h, asm/page.h): rounding up to a multiple.
pub record Platform : Type 0 where
  pub align : ℕ → ℕ → ℕ
  pub page_size : ℕ
  pub align_ge : (x a : ℕ) → 0 < a → x ≤ align x a
  pub align_lt : (x a : ℕ) → 0 < a → align x a < x + a
  pub page_pos : 0 < page_size
  pub page_small : page_size ≤ 65536

abbrev pub max_width : ℕ
max_width = 4096

abbrev pub max_height : ℕ
max_height = 2160

-- udev->slot_bytes, with size_t products
unfoldable pub slot_geometry : Platform → ℕ → ℕ → ℕ
slot_geometry p width height =
    p.align (mul_size (p.align (mul_size width 4) 256) height) p.page_size

abbrev pub no_update : Update
no_update = record {
  sequence = 0;
  timestamp_ns = 0;
  slot = 0;
  width = 0;
  height = 0;
  stride = 0;
  format = 0;
  source = 0;
  damage_x = 0;
  damage_y = 0;
  damage_width = 0;
  damage_height = 0;
  reserved = 0 ∷ 0 ∷ 0 ∷ 0 ∷ [];
}

-- The device once vmalloc_user has returned its zeroed memory.
unfoldable pub new_device : Platform → ℕ → ℕ → Device
new_device p width height =
    let slot_bytes = slot_geometry p width height in
    let map_bytes = mul_size slot_bytes slot_count in
    record {
      width = width;
      height = height;
      frame_ring = replicate map_bytes 0;
      slot_bytes = slot_bytes;
      map_bytes = map_bytes;
      sequence = 0;
      next_slot = 0;
      held_slot = none;
      consumer_open = 0;
      producer_open = 0;
      latest_update = no_update;
    }

-- The blank frame of usbdisplay_publish_initial; `stride` is an unsigned int.
unfoldable pub blank_request : ℕ → ℕ → Request
blank_request width height =
    let stride = u32 (width * 4) in
    record {
      pixels = some (replicate (mul_size stride height) 0);
      frame_width = width;
      frame_height = height;
      stride = stride;
      format = format_xrgb8888;
      clips = [];
      source = source_initial;
    }

-- `allocated` is whether vzalloc returned memory.
unfoldable pub publish_initial : Bool → ℕ → Device → Device × Status
publish_initial allocated now d =
    if not allocated then (d, failure enomem) else publish d now (blank_request d.width d.height)

-- The `if (result == 0) result = ...` ladder over the registrations between the ring and the first
-- frame: the DRM mode configuration, connector, pipe and device, fbdev, and the misc device.
abbrev pub first_failure : List Status → Status
first_failure [] = success
first_failure (s ∷ steps) = s then_try first_failure steps

abbrev pub published : Device × Status → Result Device
published (d, success) = ok d
published (d, failure e) = err e

unfoldable pub probe : Platform → Bool → Bool → List Status → Bool → ℕ → ℕ → ℕ → Result Device
probe p device_allocated ring_allocated registrations blank_allocated now width height =
    if width == 0 || height == 0 || ltb max_width width || ltb max_height height
    then err einval
    else if not device_allocated || not ring_allocated
    then err enomem
    else elim (first_failure registrations) [
      | failure e ↦ err e
      | success ↦ published (publish_initial blank_allocated now (new_device p width height))
    ]
