-- ===== src/Kernel/Probe/Laws.antt =====
-- kernel/usbdisplay_drv.c: a mode that the driver accepts gives a ring that holds its frames.
use native.Mathlib.Nat.{mul-le-mul, mul-le-mul_right}
use usbdisplay_stack.Common.{
  ℕ, ◌+◌, ◌*◌, ◌≤◌, ◌<◌, ◌≡◌, refl, ap, ◌∙◌, true, false, ◌||◌, none, List, arith, ltb, ◌==◌, u32,
  Status, success, failure, ok, length, take, replicate, length-replicate, take_all,
}
use usbdisplay_stack.Kernel.Device.{bytes_per_pixel, Device}
use usbdisplay_stack.Kernel.Probe.{
  max_width, max_height, slot_geometry, new_device, blank_request, publish_initial, first_failure,
  published, probe, Platform,
}
use usbdisplay_stack.Kernel.Publish.{mul_size, memory, publish}
use usbdisplay_stack.Kernel.Publish.Frames.{IsAnnounced}
use usbdisplay_stack.Kernel.Publish.Laws.{Fits}
use usbdisplay_stack.Kernel.Publish.Ready.{frame_data, IsReady}
use usbdisplay_stack.Kernel.Publish.Snapshots.{publish-IsReady, publish_geometry, publish_announces}
use usbdisplay_stack.Uapi.{format_xrgb8888, source_initial}

module _ (p : Platform) (width height : ℕ) (w : width ≤ 4096) (h : height ≤ 2160) where
  abbrev padded : ℕ
  padded = p.align (width * 4) 256

  padded_bounds : (width * 4 ≤ padded) × (padded < width * 4 + 256)
  padded_bounds =
      (p.align_ge (width * 4) 256 (omega arith), p.align_lt (width * 4) 256 (omega arith))

  rows : (width * 4 * height ≤ padded * height) × (padded * height ≤ 16640 * 2160)
  rows =
      let (low, high) = padded_bounds in
      (mul-le-mul_right height low, mul-le-mul {n₂ = 16640} (omega (arith, high, w)) h)

  slot_geometry_shape : slot_geometry p width height ≡ p.align (padded * height) p.page_size
  unfolding slot_geometry
  slot_geometry_shape =
      let no_wrap : mul_size width 4 ≡ width * 4 = omega (arith, w) in
      let no_wrap' : mul_size padded height ≡ padded * height = omega (arith, rows) in
      ap (λ x. p.align x p.page_size) (ap (λ x. mul_size (p.align x 256) height) no_wrap ∙ no_wrap')

  -- The slot holds a frame of the mode, and three slots stay far below 32 bits.
  pub slot_geometry_bounds :
      (width * 4 * height ≤ slot_geometry p width height)
      × (slot_geometry p width height < 36007936)
  slot_geometry_bounds =
      let (low, high) = rows in
      let up = p.align_ge (padded * height) p.page_size p.page_pos in
      let down = p.align_lt (padded * height) p.page_size p.page_pos in
      rw slot_geometry_shape (omega (arith, low, up), omega (arith, high, down, p.page_small))

  abbrev device : Device
  device = new_device p width height

  -- The ring of the new device is three whole slots.
  new_device-IsReady : IsReady device
  unfolding new_device
  new_device-IsReady =
      let (low, high) = slot_geometry_bounds in
      record {
        three_slots = omega (arith, high);
        ring_bytes = length-replicate _ 0;
        small = omega (arith, high);
        next_in = omega arith;
        held_in = tt;
      }

  blank-Fits : Fits device (blank_request device.width device.height)
  unfolding new_device blank_request bytes_per_pixel
  blank-Fits =
      let (low, high) = slot_geometry_bounds in
      let stride : u32 (width * 4) ≡ width * 4 = omega (arith, w) in
      record {
        has_pixels = refl;
        known_format = omega arith;
        in_width = omega arith;
        in_height = omega arith;
        in_slot = rw stride low;
      }

  blank_long :
      (blank_request width height).stride * (blank_request width height).frame_height
      ≤ length (memory (blank_request width height).pixels)
  unfolding blank_request
  blank_long =
      let (low, high) = rows in
      let stride : u32 (width * 4) ≡ width * 4 = omega (arith, w) in
      rw (stride, length-replicate) (omega (arith, low, high))

  blank_bytes :
      take
        ((blank_request width height).stride * height)
        (memory (blank_request width height).pixels)
      ≡ replicate (width * 4 * height) 0
  unfolding blank_request
  blank_bytes =
      let (low, high) = rows in
      let stride : u32 (width * 4) ≡ width * 4 = omega (arith, w) in
      let whole : mul_size (width * 4) height ≡ width * 4 * height = omega (arith, low, high) in
      rw (stride, whole)
        (take_all (width * 4 * height) (replicate (width * 4 * height) 0)
          (omega (arith, length-replicate {A = ℕ} (width * 4 * height) 0)))

-- What the daemon relies on in the answer of USBDISPLAY_IOCTL_GET_INFO.
pub record InfoMatches (d : Device) : Type 0 where
  pub slot_word : u32 d.slot_bytes ≡ d.slot_bytes
  pub map_word : u32 d.map_bytes ≡ d.map_bytes
  pub slot_pos : 0 < d.slot_bytes

area_pos : (width height : ℕ) → 0 < width → 0 < height → 0 < width * 4 * height
area_pos width height w h = grind arith

new_device_info :
    (p : Platform) (width height : ℕ)
    → width ≤ 4096
    → height ≤ 2160
    → 0 < width
    → 0 < height
    → (u32 (new_device p width height).slot_bytes ≡ (new_device p width height).slot_bytes)
      × (u32 (new_device p width height).map_bytes ≡ (new_device p width height).map_bytes)
      × (0 < (new_device p width height).slot_bytes)
unfolding new_device
new_device_info p width height w h w' h' =
    let (low, high) = slot_geometry_bounds p width height w h in
    (omega (arith, high), omega (arith, high), omega (arith, low, area_pos width height w' h'))

published_ok : (x : Device × Status) → x.1 ≡ success → published x ≡ ok x.0
published_ok (d, success) e = refl
published_ok (d, failure x) e = cc

probe_run :
    (p : Platform) (registrations : List Status) (now width height : ℕ)
    → 0 < width
    → width ≤ 4096
    → 0 < height
    → height ≤ 2160
    → first_failure registrations ≡ success
    → let d = new_device p width height in
      probe p true true registrations true now width height
      ≡ published (publish d now (blank_request d.width d.height))
unfolding probe publish_initial
probe_run p registrations now width height w w' h h' granted =
    let mode : (width == 0 || height == 0 || ltb max_width width || ltb max_height height) ≡ false =
      ground arith in
    rw (mode) (rw (granted, probe))

-- If the memory and the registrations are granted, every mode between 1 x 1 and 4096 x 2160 is
-- accepted. The driver then has a ring of three whole slots whose sizes fit the 32-bit fields of
-- the device information, no consumer, and one announced frame: the black INITIAL frame in XRGB8888,
-- of the mode's width and height, with rows of four bytes a pixel.
pub probe_lem :
    (p : Platform) (registrations : List Status) (now width height : ℕ)
    → 0 < width
    → width ≤ 4096
    → 0 < height
    → height ≤ 2160
    → first_failure registrations ≡ success
    → (d : Device) × (probe p true true registrations true now width height ≡ ok d)
      × IsReady d
      × IsAnnounced d
      × InfoMatches d
      × (d.width ≡ width)
      × (d.height ≡ height)
      × (d.consumer_open ≡ 0)
      × (d.held_slot ≡ none)
      × (d.latest_update.width ≡ width)
      × (d.latest_update.height ≡ height)
      × (d.latest_update.stride ≡ width * 4)
      × (d.latest_update.format ≡ format_xrgb8888)
      × (d.latest_update.source ≡ source_initial)
      × (frame_data d d.latest_update ≡ replicate (width * 4 * height) 0)
unfolding new_device blank_request
probe_lem p registrations now width height w w' h h' granted =
    let d = new_device p width height in
    let r = blank_request d.width d.height in
    let v = new_device-IsReady p width height w' h' in
    let (q, a, seq, t, uw, uh, us, uf, src, bytes) =
      publish_announces d now r v (blank-Fits p width height w' h')
        (blank_long p width height w' h') in
    let (gw, gh, gs, gm, held, co, po) = publish_geometry d v now r in
    let info = new_device_info p width height w' h' w h in
    (
      (publish d now r).0,
      probe_run p registrations now width height w w' h h' granted ∙ published_ok _ q,
      publish-IsReady d now r v,
      a,
      record { slot_word = rw gs info.0; map_word = rw gm info.1; slot_pos = rw gs info.2 },
      gw,
      gh,
      co,
      held,
      uw,
      uh,
      us ∙ omega (arith, w'),
      uf,
      src,
      bytes ∙ blank_bytes p width height w' h',
    )
