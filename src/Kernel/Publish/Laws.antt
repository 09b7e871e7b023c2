-- ===== src/Kernel/Publish/Laws.antt =====
-- kernel/usbdisplay_drv.c: when usbdisplay_publish accepts a frame, and what it then leaves behind.
use usbdisplay_stack.Common.{
  ℕ, ◌+◌, ◌*◌, ◌/◌, ◌%◌, ◌≤◌, ◌<◌, ◌≡◌, sym, ap, ◌∙◌, ◌≢◌, ◌⊎◌, inl, inr, false, not, ◌&&◌, ◌||◌,
  List, arith, ltb, ◌==◌, Status-cases, Errno, success, failure, ebusy,
}
use usbdisplay_stack.Kernel.Device.{bytes_per_pixel, Device}
use usbdisplay_stack.Kernel.Publish.{
  mul_size, commit, publish_locked, memory, is_null, publish_guard, publish, Request,
}
use usbdisplay_stack.Kernel.Publish.Ready.{stride_fits, product_fits, with_slot, IsReady}
use usbdisplay_stack.Kernel.Slots.{chosen_slot, select_slot_lem}

-- What a producer must respect: a known format, a frame no larger than the mode, bytes that fit.
pub record Fits (d : Device) (r : Request) : Type 0 where
  pub has_pixels : is_null r.pixels ≡ false
  pub known_format : 0 < bytes_per_pixel r.format
  pub in_width : r.frame_width ≤ d.width
  pub in_height : r.frame_height ≤ d.height
  pub in_slot : r.stride * r.frame_height ≤ d.slot_bytes

-- The first four fields of the mode and the ring that no call of publish changes.
abbrev pub SameGeometry : Device → Device → Type 0
SameGeometry d d' =
    (d'.width ≡ d.width)
    × (d'.height ≡ d.height)
    × (d'.slot_bytes ≡ d.slot_bytes)
    × (d'.map_bytes ≡ d.map_bytes)
    × (d'.held_slot ≡ d.held_slot)
    × (d'.consumer_open ≡ d.consumer_open)
    × (d'.producer_open ≡ d.producer_open)

-- The slot search always succeeds, so the critical section commits.
publish_locked_lem :
    (d : Device) (v : IsReady d) (now : ℕ) (r : Request) (pixels : List ℕ)
    → publish_locked d now r pixels ≡ (
      commit (record d { next_slot = (chosen_slot d + 1) % 3 }) now r pixels (chosen_slot d),
      success,
    )
unfolding publish_locked
publish_locked_lem d v now r pixels =
    let e = select_slot_lem d v.next_in in rw (e, publish_locked) (rw e)

-- The guard passes exactly the frames that fit: the division test and the test of the wrapped
-- product together say that the true product fits.
guard_accepts : (d : Device) (v : IsReady d) (r : Request) → Fits d r → publish_guard d r ≡ success
unfolding publish_guard
guard_accepts d v r f = rw (known, inside, divided, product)
  where
    known : (is_null r.pixels || bytes_per_pixel r.format == 0) ≡ false
    known = ground (arith, f.has_pixels, f.known_format)

    inside : (ltb d.width r.frame_width || ltb d.height r.frame_height) ≡ false
    inside = ground (arith, f.in_width, f.in_height)

    divided : (not (r.frame_height == 0) && ltb (d.slot_bytes / r.frame_height) r.stride) ≡ false
    divided = ground (arith, f.in_slot, stride_fits r.stride r.frame_height d.slot_bytes)

    product : ltb d.slot_bytes (mul_size r.stride r.frame_height) ≡ false
    product = ground (arith, f.in_slot, v.small, v.three_slots)

guard_needs :
    (d : Device) (r : Request)
    → publish_guard d r ≡ success
    → (is_null r.pixels ≡ false)
      × (0 < bytes_per_pixel r.format)
      × (r.frame_width ≤ d.width)
      × (r.frame_height ≤ d.height)
      × (0 < r.frame_height → r.stride ≤ d.slot_bytes / r.frame_height)
unfolding publish_guard
guard_needs d r h = ground arith

guard-Fits : (d : Device) (r : Request) → publish_guard d r ≡ success → Fits d r
guard-Fits d r h =
    let (a, b, c, e, f) = guard_needs d r h in
    record {
      has_pixels = a;
      known_format = b;
      in_width = c;
      in_height = e;
      in_slot = product_fits r.stride r.frame_height d.slot_bytes f;
    }

publish_pass :
    (d : Device) (v : IsReady d) (now : ℕ) (r : Request)
    → publish_guard d r ≡ success
    → publish d now r ≡ (commit (with_slot d) now r (memory r.pixels) (chosen_slot d), success)
unfolding publish
publish_pass d v now r e = rw (e, publish) (publish_locked_lem d v now r (memory r.pixels))

publish_fail :
    (d : Device) (now : ℕ) (r : Request) {x : Errno}
    → publish_guard d r ≡ failure x
    → publish d now r ≡ (d, failure x)
unfolding publish
publish_fail d now r e = rw (e, publish)

guard_not_busy : (d : Device) (r : Request) → publish_guard d r ≢ failure ebusy
unfolding publish_guard
guard_not_busy d r h = ground arith

-- A frame that fits is committed to the chosen slot.
pub publish_of_Fits :
    (d : Device) (v : IsReady d) (now : ℕ) (r : Request)
    → Fits d r
    → publish d now r ≡ (commit (with_slot d) now r (memory r.pixels) (chosen_slot d), success)
publish_of_Fits d v now r f = publish_pass d v now r (guard_accepts d v r f)

success_not_failure : {e : Errno} → success ≢ failure e
success_not_failure q = cc

-- A frame that fits is published; any other frame is refused, with an error other than EBUSY and the
-- device as it was.
pub publish_accepts_iff :
    (d : Device) (v : IsReady d) (now : ℕ) (r : Request)
    → (Fits d r × ((publish d now r).1 ≡ success))
      ⊎ (¬ Fits d r × ((e : Errno) × (e ≢ ebusy) × (publish d now r ≡ (d, failure e))))
publish_accepts_iff d v now r = elim (Status-cases (publish_guard d r)) [
  | inl e ↦ inl (guard-Fits d r e, rw (publish_pass d v now r e))
  | inr (x, e) ↦ inr (
    λ f. success_not_failure (sym (guard_accepts d v r f) ∙ e),
    (x, λ q. guard_not_busy d r (e ∙ ap failure q), publish_fail d now r e),
  )
]
