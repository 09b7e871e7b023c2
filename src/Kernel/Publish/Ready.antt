-- ===== src/Kernel/Publish/Ready.antt =====
-- kernel/usbdisplay_drv.c: the geometry of the ring between two calls, and what a slot holds.
use native.Mathlib.Nat.{le-div_iff_mul-le}
use native.Mathlib.Decide.{dec_lt}
use usbdisplay_stack.Common.{
  ℕ, zero, suc, ◌+◌, ◌*◌, ◌/◌, ◌%◌, ◌≤◌, ◌<◌, ◌≡◌, ◌∙◌, ◌≢◌, ◌↔◌, ◌⊎◌, inl, inr, Option, none, some,
  List, arith, length, take, drop, length-take, length-write_at, write_at_apart,
}
use usbdisplay_stack.Kernel.Device.{Device}
use usbdisplay_stack.Kernel.Publish.{mul_size, commit, Request}
use usbdisplay_stack.Kernel.Slots.{chosen_slot}
use usbdisplay_stack.Uapi.{Update}

abbrev pub SlotIn : Option ℕ → Type 0
SlotIn none = Unit {0}
SlotIn (some s) = s < 3

-- The ring is three slots, and its size fits size_t.
pub record IsReady (d : Device) : Type 0 where
  pub three_slots : d.map_bytes ≡ 3 * d.slot_bytes
  pub ring_bytes : length d.frame_ring ≡ d.map_bytes
  pub small : d.map_bytes < 18446744073709551616
  pub next_in : d.next_slot < 3
  pub held_in : SlotIn d.held_slot

-- The first `n` bytes of slot `s`.
abbrev pub slot_data : Device → ℕ → ℕ → List ℕ
slot_data d s n = take n (drop (s * d.slot_bytes) d.frame_ring)

-- The bytes of the frame that `u` announces: what the consumer reads through its mapping.
abbrev pub frame_data : Device → Update → List ℕ
frame_data d u = slot_data d u.slot (u.stride * u.height)

pub slot_before : (s t b : ℕ) → s < t → s * b + b ≤ t * b
slot_before s t b h = grind arith

pub slot_inside : (s b : ℕ) → s < 3 → s * b + b ≤ 3 * b
slot_inside s b h = grind arith

-- The product behind a division test.
pub stride_fits :
    (stride height bytes : ℕ) → 0 < height → (stride ≤ bytes / height) ↔ (stride * height ≤ bytes)
stride_fits stride height bytes h = le-div_iff_mul-le h

pub product_fits :
    (stride height bytes : ℕ) → (0 < height → stride ≤ bytes / height) → stride * height ≤ bytes
product_fits stride zero bytes h = omega arith
product_fits stride (suc height) bytes h =
    (stride_fits stride (suc height) bytes (omega arith)).0 (h (omega arith))

-- The device that the critical section starts to copy into.
abbrev pub with_slot : Device → Device
with_slot d = record d { next_slot = (chosen_slot d + 1) % 3 }

pub with_slot-IsReady : (d : Device) → IsReady d → IsReady (with_slot d)
with_slot-IsReady d v = record {
  three_slots = v.three_slots;
  ring_bytes = v.ring_bytes;
  small = v.small;
  next_in = omega arith;
  held_in = v.held_in;
}

-- What opening, reading and releasing a stream may change.
abbrev pub with_consumer : Device → Option ℕ → ℕ → Device
with_consumer d held opens = record d { held_slot = held; consumer_open = opens }

pub with_consumer-IsReady :
    (d : Device) (held : Option ℕ) (opens : ℕ)
    → IsReady d
    → SlotIn held
    → IsReady (with_consumer d held opens)
with_consumer-IsReady d held opens v h = record {
  three_slots = v.three_slots;
  ring_bytes = v.ring_bytes;
  small = v.small;
  next_in = v.next_in;
  held_in = h;
}

module _ (d : Device) (v : IsReady d) (now : ℕ) (r : Request) (pixels : List ℕ) (slot : ℕ)
    (slot_in : slot < 3) (fits : r.stride * r.frame_height ≤ d.slot_bytes) where
  -- Neither size_t product wraps.
  pub no_wrap :
      (mul_size slot d.slot_bytes ≡ slot * d.slot_bytes)
      × (mul_size r.stride r.frame_height ≡ r.stride * r.frame_height)
  no_wrap = omega (arith, slot_inside slot d.slot_bytes slot_in, v.three_slots, v.small)

  pub commit-IsReady : IsReady (commit d now r pixels slot)
  unfolding commit
  commit-IsReady = record {
    three_slots = v.three_slots;
    ring_bytes = length-write_at d.frame_ring _ _ ∙ v.ring_bytes;
    small = v.small;
    next_in = v.next_in;
    held_in = v.held_in;
  }

  -- Another slot keeps its bytes.
  pub commit_other_slot :
      (s n : ℕ)
      → s < 3
      → s ≢ slot
      → n ≤ d.slot_bytes
      → slot_data (commit d now r pixels slot) s n ≡ slot_data d s n
  unfolding commit
  commit_other_slot s n hs ne hn =
      rw (no_wrap.0, no_wrap.1)
        (write_at_apart d.frame_ring (slot * d.slot_bytes) (take (r.stride * r.frame_height) pixels)
          (s * d.slot_bytes) n apart)
    where
      apart :
          (s * d.slot_bytes + n ≤ slot * d.slot_bytes)
          ⊎ (slot * d.slot_bytes + length (take (r.stride * r.frame_height) pixels)
              ≤ s * d.slot_bytes)
      apart = elim (dec_lt s slot) [
        | yes p ↦ inl (omega (arith, slot_before s slot d.slot_bytes p))
        | no p ↦ inr (
            omega (
              arith,
              slot_before slot s d.slot_bytes (omega arith),
              length-take (r.stride * r.frame_height) pixels,
            ))
      ]
