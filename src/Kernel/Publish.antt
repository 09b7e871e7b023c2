-- ===== src/Kernel/Publish.antt =====
-- kernel/usbdisplay_drv.c: usbdisplay_publish, the one way by which a frame enters the ring.
pub mod Ready
pub mod Laws
pub mod Frames
pub mod Snapshots
use usbdisplay_stack.Common.{
  ℕ, ◌+◌, ◌*◌, ◌/◌, Bool, true, false, not, ◌&&◌, ◌||◌, Option, none, some, List, [], ◌∷◌, ltb,
  ◌==◌, if◌then◌else◌, u64, Status, success, failure, take, write_at, einval, eoverflow, ebusy,
}
use usbdisplay_stack.Uapi.{Update}
use usbdisplay_stack.Kernel.Device.{bytes_per_pixel, Device}
use usbdisplay_stack.Kernel.Damage.{set_damage, Clip}
use usbdisplay_stack.Kernel.Slots.{select_slot}

-- The arguments of usbdisplay_publish: `pixels` is `none` for NULL, and else the memory from the
-- pointer on.
pub record Request : Type 0 where
  pub pixels : Option (List ℕ)
  pub frame_width : ℕ
  pub frame_height : ℕ
  pub stride : ℕ
  pub format : ℕ
  pub clips : List Clip
  pub source : ℕ

-- size_t multiplication
abbrev pub mul_size : ℕ → ℕ → ℕ
mul_size a b = u64 (a * b)

-- What the critical section does with a slot: copy the frame, then announce it.
unfoldable pub commit : Device → ℕ → Request → List ℕ → ℕ → Device
commit d now r pixels slot =
    let frame_bytes = mul_size r.stride r.frame_height in
    let update : Update = record {
      sequence = u64 (d.sequence + 1);
      timestamp_ns = now;
      slot = slot;
      width = r.frame_width;
      height = r.frame_height;
      stride = r.stride;
      format = r.format;
      source = r.source;
      damage_x = 0;
      damage_y = 0;
      damage_width = 0;
      damage_height = 0;
      reserved = 0 ∷ 0 ∷ 0 ∷ 0 ∷ [];
    } in
    record d {
      frame_ring = write_at d.frame_ring (mul_size slot d.slot_bytes) (take frame_bytes pixels);
      sequence = u64 (d.sequence + 1);
      latest_update = set_damage update r.clips;
    }

-- Between mutex_lock and mutex_unlock.
unfoldable pub publish_locked : Device → ℕ → Request → List ℕ → Device × Status
publish_locked d now r pixels =
    let (selected, d') = select_slot d in
    elim selected [
      | none ↦ (d', failure ebusy)
      | some slot ↦ (commit d' now r pixels slot, success)
    ]

-- The memory behind the pointer, which is read only if it is not NULL.
abbrev pub memory : Option (List ℕ) → List ℕ
memory none = []
memory (some pixels) = pixels

abbrev pub is_null : Option (List ℕ) → Bool
is_null none = true
is_null (some pixels) = false

-- The tests in front of the critical section.
unfoldable pub publish_guard : Device → Request → Status
publish_guard d r =
    if is_null r.pixels || bytes_per_pixel r.format == 0
    then failure einval
    else if ltb d.width r.frame_width || ltb d.height r.frame_height
    then failure einval
    else if not (r.frame_height == 0) && ltb (d.slot_bytes / r.frame_height) r.stride
    then failure eoverflow
    else if ltb d.slot_bytes (mul_size r.stride r.frame_height)
    then failure eoverflow
    else success

unfoldable pub publish : Device → ℕ → Request → Device × Status
publish d now r = elim (publish_guard d r) [
  | failure e ↦ (d, failure e)
  | success ↦ publish_locked d now r (memory r.pixels)
]
