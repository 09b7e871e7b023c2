-- ===== src/Kernel/Slots.antt =====
-- kernel/usbdisplay_drv.c: usbdisplay_select_slot, which picks the slot of the next frame.
use usbdisplay_stack.Common.{
  ℕ, zero, suc, ◌+◌, ◌%◌, ◌<◌, ◌≡◌, Bool, false, Option, none, some, arith, ◌==◌, if◌then◌else◌,
  u32,
}
use usbdisplay_stack.Uapi.{slot_count}
use usbdisplay_stack.Kernel.Device.{Device}

-- (int)slot == udev->held_slot, with -1 for no slot
abbrev pub is_held : Option ℕ → ℕ → Bool
is_held none slot = false
is_held (some h) slot = slot == h

-- The `for` loop: `attempts` rounds are left, and `attempt` counts those made.
unfoldable pub select_from : ℕ → ℕ → Device → Option ℕ × Device
select_from zero attempt d = (none, d)
select_from (suc attempts) attempt d =
    let slot = u32 (d.next_slot + attempt) % slot_count in
    let rest = select_from attempts (attempt + 1) d in
    if is_held d.held_slot slot
    then rest
    else (some slot, record d { next_slot = u32 (slot + 1) % slot_count })

unfoldable pub select_slot : Device → Option ℕ × Device
unfolding select_from
select_slot d = select_from slot_count 0 d

-- The slot that the loop finds: the one of `next_slot`, or the one behind it if that is held.
abbrev pub chosen_slot : Device → ℕ
chosen_slot d = if is_held d.held_slot d.next_slot then (d.next_slot + 1) % 3 else d.next_slot

-- With three slots and at most one of them held the loop always finds a slot, within two rounds; it
-- sets `next_slot` behind that slot and changes nothing else.
pub select_slot_lem :
    (d : Device)
    → d.next_slot < 3
    → select_slot d ≡ (some (chosen_slot d), record d { next_slot = (chosen_slot d + 1) % 3 })
unfolding select_slot
select_slot_lem d h = ground arith

-- That slot is one of the three, and not the one that the consumer holds.
pub chosen_slot-free :
    (d : Device)
    → d.next_slot < 3
    → (chosen_slot d < 3) × (is_held d.held_slot (chosen_slot d) ≡ false)
chosen_slot-free d h = ground arith
