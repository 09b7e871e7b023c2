-- ===== src/Kernel/Stream.antt =====
-- kernel/usbdisplay_drv.c: the /dev/usbdisplay0 stream: open, release, read, poll, ioctl, mmap.
pub mod Laws
use usbdisplay_stack.Common.{
  ℕ, ◌-◌, Bool, true, false, not, ◌&&◌, ◌||◌, Option, none, some, ltb, ◌==◌, if◌then◌else◌, u32,
  Status, success, failure, Result, ok, err, ◌then_try◌, einval, ebusy, enomem, eagain, efault,
  enotty, eperm,
}
use usbdisplay_stack.Kernel.Device.{Device, FileContext}
use usbdisplay_stack.Uapi.{abi_version, slot_count, DeviceInfo, Update}

-- usbdisplay_stream_open. `allocated` is whether kzalloc returned memory; on success the context is
-- what file->private_data points at.
unfoldable pub stream_open : Bool → Device → Device × Result FileContext
stream_open allocated d =
    if not (d.consumer_open == 0)
    then (d, err ebusy)
    else if not allocated
    then (record d { consumer_open = 0 }, err enomem)
    else (
      record d { consumer_open = 1 },
      ok (record {
        last_sequence = if ltb 0 d.sequence then d.sequence - 1 else 0;
        held_slot = none;
      }),
    )

-- udev->held_slot == context->held_slot
abbrev pub same_slot : Option ℕ → Option ℕ → Bool
same_slot none none = true
same_slot (some a) (some b) = a == b
same_slot _ _ = false

-- usbdisplay_stream_release, for a context that is not NULL
unfoldable pub stream_release : FileContext → Device → Device
stream_release f d = record d {
  held_slot = if same_slot d.held_slot f.held_slot then none else d.held_slot;
  consumer_open = 0;
}

-- The tests of usbdisplay_stream_read before it waits, on the device as it is then.
unfoldable pub read_ready : ℕ → ℕ → Bool → FileContext → Device → Status
read_ready update_bytes count nonblock f d =
    if ltb count update_bytes
    then failure einval
    else if nonblock && d.sequence == f.last_sequence
    then failure eagain
    else success

-- Between mutex_lock and mutex_unlock: the newest update is taken, and its slot held.
unfoldable pub read_locked : FileContext → Device → Device × FileContext × Update
read_locked f d =
    let update = d.latest_update in
    (
      record d { held_slot = some update.slot },
      record f { held_slot = some update.slot; last_sequence = update.sequence },
      update,
    )

-- usbdisplay_stream_read. `before` is the device when the call is made and `d` when the lock is
-- taken: producers run in between. `update_bytes` is sizeof(struct usbdisplay_update), `waited` what
-- wait_event_interruptible returned and `copied` whether copy_to_user took every byte.
unfoldable pub stream_read :
    ℕ
    → ℕ
    → Bool
    → Device
    → Status
    → Bool
    → FileContext
    → Device
    → Device × FileContext × Result Update
stream_read update_bytes count nonblock before waited copied f d =
    elim (read_ready update_bytes count nonblock f before then_try waited) [
      | failure e ↦ (d, f, err e)
      | success ↦
          let (d', f', update) = read_locked f d in
          (d', f', if copied then ok update else err efault)
    ]

-- usbdisplay_stream_poll: whether POLLIN | POLLRDNORM is set
unfoldable pub stream_poll : FileContext → Device → Bool
stream_poll f d = not (d.sequence == f.last_sequence)

-- usbdisplay_stream_ioctl; `get_info` is USBDISPLAY_IOCTL_GET_INFO
unfoldable pub stream_ioctl : ℕ → ℕ → Bool → Device → Result DeviceInfo
stream_ioctl get_info command copied d =
    if not (command == get_info)
    then err enotty
    else if not copied
    then err efault
    else ok (record {
      abi = abi_version;
      width = d.width;
      height = d.height;
      slots = slot_count;
      slot_bytes = u32 d.slot_bytes;
      map_bytes = u32 d.map_bytes;
      reserved0 = 0;
      reserved1 = 0;
      sequence = d.sequence;
    })

-- usbdisplay_stream_mmap; `remapped` is what remap_vmalloc_range returned
unfoldable pub stream_mmap : Bool → ℕ → ℕ → Status → Device → Status
stream_mmap writable requested pgoff remapped d =
    if writable
    then failure eperm
    else if not (requested == d.map_bytes) || not (pgoff == 0)
    then failure einval
    else remapped
