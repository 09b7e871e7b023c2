-- ===== src/Daemon/Contract.antt =====
-- userspace/usb-displayd.c and kernel/usbdisplay_drv.c: the daemon accepts what the kernel announces.
use usbdisplay_stack.Common.{
  ℕ, ◌*◌, ◌/◌, ◌≤◌, ◌<◌, ◌≡◌, sym, ap, ◌∙◌, true, false, ◌||◌, arith, ltb, leb, ◌==◌, u32, u64,
  success, Result, ok, err,
}
use usbdisplay_stack.Daemon.Loop.{validate_update}
use usbdisplay_stack.Kernel.Device.{Device, FileContext}
use usbdisplay_stack.Kernel.Publish.Frames.{IsAnnounced}
use usbdisplay_stack.Kernel.Publish.Ready.{stride_fits}
use usbdisplay_stack.Kernel.Stream.{read_locked, stream_ioctl}
use usbdisplay_stack.Uapi.{abi_version, slot_count, DeviceInfo}

device_info : Device → DeviceInfo
device_info d = record {
  abi = abi_version;
  width = d.width;
  height = d.height;
  slots = slot_count;
  slot_bytes = u32 d.slot_bytes;
  map_bytes = u32 d.map_bytes;
  reserved0 = 0;
  reserved1 = 0;
  sequence = d.sequence;
}

answered : DeviceInfo → Result DeviceInfo → DeviceInfo
answered info (ok i) = i
answered info (err e) = info

ioctl_info :
    (d : Device) (info : DeviceInfo) (get_info : ℕ)
    → stream_ioctl get_info get_info true d ≡ ok info
    → info ≡ device_info d
unfolding stream_ioctl device_info answered
ioctl_info d info get_info e =
    let same : (get_info == get_info) ≡ true = ground arith in
    let known : stream_ioctl get_info get_info true d ≡ ok (device_info d) = rw same in
    ap (answered info) (sym e ∙ known)

accepts :
    (d : Device)
    → u32 d.slot_bytes ≡ d.slot_bytes
    → IsAnnounced d
    → 0 < d.latest_update.width
    → 0 < d.latest_update.height
    → validate_update (device_info d) d.latest_update ≡ success
unfolding validate_update device_info
accepts d word a w h =
    let u = d.latest_update in
    let fits = (stride_fits u.stride u.height d.slot_bytes h).1 a.in_slot in
    let inside : (leb slot_count u.slot
          || u.width == 0
          || u.height == 0
          || ltb d.width u.width
          || ltb d.height u.height)
        ≡ false =
      ground (arith, a.slot_in, a.in_width, a.in_height, w, h) in
    let divided : ltb (u32 d.slot_bytes / u.height) u.stride ≡ false =
      ap (λ n. ltb (n / u.height) u.stride) word ∙ not_lt fits in
    let product : ltb (u32 d.slot_bytes) (u64 (u.stride * u.height)) ≡ false =
      ap (λ n. ltb n (u64 (u.stride * u.height))) word ∙ not_lt (omega (arith, a.in_slot)) in
    rw inside (rw divided (rw product))
  where
    not_lt : {m n : ℕ} → m ≤ n → ltb n m ≡ false
    not_lt q = ground arith

-- An update that the kernel announces and the daemon reads is accepted against the information that
-- the kernel has given, unless it has no pixels: the slot size must fit the word it travels in.
pub validate_update-read_locked :
    (f : FileContext) (d : Device) (info : DeviceInfo) (get_info : ℕ)
    → stream_ioctl get_info get_info true d ≡ ok info
    → u32 d.slot_bytes ≡ d.slot_bytes
    → IsAnnounced d
    → 0 < d.latest_update.width
    → 0 < d.latest_update.height
    → validate_update info (read_locked f d).2 ≡ success
unfolding read_locked
validate_update-read_locked f d info get_info e word a w h =
    ap (λ i. validate_update i d.latest_update) (ioctl_info d info get_info e)
    ∙ accepts d word a w h
