-- ===== src/Kernel/Stream/Laws.antt =====
-- kernel/usbdisplay_drv.c: one consumer, readiness, and what a read hands over.
use usbdisplay_stack.Common.{
  ℕ, ◌+◌, ◌*◌, ◌≤◌, ◌<◌, ◌≡◌, refl, ◌∙◌, ◌≢◌, ◌↔◌, Bool, true, false, some, List, [], ◌∷◌, arith,
  if◌then◌else◌, u64, Errno, Status, success, failure, ok, err, ◌then_try◌, ebusy, efault,
}
use usbdisplay_stack.Kernel.Device.{Device, FileContext}
use usbdisplay_stack.Kernel.Publish.{publish, Request}
use usbdisplay_stack.Kernel.Publish.Frames.{IsAnnounced}
use usbdisplay_stack.Kernel.Publish.Laws.{Fits}
use usbdisplay_stack.Kernel.Publish.Ready.{slot_data, frame_data, slot_inside, IsReady}
use usbdisplay_stack.Kernel.Publish.Snapshots.{
  publish-IsReady, publish_geometry, publish_keeps_held, publish_sequence,
}
use usbdisplay_stack.Kernel.Stream.{
  stream_open, stream_release, read_ready, read_locked, stream_read, stream_poll,
}

-- A stream can be opened exactly when no other is open; a refused open changes nothing.
pub stream_open_exclusive :
    (d : Device)
    → ((f : FileContext) → (stream_open true d).1 ≡ ok f → d.consumer_open ≡ 0)
      × (d.consumer_open ≢ 0 → (allocated : Bool) → stream_open allocated d ≡ (d, err ebusy))
unfolding stream_open
stream_open_exclusive d = (λ f e. ground arith, λ ne allocated. ground arith)

-- After a release the same stream can be opened again.
pub stream_open-release :
    (f : FileContext) (d : Device)
    → (g : FileContext) × ((stream_open true (stream_release f d)).1 ≡ ok g)
unfolding stream_open stream_release
stream_open-release f d = (_, refl)

-- poll reports the stream readable exactly when a non-blocking read of enough bytes would not be
-- turned away.
pub stream_poll_iff :
    (f : FileContext) (d : Device) (update_bytes count : ℕ)
    → update_bytes ≤ count
    → (stream_poll f d ≡ true) ↔ (read_ready update_bytes count true f d ≡ success)
unfolding stream_poll read_ready
stream_poll_iff f d update_bytes count h = ground arith

-- Reading makes the stream unreadable until the next frame that is published makes it readable again.
pub stream_poll-read :
    (f : FileContext) (d : Device) (now : ℕ) (r : Request)
    → IsReady d
    → IsAnnounced d
    → Fits d r
    → d.sequence < 18446744073709551616
    → let (d', f', u) = read_locked f d in
      (stream_poll f' d' ≡ false) × (stream_poll f' (publish d' now r).0 ≡ true)
unfolding stream_poll read_locked
stream_poll-read f d now r v a fits h = (ground (arith, a.newest), ground (arith, a.newest, seq))
  where
    d' : Device
    d' = record d { held_slot = some d.latest_update.slot }

    v' : IsReady d'
    v' = record {
      three_slots = v.three_slots;
      ring_bytes = v.ring_bytes;
      small = v.small;
      next_in = v.next_in;
      held_in = a.slot_in;
    }

    fits' : Fits d' r
    fits' = record {
      has_pixels = fits.has_pixels;
      known_format = fits.known_format;
      in_width = fits.in_width;
      in_height = fits.in_height;
      in_slot = fits.in_slot;
    }

    seq : (publish d' now r).0.sequence ≡ u64 (d.sequence + 1)
    seq = publish_sequence d' now r v' fits'

-- Frames that are published one after another, each with its time.
unfoldable pub publish_all : List (ℕ × Request) → Device → Device
publish_all [] d = d
publish_all ((now, r) ∷ requests) d = publish_all requests (publish d now r).0

publish_all_keeps_held :
    (requests : List (ℕ × Request)) (d : Device) (s n : ℕ)
    → IsReady d
    → d.held_slot ≡ some s
    → n ≤ d.slot_bytes
    → slot_data (publish_all requests d) s n ≡ slot_data d s n
unfolding publish_all
publish_all_keeps_held [] d s n v held hn = refl
publish_all_keeps_held ((now, r) ∷ requests) d s n v held hn =
    let (gw, gh, gs, gm, same, co, po) = publish_geometry d v now r in
    publish_all_keeps_held requests (publish d now r).0 s n (publish-IsReady d now r v)
      (same ∙ held) (rw gs hn)
    ∙ publish_keeps_held d now r s n v held hn

slot_bytes-publish_all :
    (requests : List (ℕ × Request)) (d : Device)
    → IsReady d
    → (publish_all requests d).slot_bytes ≡ d.slot_bytes
unfolding publish_all
slot_bytes-publish_all [] d v = refl
slot_bytes-publish_all ((now, r) ∷ requests) d v =
    slot_bytes-publish_all requests (publish d now r).0 (publish-IsReady d now r v)
    ∙ (publish_geometry d v now r).2

-- A read hands over the newest frame as a snapshot: the update lies inside the mapping, and the bytes
-- that it points at stay those of the frame, whatever the producers publish until the next read.
pub read_snapshot :
    (f : FileContext) (d : Device) (requests : List (ℕ × Request))
    → IsReady d
    → IsAnnounced d
    → let (d', f', u) = read_locked f d in
      (u ≡ d.latest_update)
      × (u.slot * d.slot_bytes + u.stride * u.height ≤ d.map_bytes)
      × (frame_data (publish_all requests d') u ≡ frame_data d u)
unfolding read_locked
read_snapshot f d requests v a = (
  refl,
  omega (arith, slot_inside d.latest_update.slot d.slot_bytes a.slot_in, v.three_slots, a.in_slot),
  publish_all_keeps_held requests d' d.latest_update.slot _ v' refl a.in_slot,
)
  where
    d' : Device
    d' = record d { held_slot = some d.latest_update.slot }

    v' : IsReady d'
    v' = record {
      three_slots = v.three_slots;
      ring_bytes = v.ring_bytes;
      small = v.small;
      next_in = v.next_in;
      held_in = a.slot_in;
    }

-- The two ways in which a read ends.
pub read_refused :
    (update_bytes count : ℕ) (nonblock copied : Bool) (before : Device) (waited : Status)
    (f : FileContext) (d : Device) {x : Errno}
    → (read_ready update_bytes count nonblock f before then_try waited) ≡ failure x
    → stream_read update_bytes count nonblock before waited copied f d ≡ (d, f, err x)
unfolding stream_read
read_refused update_bytes count nonblock copied before waited f d e = rw (e, stream_read)

pub read_taken :
    (update_bytes count : ℕ) (nonblock copied : Bool) (before : Device) (waited : Status)
    (f : FileContext) (d : Device)
    → (read_ready update_bytes count nonblock f before then_try waited) ≡ success
    → stream_read update_bytes count nonblock before waited copied f d ≡ (
      record d { held_slot = some d.latest_update.slot },
      record f { held_slot = some d.latest_update.slot; last_sequence = d.latest_update.sequence },
      if copied then ok d.latest_update else err efault,
    )
unfolding read_locked stream_read
read_taken update_bytes count nonblock copied before waited f d e = rw (e, stream_read)
