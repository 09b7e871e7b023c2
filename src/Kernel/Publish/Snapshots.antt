-- ===== src/Kernel/Publish/Snapshots.antt =====
-- kernel/usbdisplay_drv.c: the promises of usbdisplay_publish to the consumer, on every branch.
use usbdisplay_stack.Common.{
  ℕ, ◌+◌, ◌*◌, ◌≤◌, ◌<◌, ◌≡◌, refl, ap, ◌≢◌, inl, inr, Option, none, some, arith, u64, success,
  length, take,
}
use usbdisplay_stack.Kernel.Device.{Device}
use usbdisplay_stack.Kernel.Publish.{commit, memory, publish, Request}
use usbdisplay_stack.Kernel.Publish.Frames.{
  commit_update, commit_keeps, commit_frame, commit-IsAnnounced, IsAnnounced,
}
use usbdisplay_stack.Kernel.Publish.Laws.{SameGeometry, publish_of_Fits, publish_accepts_iff, Fits}
use usbdisplay_stack.Kernel.Publish.Ready.{
  SlotIn, slot_data, frame_data, with_slot, with_slot-IsReady, commit-IsReady, commit_other_slot,
  IsReady,
}
use usbdisplay_stack.Kernel.Slots.{chosen_slot, chosen_slot-free}

-- Either the guard refuses and nothing happens, or the frame is committed to the chosen slot.
data Outcome (d : Device) (now : ℕ) (r : Request) : Type 0 where
  refused : (publish d now r).0 ≡ d → Outcome d now r
  committed :
      Fits d r
      → (publish d now r).0 ≡ commit (with_slot d) now r (memory r.pixels) (chosen_slot d)
      → Outcome d now r

outcome : (d : Device) (v : IsReady d) (now : ℕ) (r : Request) → Outcome d now r
outcome d v now r = elim (publish_accepts_iff d v now r) [
  | inl (f, e) ↦ committed f (ap (λ p. p.0) (publish_of_Fits d v now r f))
  | inr (unfit, (x, free, e)) ↦ refused (ap (λ p. p.0) e)
]

-- The ring keeps its geometry and the mode, whatever is published.
pub publish-IsReady : (d : Device) (now : ℕ) (r : Request) → IsReady d → IsReady (publish d now r).0
publish-IsReady d now r v = elim (outcome d v now r) [
  | refused e ↦ rw e v
  | committed f e ↦ rw e (
      commit-IsReady (with_slot d) (with_slot-IsReady d v) now r (memory r.pixels) (chosen_slot d)
        (chosen_slot-free d v.next_in).0 f.in_slot)
]

pub publish_geometry :
    (d : Device) (v : IsReady d) (now : ℕ) (r : Request) → SameGeometry d (publish d now r).0
publish_geometry d v now r = elim (outcome d v now r) [
  | refused e ↦ rw e (refl, refl, refl, refl, refl, refl, refl)
  | committed f e ↦ rw e (commit_keeps (with_slot d) now r (memory r.pixels) (chosen_slot d)).1
]

-- A frame that fits and whose memory is as long as it claims is announced as the newest update,
-- with the next sequence number and the time, size, stride, format and source of the request, and
-- the bytes that the update points at are the bytes of the frame.
pub publish_announces :
    (d : Device) (now : ℕ) (r : Request)
    → IsReady d
    → Fits d r
    → r.stride * r.frame_height ≤ length (memory r.pixels)
    → let (d', result) = publish d now r in
      let u = d'.latest_update in
      (result ≡ success)
      × IsAnnounced d'
      × (d'.sequence ≡ u64 (d.sequence + 1))
      × (u.timestamp_ns ≡ now)
      × (u.width ≡ r.frame_width)
      × (u.height ≡ r.frame_height)
      × (u.stride ≡ r.stride)
      × (u.format ≡ r.format)
      × (u.source ≡ r.source)
      × (frame_data d' u ≡ take (r.stride * r.frame_height) (memory r.pixels))
publish_announces d now r v f long =
    let pixels = memory r.pixels in
    let slot = chosen_slot d in
    let v' = with_slot-IsReady d v in
    let (q, q', t, s, w, hh, st, fm, src) = commit_update (with_slot d) now r pixels slot in
    let slot_in = (chosen_slot-free d v.next_in).0 in
    rw (publish_of_Fits d v now r f) (
      refl,
      commit-IsAnnounced d now r f v.next_in,
      q,
      t,
      w,
      hh,
      st,
      fm,
      src,
      commit_frame (with_slot d) v' now r pixels slot slot_in f.in_slot long,
    )

-- No slot but the chosen one is written.
publish_other_slot :
    (d : Device) (v : IsReady d) (now : ℕ) (r : Request) (s n : ℕ)
    → s < 3
    → s ≢ chosen_slot d
    → n ≤ d.slot_bytes
    → slot_data (publish d now r).0 s n ≡ slot_data d s n
publish_other_slot d v now r s n hs ne hn = elim (outcome d v now r) [
  | refused e ↦ rw e
  | committed f e ↦ rw e (
      commit_other_slot (with_slot d) (with_slot-IsReady d v) now r (memory r.pixels)
        (chosen_slot d) (chosen_slot-free d v.next_in).0 f.in_slot s n hs ne hn)
]

held_not_chosen : (d : Device) (s : ℕ) → d.next_slot < 3 → d.held_slot ≡ some s → s ≢ chosen_slot d
held_not_chosen d s h e q = ground (arith, chosen_slot-free d h)

held-lt : (h : Option ℕ) (s : ℕ) → SlotIn h → h ≡ some s → s < 3
held-lt none s v e = absurd cc
held-lt (some t) s v e = ground arith

-- The slot that the consumer holds keeps every byte, whatever is published.
pub publish_keeps_held :
    (d : Device) (now : ℕ) (r : Request) (s n : ℕ)
    → IsReady d
    → d.held_slot ≡ some s
    → n ≤ d.slot_bytes
    → slot_data (publish d now r).0 s n ≡ slot_data d s n
publish_keeps_held d now r s n v held hn =
    publish_other_slot d v now r s n (held-lt d.held_slot s v.held_in held)
      (held_not_chosen d s v.next_in held) hn

-- The newest frame is not overwritten by the one that follows it: a consumer that reads between the
-- two still finds it whole.
pub publish_keeps_announced :
    (d : Device) (now : ℕ) (r : Request)
    → IsReady d
    → IsAnnounced d
    → frame_data (publish d now r).0 d.latest_update ≡ frame_data d d.latest_update
publish_keeps_announced d now r v a =
    publish_other_slot d v now r d.latest_update.slot _ a.slot_in apart a.in_slot
  where
    apart : d.latest_update.slot ≢ chosen_slot d
    apart q = ground (arith, a.behind, a.slot_in)

-- Once a frame was announced there always is one.
pub publish-IsAnnounced :
    (d : Device) (now : ℕ) (r : Request)
    → IsReady d
    → IsAnnounced d
    → IsAnnounced (publish d now r).0
publish-IsAnnounced d now r v a = elim (outcome d v now r) [
  | refused e ↦ rw e a
  | committed f e ↦ rw e (commit-IsAnnounced d now r f v.next_in)
]

-- A frame that fits takes the next sequence number.
pub publish_sequence :
    (d : Device) (now : ℕ) (r : Request)
    → IsReady d
    → Fits d r
    → (publish d now r).0.sequence ≡ u64 (d.sequence + 1)
publish_sequence d now r v f =
    rw (publish_of_Fits d v now r f)
      (commit_update (with_slot d) now r (memory r.pixels) (chosen_slot d)).0
