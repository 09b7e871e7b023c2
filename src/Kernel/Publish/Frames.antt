-- ===== src/Kernel/Publish/Frames.antt =====
-- kernel/usbdisplay_drv.c: what usbdisplay_publish does to the frames in the ring.
use usbdisplay_stack.Common.{
  ℕ, ◌+◌, ◌*◌, ◌%◌, ◌≤◌, ◌<◌, ◌≡◌, refl, sym, ◌∙◌, Option, List, arith, u64, length, take,
  take-write_at,
}
use usbdisplay_stack.Kernel.Damage.Laws.{set_damage-DamageInFrame, set_damage_keeps, DamageInFrame}
use usbdisplay_stack.Kernel.Device.{bytes_per_pixel, Device}
use usbdisplay_stack.Kernel.Publish.{commit, memory, Request}
use usbdisplay_stack.Kernel.Publish.Laws.{SameGeometry, Fits}
use usbdisplay_stack.Kernel.Publish.Ready.{
  frame_data, slot_inside, with_slot, with_consumer, no_wrap, IsReady,
}
use usbdisplay_stack.Kernel.Slots.{chosen_slot, chosen_slot-free}

-- What holds of the newest update once a frame was published: the daemon can trust its fields, and
-- the next frame goes to the slot behind it.
pub record IsAnnounced (d : Device) : Type 0 where
  pub slot_in : d.latest_update.slot < 3
  pub newest : d.latest_update.sequence ≡ d.sequence
  pub behind : d.next_slot ≡ (d.latest_update.slot + 1) % 3
  pub known_format : 0 < bytes_per_pixel d.latest_update.format
  pub in_width : d.latest_update.width ≤ d.width
  pub in_height : d.latest_update.height ≤ d.height
  pub in_slot : d.latest_update.stride * d.latest_update.height ≤ d.slot_bytes
  pub damage : DamageInFrame d.latest_update

pub with_consumer-IsAnnounced :
    (d : Device) (held : Option ℕ) (opens : ℕ)
    → IsAnnounced d
    → IsAnnounced (with_consumer d held opens)
with_consumer-IsAnnounced d held opens a = record {
  slot_in = a.slot_in;
  newest = a.newest;
  behind = a.behind;
  known_format = a.known_format;
  in_width = a.in_width;
  in_height = a.in_height;
  in_slot = a.in_slot;
  damage = a.damage;
}

-- The fields of the update that a commit announces.
pub commit_update :
    (d : Device) (now : ℕ) (r : Request) (pixels : List ℕ) (slot : ℕ)
    → let d' = commit d now r pixels slot in
      let u = d'.latest_update in
      (d'.sequence ≡ u64 (d.sequence + 1))
      × (u.sequence ≡ u64 (d.sequence + 1))
      × (u.timestamp_ns ≡ now)
      × (u.slot ≡ slot)
      × (u.width ≡ r.frame_width)
      × (u.height ≡ r.frame_height)
      × (u.stride ≡ r.stride)
      × (u.format ≡ r.format)
      × (u.source ≡ r.source)
unfolding commit
commit_update d now r pixels slot =
    let (a, b, c, e, f, g, h, k) = set_damage_keeps _ r.clips in (refl, a, b, c, e, f, g, h, k)

pub commit_keeps :
    (d : Device) (now : ℕ) (r : Request) (pixels : List ℕ) (slot : ℕ)
    → ((commit d now r pixels slot).next_slot ≡ d.next_slot)
      × SameGeometry d (commit d now r pixels slot)
unfolding commit
commit_keeps d now r pixels slot = (refl, (refl, refl, refl, refl, refl, refl, refl))

commit_damage :
    (d : Device) (now : ℕ) (r : Request) (pixels : List ℕ) (slot : ℕ)
    → DamageInFrame (commit d now r pixels slot).latest_update
unfolding commit
commit_damage d now r pixels slot = set_damage-DamageInFrame _ r.clips

-- The announced slot holds the frame that was handed in.
pub commit_frame :
    (d : Device) (v : IsReady d) (now : ℕ) (r : Request) (pixels : List ℕ) (slot : ℕ)
    → slot < 3
    → r.stride * r.frame_height ≤ d.slot_bytes
    → r.stride * r.frame_height ≤ length pixels
    → let d' = commit d now r pixels slot in
      frame_data d' d'.latest_update ≡ take (r.stride * r.frame_height) pixels
unfolding commit
commit_frame d v now r pixels slot hs fits long =
    let (q, q', t, s, w, hh, st, fm, src) = commit_update d now r pixels slot in
    let (place, bytes) = no_wrap d v now r pixels slot hs fits in
    rw (s, st, hh)
      (rw (place, bytes)
        (take-write_at d.frame_ring (slot * d.slot_bytes) pixels (r.stride * r.frame_height)
          (omega (arith, slot_inside slot d.slot_bytes hs, v.three_slots, v.ring_bytes)) long))

-- The update that is announced after a frame that fits is one that the daemon can rely on.
pub commit-IsAnnounced :
    (d : Device) (now : ℕ) (r : Request)
    → Fits d r
    → d.next_slot < 3
    → IsAnnounced (commit (with_slot d) now r (memory r.pixels) (chosen_slot d))
commit-IsAnnounced d now r f h =
    let pixels = memory r.pixels in
    let slot = chosen_slot d in
    let (q, q', t, s, w, hh, st, fm, src) = commit_update (with_slot d) now r pixels slot in
    let (next, (gw, gh, gs, gm, held, co, po)) = commit_keeps (with_slot d) now r pixels slot in
    record {
      slot_in = rw s (chosen_slot-free d h).0;
      newest = q' ∙ sym q;
      behind = rw (next, s);
      known_format = rw fm f.known_format;
      in_width = rw (w, gw) f.in_width;
      in_height = rw (hh, gh) f.in_height;
      in_slot = rw (st, hh, gs) f.in_slot;
      damage = commit_damage (with_slot d) now r pixels slot;
    }
