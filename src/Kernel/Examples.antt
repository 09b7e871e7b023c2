-- ===== src/Kernel/Examples.antt =====
-- kernel/usbdisplay_drv.c on a small device: runs, and the theorems at concrete inputs.
use native.Mathlib.Nat.{lt-div-mul-add, div-mul-le_self}
use usbdisplay_stack.Common.{
  ℕ, ◌+◌, ◌-◌, ◌*◌, ◌/◌, ◌≤◌, ◌<◌, ◌≡◌, refl, ◌≢◌, ◌↔◌, ◌⊎◌, inl, Bool, true, false, none, some, [],
  ◌∷◌, arith, Errno, success, failure, ok, err, replicate, ebusy,
}
use usbdisplay_stack.Kernel.Damage.{merge_clips, set_damage}
use usbdisplay_stack.Kernel.Damage.Laws.{
  InDamage, set_damage-DamageInFrame, set_damage_covers, DamageInFrame,
}
use usbdisplay_stack.Kernel.Device.{bytes_per_pixel, Device, FileContext}
use usbdisplay_stack.Kernel.Fbdev.{fbdev_publish, fbdev_open, fbdev_release, register_fbdev, FbInfo}
use usbdisplay_stack.Kernel.Fbdev.Laws.{fbdev_publish_lem, fbdev_release-open}
use usbdisplay_stack.Kernel.Probe.{no_update, probe, Platform}
use usbdisplay_stack.Kernel.Probe.Laws.{probe_lem, InfoMatches}
use usbdisplay_stack.Kernel.Publish.{commit, publish_locked, publish_guard, publish, Request}
use usbdisplay_stack.Kernel.Publish.Frames.{IsAnnounced}
use usbdisplay_stack.Kernel.Publish.Laws.{publish_accepts_iff, Fits}
use usbdisplay_stack.Kernel.Publish.Ready.{slot_data, frame_data, IsReady}
use usbdisplay_stack.Kernel.Publish.Snapshots.{
  publish_announces, publish_keeps_held, publish_keeps_announced,
}
use usbdisplay_stack.Kernel.Slots.{select_slot}
use usbdisplay_stack.Kernel.Stream.{
  stream_open, stream_release, read_ready, read_locked, stream_poll,
}
use usbdisplay_stack.Kernel.Stream.Laws.{
  stream_open_exclusive, stream_poll_iff, stream_poll-read, publish_all, read_snapshot,
}
use usbdisplay_stack.Kernel.System.{
  opened, Reach-IsSound, System, Reach, IsSound, produce, open_stream, close_stream, here, next,
}
use usbdisplay_stack.Uapi.{source_initial, source_fbdev, Update}

abbrev empty_ring : Device
empty_ring = record {
  width = 2;
  height = 1;
  frame_ring = replicate 24 0;
  slot_bytes = 8;
  map_bytes = 24;
  sequence = 0;
  next_slot = 0;
  held_slot = none;
  consumer_open = 0;
  producer_open = 0;
  latest_update = no_update;
}

abbrev first_frame : Request
first_frame = record {
  pixels = some (1 ∷ 2 ∷ 3 ∷ 4 ∷ 5 ∷ 6 ∷ 7 ∷ 8 ∷ []);
  frame_width = 2;
  frame_height = 1;
  stride = 8;
  format = 2;
  clips = record { x1 = 1; y1 = 0; x2 = 5; y2 = 1 } ∷ [];
  source = 1;
}

abbrev second_frame : Request
second_frame = record first_frame { pixels = some (replicate 8 9); clips = [] }

abbrev first_update : Update
first_update = record {
  sequence = 1;
  timestamp_ns = 50;
  slot = 0;
  width = 2;
  height = 1;
  stride = 8;
  format = 2;
  source = 1;
  damage_x = 1;
  damage_y = 0;
  damage_width = 1;
  damage_height = 1;
  reserved = 0 ∷ 0 ∷ 0 ∷ 0 ∷ [];
}

-- The device behind the first frame, held by a reader.
abbrev pub one_frame : Device
one_frame = record empty_ring {
  frame_ring = 1 ∷ 2 ∷ 3 ∷ 4 ∷ 5 ∷ 6 ∷ 7 ∷ 8 ∷ replicate 16 0;
  sequence = 1;
  next_slot = 1;
  held_slot = some 0;
  consumer_open = 1;
  latest_update = first_update;
}

abbrev pub reader : FileContext
reader = record { last_sequence = 1; held_slot = some 0 }

-- The first frame goes to slot 0, and its damage is cut to the frame.
publish-first :
    publish empty_ring 50 first_frame
    ≡ (record one_frame { held_slot = none; consumer_open = 0 }, success)
unfolding publish publish_guard publish_locked commit bytes_per_pixel select_slot set_damage
    merge_clips
publish-first = refl

empty_ring-IsReady : IsReady empty_ring
empty_ring-IsReady = omega arith

one_frame-IsReady : IsReady one_frame
one_frame-IsReady = omega arith

first_frame-Fits : Fits empty_ring first_frame
unfolding bytes_per_pixel
first_frame-Fits = record {
  has_pixels = refl;
  known_format = omega arith;
  in_width = omega arith;
  in_height = omega arith;
  in_slot = omega arith;
}

second_frame-Fits : Fits one_frame second_frame
unfolding bytes_per_pixel
second_frame-Fits = record {
  has_pixels = refl;
  known_format = omega arith;
  in_width = omega arith;
  in_height = omega arith;
  in_slot = omega arith;
}

pub one_frame-IsAnnounced : IsAnnounced one_frame
unfolding bytes_per_pixel
one_frame-IsAnnounced = omega arith

set_damage_covers_example : InDamage 1 0 (set_damage first_update first_frame.clips)
set_damage_covers_example =
    set_damage_covers first_update first_frame.clips 1 0 (omega arith) (omega arith)
      (inl (omega arith))

set_damage-DamageInFrame_example : DamageInFrame (set_damage first_update first_frame.clips)
set_damage-DamageInFrame_example = set_damage-DamageInFrame first_update first_frame.clips

publish_accepts_iff_example :
    (Fits empty_ring first_frame × ((publish empty_ring 50 first_frame).1 ≡ success))
    ⊎ (¬ Fits empty_ring first_frame
        × ((e : Errno) × (e ≢ ebusy)
            × (publish empty_ring 50 first_frame ≡ (empty_ring, failure e))))
publish_accepts_iff_example = publish_accepts_iff empty_ring empty_ring-IsReady 50 first_frame

publish_announces_example :
    let (d', result) = publish empty_ring 50 first_frame in
    let u = d'.latest_update in
    (result ≡ success)
    × IsAnnounced d'
    × (d'.sequence ≡ 1)
    × (u.timestamp_ns ≡ 50)
    × (u.width ≡ 2)
    × (u.height ≡ 1)
    × (u.stride ≡ 8)
    × (u.format ≡ 2)
    × (u.source ≡ 1)
    × (frame_data d' u ≡ 1 ∷ 2 ∷ 3 ∷ 4 ∷ 5 ∷ 6 ∷ 7 ∷ 8 ∷ [])
publish_announces_example =
    publish_announces empty_ring 50 first_frame empty_ring-IsReady first_frame-Fits (omega arith)

publish_keeps_held_example :
    slot_data (publish one_frame 60 second_frame).0 0 8 ≡ 1 ∷ 2 ∷ 3 ∷ 4 ∷ 5 ∷ 6 ∷ 7 ∷ 8 ∷ []
publish_keeps_held_example =
    publish_keeps_held one_frame 60 second_frame 0 8 one_frame-IsReady refl (omega arith)

publish_keeps_announced_example :
    frame_data (publish one_frame 60 second_frame).0 first_update
    ≡ 1 ∷ 2 ∷ 3 ∷ 4 ∷ 5 ∷ 6 ∷ 7 ∷ 8 ∷ []
publish_keeps_announced_example =
    publish_keeps_announced one_frame 60 second_frame one_frame-IsReady one_frame-IsAnnounced

read_snapshot_example :
    let (d', f', u) = read_locked reader one_frame in
    (u ≡ first_update)
    × (u.slot * 8 + u.stride * u.height ≤ 24)
    × (frame_data (publish_all ((60, second_frame) ∷ (70, second_frame) ∷ []) d') u
        ≡ 1 ∷ 2 ∷ 3 ∷ 4 ∷ 5 ∷ 6 ∷ 7 ∷ 8 ∷ [])
unfolding read_locked
read_snapshot_example =
    read_snapshot reader one_frame ((60, second_frame) ∷ (70, second_frame) ∷ []) one_frame-IsReady
      one_frame-IsAnnounced

stream_poll_iff_example :
    (stream_poll reader one_frame ≡ true) ↔ (read_ready 80 80 true reader one_frame ≡ success)
stream_poll_iff_example = stream_poll_iff reader one_frame 80 80 (omega arith)

stream_poll-read_example :
    let (d', f', u) = read_locked reader one_frame in
    (stream_poll f' d' ≡ false) × (stream_poll f' (publish d' 60 second_frame).0 ≡ true)
stream_poll-read_example =
    stream_poll-read reader one_frame 60 second_frame one_frame-IsReady one_frame-IsAnnounced
      second_frame-Fits (omega arith)

stream_open_exclusive_example :
    ((f : FileContext) → (stream_open true one_frame).1 ≡ ok f → one_frame.consumer_open ≡ 0)
    × (one_frame.consumer_open ≢ 0
        → (allocated : Bool) → stream_open allocated one_frame ≡ (one_frame, err ebusy))
stream_open_exclusive_example = stream_open_exclusive one_frame

abbrev running : System
running = record { device = one_frame; files = reader ∷ [] }

running-IsSound : IsSound running
running-IsSound = record {
  ready = one_frame-IsReady;
  announced = one_frame-IsAnnounced;
  counted = refl;
  held = refl;
}

-- The reader is closed while a frame is published, and another one opens the stream.
abbrev handover :
    Reach running
      (opened [] (stream_open true (stream_release reader (publish one_frame 60 second_frame).0)))
handover =
    next
      (next (next here (produce running 60 second_frame)) (
        close_stream (record running { device = (publish one_frame 60 second_frame).0 }) [] []
          reader refl))
      (open_stream
        (record {
          device = stream_release reader (publish one_frame 60 second_frame).0;
          files = [];
        })
        true)

Reach-IsSound_example :
    IsSound
      (opened [] (stream_open true (stream_release reader (publish one_frame 60 second_frame).0)))
Reach-IsSound_example = Reach-IsSound running-IsSound handover

round_up : ℕ → ℕ → ℕ
round_up x a = (x + a - 1) / a * a

round_up_ge : (x a : ℕ) → 0 < a → x ≤ round_up x a
unfolding round_up
round_up_ge x a h = omega (arith, lt-div-mul-add {a = x + a - 1} h)

round_up_lt : (x a : ℕ) → 0 < a → round_up x a < x + a
unfolding round_up
round_up_lt x a h = omega (arith, div-mul-le_self (x + a - 1) a)

abbrev four_k_pages : Platform
four_k_pages = record {
  align = round_up;
  page_size = 4096;
  align_ge = round_up_ge;
  align_lt = round_up_lt;
  page_pos = omega arith;
  page_small = omega arith;
}

probe_lem_example :
    (d : Device) × (probe four_k_pages true true (success ∷ success ∷ []) true 7 1920 1080 ≡ ok d)
    × IsReady d
    × IsAnnounced d
    × InfoMatches d
    × (d.width ≡ 1920)
    × (d.height ≡ 1080)
    × (d.consumer_open ≡ 0)
    × (d.held_slot ≡ none)
    × (d.latest_update.width ≡ 1920)
    × (d.latest_update.height ≡ 1080)
    × (d.latest_update.stride ≡ 7680)
    × (d.latest_update.format ≡ 2)
    × (d.latest_update.source ≡ source_initial)
    × (frame_data d d.latest_update ≡ replicate (1920 * 4 * 1080) 0)
probe_lem_example =
    probe_lem four_k_pages (success ∷ success ∷ []) 7 1920 1080 (omega arith) (omega arith)
      (omega arith) (omega arith) refl

abbrev screen : FbInfo
screen = record {
  screen = (register_fbdev four_k_pages 2 1).screen;
  line_length = (register_fbdev four_k_pages 2 1).line_length;
  smem_len = 4096;
  screen_buffer = replicate 8 3;
  pseudo_palette = replicate 16 0;
}

fbdev_publish_lem_example :
    let (d', result) = fbdev_publish screen 60 one_frame in
    (result ≡ success)
    × (d'.latest_update.width ≡ 2)
    × (d'.latest_update.height ≡ 1)
    × (d'.latest_update.stride ≡ 8)
    × (d'.latest_update.format ≡ 2)
    × (d'.latest_update.source ≡ source_fbdev)
    × (frame_data d' d'.latest_update ≡ replicate 8 3)
fbdev_publish_lem_example =
    fbdev_publish_lem four_k_pages 2 1 screen 60 one_frame (omega arith) refl refl (omega arith)
      refl refl (omega arith) one_frame-IsReady

fbdev_release-open_example : (fbdev_release 1 (fbdev_open 1 one_frame).0).0.producer_open ≡ 0
fbdev_release-open_example = fbdev_release-open 1 one_frame (omega arith)
