-- ===== src/Daemon/Loop.antt =====
-- userspace/usb-displayd.c: validate_update and the loop of run_loop.
pub mod Laws
pub mod Submitted
use usbdisplay_stack.Common.{
  ℕ, ◌+◌, ◌-◌, ◌*◌, ◌/◌, Bool, true, ◌&&◌, ◌||◌, Option, none, some, List, [], ◌∷◌, ◌++◌, ltb, leb,
  ◌==◌, if◌then◌else◌, u32, u64, Errno, Status, success, failure, eoverflow, eproto, eio,
}
use usbdisplay_stack.Uapi.{format_xrgb8888, source_initial, DeviceInfo, Update}

unfoldable pub validate_update : DeviceInfo → Update → Status
validate_update info u =
    if leb info.slots u.slot
      || u.width == 0
      || u.height == 0
      || ltb info.width u.width
      || ltb info.height u.height
    then failure eproto
    else if ltb (info.slot_bytes / u.height) u.stride
    then failure eoverflow
    else if ltb info.slot_bytes (u64 (u.stride * u.height))
    then failure eoverflow
    else success

-- Where the pixels of a frame are: the splash of the daemon, or an offset into the mapping.
pub data Pixels : Type 0 where
  splash : Pixels
  mapped : ℕ → Pixels

-- struct usbdisplay_frame, without the size of the structure.
pub record Frame : Type 0 where
  pub pixels : Pixels
  pub bytes : ℕ
  pub sequence : ℕ
  pub timestamp_ns : ℕ
  pub width : ℕ
  pub height : ℕ
  pub stride : ℕ
  pub format : ℕ
  pub source : ℕ
  pub damage_x : ℕ
  pub damage_y : ℕ
  pub damage_width : ℕ
  pub damage_height : ℕ

-- The variables of the loop. `pinned` is the slot of the update that was read last, which the kernel
-- holds back for its reader, and `submitted` is every frame that the backend has accepted, with the
-- slot that was pinned then, oldest first.
pub record Loop : Type 0 where
  pub frame : Frame
  pub frame_valid : Bool
  pub pending_update : Option Update
  pub last_submit_ns : ℕ
  pub startup_hold_until_ns : ℕ
  pub pinned : Option ℕ
  pub submitted : List (Option ℕ × Frame)

-- The frame of the splash, which usbdisplay_splash_render has drawn into `splash_bytes` bytes.
unfoldable pub splash_frame_of : DeviceInfo → ℕ → ℕ → Frame
splash_frame_of info splash_bytes now_ns = record {
  pixels = splash;
  bytes = splash_bytes;
  sequence = 0;
  timestamp_ns = now_ns;
  width = info.width;
  height = info.height;
  stride = u32 (info.width * 4);
  format = format_xrgb8888;
  source = source_initial;
  damage_x = 0;
  damage_y = 0;
  damage_width = info.width;
  damage_height = info.height;
}

abbrev pub startup_splash_hold_ns : ℕ
startup_splash_hold_ns = 2000000000

-- The variables once the backend has accepted the splash at `now_ns`.
unfoldable pub start_loop : Frame → Bool → ℕ → Loop
start_loop splash_frame physical now_ns = record {
  frame = splash_frame;
  frame_valid = true;
  pending_update = none;
  last_submit_ns = now_ns;
  startup_hold_until_ns = if physical then u64 (now_ns + startup_splash_hold_ns) else 0;
  pinned = none;
  submitted = (none, splash_frame) ∷ [];
}

-- What read answers, and what poll answers.
pub data Input : Type 0 where
  interrupted : Input
  unreadable : Errno → Input
  short : Input
  update : Update → Input

pub data Event : Type 0 where
  signalled : Event
  broken : Errno → Event
  quiet : Event
  readable : Input → Event
  hung_up : Event

-- One pass of the loop: what the poll brings, what the clock shows behind it, behind the submit and
-- behind the refresh, and what the backend answers.
pub record Pass : Type 0 where
  pub event : Event
  pub now_ns : ℕ
  pub submit : Status
  pub submit_ns : ℕ
  pub refresh : Status
  pub refresh_ns : ℕ
  pub tick : Status

-- The part of the loop up to the clock: an update is checked, and then a frame of the splash takes
-- effect at once while any other update waits.
unfoldable pub take_update : DeviceInfo → Frame → Update → Loop → Loop × Status
take_update info splash_frame u l =
    let l' = record l { pinned = some u.slot } in
    let shown = record l' { pending_update = none; frame = splash_frame } in
    let waiting = record l' { pending_update = some u } in
    elim (validate_update info u) [
      | failure e ↦ (l', failure e)
      | success ↦ (if u.source == source_initial then shown else waiting, success)
    ]

unfoldable pub receive : DeviceInfo → Frame → Event → Loop → Loop × Status
receive info splash_frame signalled l = (l, success)
receive info splash_frame (broken e) l = (l, failure e)
receive info splash_frame quiet l = (l, success)
receive info splash_frame (readable interrupted) l = (l, success)
receive info splash_frame (readable (unreadable e)) l = (l, failure e)
receive info splash_frame (readable short) l = (l, failure eproto)
receive info splash_frame (readable (update u)) l = take_update info splash_frame u l
receive info splash_frame hung_up l = (l, failure eio)

-- The frame of an update; behind the splash all of it is damaged.
unfoldable pub frame_of : DeviceInfo → Update → ℕ → Frame
frame_of info u previous_source =
    let whole = previous_source == source_initial in
    record {
      pixels = mapped (u.slot * info.slot_bytes);
      bytes = u64 (u.stride * u.height);
      sequence = u.sequence;
      timestamp_ns = u.timestamp_ns;
      width = u.width;
      height = u.height;
      stride = u.stride;
      format = u.format;
      source = u.source;
      damage_x = if whole then 0 else u.damage_x;
      damage_y = if whole then 0 else u.damage_y;
      damage_width = if whole then u.width else u.damage_width;
      damage_height = if whole then u.height else u.damage_height;
    }

unfoldable pub accept : Loop → Frame → ℕ → Loop
accept l frame now_ns = record l {
  frame = frame;
  last_submit_ns = now_ns;
  submitted = l.submitted ++ ((l.pinned, frame) ∷ []);
}

unfoldable pub submit_update : DeviceInfo → Pass → Update → Loop → Loop × Status
unfolding accept frame_of
submit_update info p u l =
    let frame = frame_of info u l.frame.source in
    elim p.submit [
      | failure e ↦ (record l { frame = frame }, failure e)
      | success ↦ (record (accept l frame p.submit_ns) { pending_update = none }, success)
    ]

-- A waiting update is submitted once the hold on the splash is over.
unfoldable pub present : DeviceInfo → Pass → Loop → Loop × Status
present info p l = elim l.pending_update [
  | none ↦ (l, success)
  | some u ↦ if leb l.startup_hold_until_ns p.now_ns then submit_update info p u l else (l, success)
]

abbrev pub startup_frame_interval_ns : ℕ
startup_frame_interval_ns = 33000000

abbrev pub idle_frame_refresh_ns : ℕ
idle_frame_refresh_ns = 2000000000

unfoldable pub needs_refresh : Bool → Pass → Loop → Bool
needs_refresh physical p l =
    let interval : ℕ =
      if l.frame_valid && l.frame.source == source_initial
      then startup_frame_interval_ns
      else idle_frame_refresh_ns in
    l.frame_valid
    && physical
    && leb l.last_submit_ns p.now_ns
    && leb interval (p.now_ns - l.last_submit_ns)

unfoldable pub refresh_frame : Bool → Pass → Loop → Loop × Status
unfolding needs_refresh accept
refresh_frame physical p l =
    if needs_refresh physical p l
    then elim p.refresh [
      | failure e ↦ (l, failure e)
      | success ↦ (accept l l.frame p.refresh_ns, success)
    ]
    else (l, success)

-- `ticks` is whether the backend has a tick to call.
unfoldable pub run_pass : DeviceInfo → Frame → Bool → Bool → Pass → Loop → Loop × Status
run_pass info splash_frame physical ticks p l =
    let (l1, received) = receive info splash_frame p.event l in
    let (l2, presented) = present info p l1 in
    let (l3, refreshed) = refresh_frame physical p l2 in
    elim received [
      | failure e ↦ (l1, failure e)
      | success ↦ elim presented [
        | failure e ↦ (l2, failure e)
        | success ↦ elim refreshed [
          | failure e ↦ (l3, failure e)
          | success ↦ (l3, if ticks then p.tick else success)
        ]
      ]
    ]

-- The loop until a stop is requested, which ends the list, or a pass fails.
unfoldable pub run_passes : DeviceInfo → Frame → Bool → Bool → List Pass → Loop → Loop × Status
run_passes info splash_frame physical ticks [] l = (l, success)
run_passes info splash_frame physical ticks (p ∷ passes) l =
    let (l', result) = run_pass info splash_frame physical ticks p l in
    let rest = run_passes info splash_frame physical ticks passes l' in
    elim result [ failure e ↦ (l', failure e) | success ↦ rest ]
