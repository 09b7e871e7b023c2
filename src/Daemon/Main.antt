-- ===== src/Daemon/Main.antt =====
-- userspace/usb-displayd.c: reopen_frame_stream and main, with every resource counted. What a call
-- outside the program answers stands in the records of calls.
pub mod Laws
pub mod Generations
use usbdisplay_stack.Common.{
  ℕ, ◌+◌, ◌-◌, ◌*◌, Bool, true, false, not, ◌&&◌, ◌||◌, Option, none, some, List, [], ◌∷◌, ◌++◌,
  ltb, ◌==◌, if◌then◌else◌, u32, u64, Errno, Status, success, failure, ◌then_try◌, eproto, enoent,
}
use usbdisplay_stack.Daemon.Files.{
  sleep_milliseconds, publish_ready_file, remove_ready_file, Nap, Files, ReadyCalls,
}
use usbdisplay_stack.Uapi.{abi_version, DeviceInfo}

-- The variables of main, the resources that are held (opened and not closed again), the ready file,
-- and the generations that were announced, oldest first.
pub record Daemon : Type 0 where
  pub device_open : Bool
  pub mapped : Bool
  pub has_context : Bool
  pub has_library : Bool
  pub open_descriptors : ℕ
  pub live_mappings : ℕ
  pub live_contexts : ℕ
  pub live_libraries : ℕ
  pub retry_count : ℕ
  pub reopen_count : ℕ
  pub reopen_pending : Bool
  pub files : Files
  pub generations : List ℕ

-- The variables at the start, with the files that are there.
abbrev pub idle_daemon : Files → Daemon
idle_daemon f = record {
  device_open = false;
  mapped = false;
  has_context = false;
  has_library = false;
  open_descriptors = 0;
  live_mappings = 0;
  live_contexts = 0;
  live_libraries = 0;
  retry_count = 0;
  reopen_count = 0;
  reopen_pending = false;
  files = f;
  generations = [];
}

-- The answers of munmap, open and mmap.
pub record StreamCalls : Type 0 where
  pub unmapped : Status
  pub opened : Status
  pub mapping : Status

unfoldable pub unmap_stream : Status → Daemon → Daemon × Status
unmap_stream answer s =
    if s.mapped
    then elim answer [
      | success ↦ (record s { mapped = false; live_mappings = s.live_mappings - 1 }, success)
      | failure e ↦ (s, failure e)
    ]
    else (s, success)

unfoldable pub close_device : Daemon → Daemon
close_device s =
    if s.device_open
    then record s { device_open = false; open_descriptors = s.open_descriptors - 1 }
    else s

-- The new descriptor is closed again when it cannot be mapped.
unfoldable pub open_stream : StreamCalls → Daemon → Daemon × Status
open_stream c s = elim c.opened [
  | failure e ↦ (s, failure e)
  | success ↦ elim c.mapping [
    | success ↦ (
      record s {
        device_open = true;
        mapped = true;
        open_descriptors = s.open_descriptors + 1;
        live_mappings = s.live_mappings + 1;
      },
      success,
    )
    | failure e ↦ (record s { open_descriptors = s.open_descriptors + 1 - 1 }, failure e)
  ]
]

unfoldable pub reopen_frame_stream : StreamCalls → Daemon → Daemon × Status
unfolding unmap_stream close_device open_stream
reopen_frame_stream c s =
    let (s1, result) = unmap_stream c.unmapped s in
    elim result [ failure e ↦ (s1, failure e) | success ↦ open_stream c (close_device s1) ]

-- The table of a backend, as far as main looks at it.
pub record Backend : Type 0 where
  pub abi : ℕ
  pub struct_size : ℕ
  pub has_tick_capability : Bool
  pub has_open : Bool
  pub has_submit : Bool
  pub has_close : Bool
  pub has_tick : Bool

abbrev pub backend_abi_version : ℕ
backend_abi_version = 1

-- USBDISPLAY_BACKEND_V1_REQUIRED_SIZE and USBDISPLAY_BACKEND_V1_TICK_SIZE with pointers of 64 bits
abbrev pub required_size : ℕ
required_size = 48

abbrev pub tick_size : ℕ
tick_size = 56

-- `none` is a missing entry or one that returns no table.
unfoldable pub check_backend : Option Backend → Status
check_backend none = failure eproto
check_backend (some b) =
    if not (b.abi == backend_abi_version)
      || ltb b.struct_size required_size
      || not b.has_open
      || not b.has_submit
      || not b.has_close
    then failure eproto
    else if b.has_tick_capability && (ltb b.struct_size tick_size || not b.has_tick)
    then failure eproto
    else success

unfoldable pub check_info : DeviceInfo → Status
check_info info =
    if not (info.abi == abi_version)
      || info.slots == 0
      || info.slot_bytes == 0
      || not (info.map_bytes == u32 (info.slots * info.slot_bytes))
    then failure eproto
    else success

-- The answers while main starts up: parse_arguments, dlopen, dlsym and the entry, open, ioctl and mmap.
pub record StartCalls : Type 0 where
  pub arguments : Status
  pub library : Bool
  pub backend : Option Backend
  pub opened : Status
  pub info_read : Status
  pub info : DeviceInfo
  pub mapping : Status

unfoldable pub map_device : StartCalls → Daemon → Daemon × Status
unfolding check_info
map_device c s = elim (c.info_read then_try check_info c.info then_try c.mapping) [
  | failure e ↦ (s, failure e)
  | success ↦ (record s { mapped = true; live_mappings = s.live_mappings + 1 }, success)
]

unfoldable pub open_device : StartCalls → Daemon → Daemon × Status
unfolding check_backend map_device
open_device c s = elim (check_backend c.backend then_try c.opened) [
  | failure e ↦ (s, failure e)
  | success ↦
      map_device c (record s { device_open = true; open_descriptors = s.open_descriptors + 1 })
]

unfoldable pub start : StartCalls → Daemon → Daemon × Status
unfolding open_device
start c s = elim c.arguments [
  | failure e ↦ (s, failure e)
  | success ↦
      if c.library
      then open_device c (record s { has_library = true; live_libraries = s.live_libraries + 1 })
      else (s, failure enoent)
]

-- backend->open: a context, or an error and whether it has left a context all the same.
pub data Opened : Type 0 where
  context : Opened
  unavailable : Errno → Bool → Opened

-- One round of the loop of main: the answers of the backend, the stream, the ready file, run_loop and
-- nanosleep, whether unlink removes the ready file, and whether a stop was asked for when run_loop has
-- returned, and when the round ends.
pub record Attempt : Type 0 where
  pub opened : Opened
  pub stream : StreamCalls
  pub ready : ReadyCalls
  pub loop_result : Status
  pub loop_stopped : Bool
  pub naps : List Nap
  pub unlinked : Bool
  pub stopped : Bool

abbrev pub take_context : Daemon → Daemon
take_context s = record s { has_context = true; live_contexts = s.live_contexts + 1 }

unfoldable pub open_backend : Opened → Daemon → Daemon × Status
open_backend context s = (take_context s, success)
open_backend (unavailable e left) s = (if left then take_context s else s, failure e)

unfoldable pub close_context : Daemon → Daemon
close_context s =
    if s.has_context
    then record s { has_context = false; live_contexts = s.live_contexts - 1 }
    else s

-- backend->open, and the stream when a transport was lost before.
unfoldable pub open_transport : Attempt → Daemon → Daemon × Status
unfolding open_backend reopen_frame_stream
open_transport a s =
    let (s1, result) = open_backend a.opened (record s { has_context = false }) in
    elim result [
      | failure e ↦ (s1, failure e)
      | success ↦ if s1.reopen_pending then reopen_frame_stream a.stream s1 else (s1, success)
    ]

-- The transport is open: a lost one counts as reopened now.
unfoldable pub count_reopen : Daemon → Daemon
count_reopen s = record s {
  retry_count = 0;
  reopen_count = if s.reopen_pending then u64 (s.reopen_count + 1) else s.reopen_count;
  reopen_pending = false;
}

-- Behind run_loop: the ready file goes, the backend is closed, and a lost transport is waited for.
unfoldable pub end_generation : Attempt → Daemon → Daemon × Status
unfolding close_context remove_ready_file sleep_milliseconds
end_generation a s =
    let f = remove_ready_file a.ready.has_path a.unlinked s.files in
    let closed = close_context (record s { files = f }) in
    elim a.loop_result [
      | success ↦ (closed, success)
      | failure e ↦
          if a.loop_stopped
          then (closed, success)
          else (record closed { reopen_pending = true }, sleep_milliseconds a.naps)
    ]

unfoldable pub run_generation : Attempt → Daemon → Daemon × Status
unfolding publish_ready_file end_generation count_reopen close_context
run_generation a s =
    let s1 = count_reopen s in
    let (f, result) = publish_ready_file a.ready s1.files in
    let s2 = record s1 { files = f } in
    elim result [
      | failure e ↦ (close_context s2, failure e)
      | success ↦
          end_generation a
            (record s2 { generations = s2.generations ++ (u64 (s2.reopen_count + 1) ∷ []) })
    ]

unfoldable pub attempt : Attempt → Daemon → Daemon × Status
unfolding open_transport run_generation close_context sleep_milliseconds
attempt a s =
    let (s1, result) = open_transport a s in
    elim result [
      | failure e ↦ (
        record (close_context s1) { retry_count = u32 (s1.retry_count + 1) },
        sleep_milliseconds a.naps,
      )
      | success ↦ run_generation a s1
    ]

-- The rounds until a stop is asked for, which ends the list, or an error; a stop hides the error.
unfoldable pub run_attempts : List Attempt → Daemon → Daemon × Status
run_attempts [] s = (s, success)
run_attempts (a ∷ attempts) s =
    let (s1, result) = attempt a s in
    let rest = run_attempts attempts s1 in
    elim result [
      | failure e ↦ (s1, if a.stopped then success else failure e)
      | success ↦ if a.stopped then (s1, success) else rest
    ]

-- What main releases at its end. When munmap fails, the mapping stays, and main goes on.
unfoldable pub release : Status → Daemon → Daemon
unfolding close_context close_device unmap_stream
release unmapped s =
    let s1 = if s.has_library then close_context s else s in
    let s2 = (unmap_stream unmapped s1).0 in
    let s3 = close_device s2 in
    if s3.has_library
    then record s3 { has_library = false; live_libraries = s3.live_libraries - 1 }
    else s3

-- `unmapped` is the answer of the last munmap, `has_path` and `unlinked` are those of the ready file at
-- the end.
unfoldable pub main : StartCalls → List Attempt → Status → Bool → Bool → Files → Daemon × Status
unfolding start run_attempts release remove_ready_file
main c attempts unmapped has_path unlinked f =
    let (s, started) = start c (idle_daemon f) in
    let (s', ended) = run_attempts attempts s in
    elim started [
      | failure e ↦ (release unmapped s, failure e)
      | success ↦ (
        release unmapped (record s' { files = remove_ready_file has_path unlinked s'.files }),
        ended,
      )
    ]
