-- ===== src/Daemon/Examples.antt =====
-- userspace/usb-displayd.c: the theorems at concrete inputs.
use usbdisplay_stack.Common.{
  ℕ, ◌≤◌, ◌≡◌, refl, ◌⊎◌, true, false, none, some, List, [], ◌∷◌, arith, Errno, success, failure,
  ok, length, enomem, enodev,
}
use usbdisplay_stack.Daemon.Contract.{validate_update-read_locked}
use usbdisplay_stack.Daemon.Files.{
  sleep_milliseconds, write_all, fill_temporary, finish_ready_file, publish_ready_file,
  remove_ready_file, Files, ReadyCalls, wrote, cut_off,
}
use usbdisplay_stack.Daemon.Files.Laws.{publish_ready_file-Outcome, Outcome}
use usbdisplay_stack.Daemon.Loop.{
  validate_update, splash_frame_of, start_loop, take_update, receive, frame_of, accept,
  submit_update, present, needs_refresh, refresh_frame, run_pass, run_passes, Event, Pass, update,
  quiet, readable,
}
use usbdisplay_stack.Daemon.Loop.Laws.{AllShown}
use usbdisplay_stack.Daemon.Loop.Submitted.{run_passes_lem}
use usbdisplay_stack.Daemon.Main.{
  open_stream, unmap_stream, close_device, reopen_frame_stream, check_backend, check_info,
  map_device, open_device, start, open_backend, close_context, open_transport, count_reopen,
  end_generation, run_generation, attempt, run_attempts, release, main, StartCalls, Attempt,
  context,
}
use usbdisplay_stack.Daemon.Main.Generations.{up_to, main_generations, IsFaithful}
use usbdisplay_stack.Daemon.Main.Laws.{main_releases}
use usbdisplay_stack.Kernel.Examples.{one_frame, reader, one_frame-IsAnnounced}
use usbdisplay_stack.Kernel.Stream.{read_locked, stream_ioctl}
use usbdisplay_stack.Uapi.{DeviceInfo, Update}

abbrev small_info : DeviceInfo
small_info = record {
  abi = 1;
  width = 2;
  height = 1;
  slots = 3;
  slot_bytes = 4096;
  map_bytes = 12288;
  reserved0 = 0;
  reserved1 = 0;
  sequence = 0;
}

abbrev app_update : Update
app_update = record {
  sequence = 4;
  timestamp_ns = 9;
  slot = 1;
  width = 2;
  height = 1;
  stride = 8;
  format = 2;
  source = 1;
  damage_x = 0;
  damage_y = 0;
  damage_width = 1;
  damage_height = 1;
  reserved = [];
}

-- A pass in which everything succeeds.
abbrev good_pass : Event → ℕ → Pass
good_pass event now_ns = record {
  event = event;
  now_ns = now_ns;
  submit = success;
  submit_ns = now_ns;
  refresh = success;
  refresh_ns = now_ns;
  tick = success;
}

-- The update is read while the splash is held, and submitted behind the hold.
abbrev passes : List Pass
passes = good_pass (readable (update app_update)) 1000 ∷ good_pass quiet 3000000000 ∷ []

small_info_checked : check_info small_info ≡ success
unfolding check_info
small_info_checked = refl

run_passes_lem_example :
    let splash_frame = splash_frame_of small_info 8 500 in
    AllShown small_info
      (run_passes small_info splash_frame true true passes
        (start_loop splash_frame true 600)).0.submitted
run_passes_lem_example =
    run_passes_lem small_info 8 500 600 true true passes small_info_checked (omega arith)
      (omega arith, (omega arith, tt))

-- The splash and the application's frame have been accepted by then.
two_frames :
    let splash_frame = splash_frame_of small_info 8 500 in
    length
      (run_passes small_info splash_frame true true passes
        (start_loop splash_frame true 600)).0.submitted
    ≡ 2
unfolding splash_frame_of start_loop run_passes run_pass receive take_update validate_update present
    submit_update frame_of accept refresh_frame needs_refresh
two_frames = refl

abbrev one_frame_info : DeviceInfo
one_frame_info = record {
  abi = 1;
  width = one_frame.width;
  height = one_frame.height;
  slots = 3;
  slot_bytes = one_frame.slot_bytes;
  map_bytes = one_frame.map_bytes;
  reserved0 = 0;
  reserved1 = 0;
  sequence = one_frame.sequence;
}

one_frame_answer : stream_ioctl 7 7 true one_frame ≡ ok one_frame_info
unfolding stream_ioctl
one_frame_answer = refl

validate_update-read_locked_example :
    validate_update one_frame_info (read_locked reader one_frame).2 ≡ success
validate_update-read_locked_example =
    validate_update-read_locked reader one_frame one_frame_info 7 one_frame_answer (omega arith)
      one_frame-IsAnnounced (omega arith) (omega arith)

abbrev ready_calls : ReadyCalls
ready_calls = record {
  has_path = true;
  path_fits = true;
  opened = success;
  contents = 112 ∷ 105 ∷ 100 ∷ [];
  writes = wrote 2 ∷ cut_off ∷ wrote 1 ∷ [];
  closed = success;
  renamed = success;
  unlinked = true;
}

abbrev stale_files : Files
stale_files = record { ready = some (9 ∷ []); temporary = none }

publish_ready_file-Outcome_example :
    Outcome ready_calls stale_files (publish_ready_file ready_calls stale_files)
publish_ready_file-Outcome_example = publish_ready_file-Outcome ready_calls stale_files

-- A round in which the transport opens and is lost later.
abbrev lost_attempt : Attempt
lost_attempt = record {
  opened = context;
  stream = record { unmapped = success; opened = success; mapping = success };
  ready = ready_calls;
  loop_result = failure enodev;
  loop_stopped = false;
  naps = [];
  unlinked = true;
  stopped = false;
}

-- A round in which the backend is there and the stream is not.
abbrev unready_attempt : Attempt
unready_attempt = record lost_attempt {
  stream = record { unmapped = success; opened = success; mapping = failure enomem };
}

abbrev start_calls : StartCalls
start_calls = record {
  arguments = success;
  library = true;
  backend = some (record {
    abi = 1;
    struct_size = 56;
    has_tick_capability = true;
    has_open = true;
    has_submit = true;
    has_close = true;
    has_tick = true;
  });
  opened = success;
  info_read = success;
  info = small_info;
  mapping = success;
}

abbrev three_rounds : List Attempt
three_rounds = lost_attempt ∷ unready_attempt ∷ lost_attempt ∷ []

lost_attempt-IsFaithful : IsFaithful lost_attempt
lost_attempt-IsFaithful = ground arith

main_releases_example :
    let s = (main start_calls three_rounds success true true stale_files).0 in
    (s.open_descriptors ≡ 0)
    × (s.live_contexts ≡ 0)
    × (s.live_libraries ≡ 0)
    × ((s.live_mappings ≡ 0) ⊎ (s.live_mappings ≡ 1) × ((e : Errno) × (success ≡ failure e)))
main_releases_example = main_releases start_calls three_rounds success true true stale_files

main_generations_example :
    (n : ℕ) × (n ≤ 3)
    × ((main start_calls three_rounds success true true stale_files).0.generations ≡ up_to n)
main_generations_example =
    main_generations start_calls three_rounds success true true stale_files
      (lost_attempt-IsFaithful, (ground arith, (lost_attempt-IsFaithful, tt))) (omega arith)

-- The two transports are generations 1 and 2.
two_generations :
    (main start_calls three_rounds success true true stale_files).0.generations ≡ 1 ∷ 2 ∷ []
unfolding main start open_device map_device check_backend check_info run_attempts attempt
    open_transport open_backend reopen_frame_stream unmap_stream close_device open_stream
    run_generation count_reopen publish_ready_file finish_ready_file fill_temporary write_all
    end_generation close_context remove_ready_file sleep_milliseconds release
two_generations = refl
