-- ===== src/Daemon/Main/Laws.antt =====
-- userspace/usb-displayd.c: whatever fails, main releases what it has taken.
use usbdisplay_stack.Common.{
  ◌≡◌, refl, ◌⊎◌, inl, inr, Bool, true, false, List, [], ◌∷◌, arith, if◌then◌else◌, Bool-cases,
  Status-cases, Errno, Status, success, failure,
}
use usbdisplay_stack.Daemon.Files.{Files}
use usbdisplay_stack.Daemon.Main.{
  open_stream, idle_daemon, unmap_stream, close_device, reopen_frame_stream, map_device,
  open_device, start, open_backend, close_context, open_transport, count_reopen, end_generation,
  run_generation, attempt, run_attempts, release, main, Daemon, StreamCalls, StartCalls, Opened,
  Attempt,
}

-- What is held is what the variables name: nothing is lost and nothing is released twice.
pub record IsTracked (s : Daemon) : Type 0 where
  pub descriptors : s.open_descriptors ≡ (if s.device_open then 1 else 0)
  pub mappings : s.live_mappings ≡ (if s.mapped then 1 else 0)
  pub contexts : s.live_contexts ≡ (if s.has_context then 1 else 0)
  pub libraries : s.live_libraries ≡ (if s.has_library then 1 else 0)

unmap_stream-IsTracked :
    (answer : Status) (s : Daemon) → IsTracked s → IsTracked (unmap_stream answer s).0
unfolding unmap_stream
unmap_stream-IsTracked answer s v = ground arith

close_device-IsTracked : (s : Daemon) → IsTracked s → IsTracked (close_device s)
unfolding close_device
close_device-IsTracked s v = ground arith

-- A stream is opened only when none is open.
open_stream-IsTracked :
    (c : StreamCalls) (s : Daemon)
    → s.device_open ≡ false
    → s.mapped ≡ false
    → IsTracked s
    → IsTracked (open_stream c s).0
unfolding open_stream
open_stream-IsTracked c s closed unmapped v = ground arith

-- Reopening the stream leaves one descriptor and one mapping, or none that is not tracked.
pub reopen_frame_stream-IsTracked :
    (c : StreamCalls) (s : Daemon) → IsTracked s → IsTracked (reopen_frame_stream c s).0
unfolding reopen_frame_stream unmap_stream close_device open_stream
reopen_frame_stream-IsTracked c s v = ground arith

close_context-IsTracked :
    (s : Daemon)
    → IsTracked s
    → IsTracked (close_context s) × ((close_context s).has_context ≡ false)
unfolding close_context
close_context-IsTracked s v = ground arith

open_backend-IsTracked :
    (o : Opened) (s : Daemon) → IsTracked s → s.has_context ≡ false → IsTracked (open_backend o s).0
unfolding open_backend
open_backend-IsTracked o s v no_context = ground arith

release-IsTracked :
    (unmapped : Status) (s : Daemon)
    → IsTracked s
    → s.has_context ≡ false
    → let s' = release unmapped s in
      (s'.open_descriptors ≡ 0)
      × (s'.live_contexts ≡ 0)
      × (s'.live_libraries ≡ 0)
      × ((s'.live_mappings ≡ 0) ⊎ (s'.live_mappings ≡ 1) × ((e : Errno) × (unmapped ≡ failure e)))
unfolding release close_context close_device unmap_stream
release-IsTracked success s v no_context =
    (ground arith, ground arith, ground arith, inl (ground arith))
release-IsTracked (failure x) s v no_context =
    (ground arith, ground arith, ground arith, left (Bool-cases s.mapped))
  where
    left :
        (s.mapped ≡ true) ⊎ (s.mapped ≡ false)
        → let s' = release (failure x) s in
          (s'.live_mappings ≡ 0) ⊎ (s'.live_mappings ≡ 1) × ((e : Errno) × (failure x ≡ failure e))
    left (inl m) = inr (ground arith, (x, refl))
    left (inr m) = inl (ground arith)

forget_context-IsTracked :
    (s : Daemon)
    → IsTracked s
    → s.has_context ≡ false
    → IsTracked (record s { has_context = false })
forget_context-IsTracked s v no_context = ground arith

reopen_if-IsTracked :
    (c : StreamCalls) (s : Daemon) (lost : Bool)
    → IsTracked s
    → IsTracked (if lost then reopen_frame_stream c s else (s, success)).0
reopen_if-IsTracked c s true v = reopen_frame_stream-IsTracked c s v
reopen_if-IsTracked c s false v = v

reopen_behind-IsTracked :
    (c : StreamCalls) (s : Daemon) (opened : Status)
    → IsTracked s
    → IsTracked
        (elim opened as (λ _. Daemon × Status) [
          | failure e ↦ (s, failure e)
          | success ↦ if s.reopen_pending then reopen_frame_stream c s else (s, success)
        ]).0
reopen_behind-IsTracked c s (failure e) v = v
reopen_behind-IsTracked c s success v = reopen_if-IsTracked c s s.reopen_pending v

open_transport-IsTracked :
    (a : Attempt) (s : Daemon)
    → IsTracked s
    → s.has_context ≡ false
    → IsTracked (open_transport a s).0
unfolding open_transport
open_transport-IsTracked a s v no_context =
    let cleared : Daemon = record s { has_context = false } in
    let opened =
      open_backend-IsTracked a.opened cleared (forget_context-IsTracked s v no_context) refl in
    reopen_behind-IsTracked a.stream (open_backend a.opened cleared).0
      (open_backend a.opened cleared).1 opened

end_generation-IsTracked :
    (a : Attempt) (s : Daemon)
    → IsTracked s
    → IsTracked (end_generation a s).0 × ((end_generation a s).0.has_context ≡ false)
unfolding end_generation close_context
end_generation-IsTracked a s v = ground arith

run_generation-IsTracked :
    (a : Attempt) (s : Daemon)
    → IsTracked s
    → IsTracked (run_generation a s).0 × ((run_generation a s).0.has_context ≡ false)
unfolding run_generation count_reopen close_context end_generation
run_generation-IsTracked a s v = ground arith

attempt-IsTracked :
    (a : Attempt) (s : Daemon)
    → IsTracked s
    → s.has_context ≡ false
    → IsTracked (attempt a s).0 × ((attempt a s).0.has_context ≡ false)
unfolding attempt
attempt-IsTracked a s v no_context = ground (
  arith,
  open_transport-IsTracked a s v no_context,
  close_context-IsTracked (open_transport a s).0,
  run_generation-IsTracked a (open_transport a s).0,
)

run_attempts-IsTracked :
    (attempts : List Attempt) (s : Daemon)
    → IsTracked s
    → s.has_context ≡ false
    → IsTracked (run_attempts attempts s).0 × ((run_attempts attempts s).0.has_context ≡ false)
unfolding run_attempts
run_attempts-IsTracked [] s v no_context = (v, no_context)
run_attempts-IsTracked (a ∷ attempts) s v no_context =
    ground
      (arith, attempt-IsTracked a s v no_context, run_attempts-IsTracked attempts (attempt a s).0)

start-IsTracked :
    (c : StartCalls) (f : Files)
    → let s = (start c (idle_daemon f)).0 in IsTracked s × (s.has_context ≡ false)
unfolding start open_device map_device
start-IsTracked c f = ground arith

-- Whatever fails, and whenever a stop is asked for, main ends with every descriptor closed, every
-- context of the backend closed, the library closed and at most one mapping, which is left only when
-- the last munmap fails.
pub main_releases :
    (c : StartCalls) (attempts : List Attempt) (unmapped : Status) (has_path unlinked : Bool)
    (f : Files)
    → let s = (main c attempts unmapped has_path unlinked f).0 in
      (s.open_descriptors ≡ 0)
      × (s.live_contexts ≡ 0)
      × (s.live_libraries ≡ 0)
      × ((s.live_mappings ≡ 0) ⊎ (s.live_mappings ≡ 1) × ((e : Errno) × (unmapped ≡ failure e)))
unfolding main
main_releases c attempts unmapped has_path unlinked f =
    let (v, no_context) = start-IsTracked c f in
    let (w, no_context') =
      run_attempts-IsTracked attempts (start c (idle_daemon f)).0 v no_context in
    elim (Status-cases (start c (idle_daemon f)).1) [
      | inr (e, x) ↦
          rw (x, main) (release-IsTracked unmapped (start c (idle_daemon f)).0 v no_context)
      | inl x ↦
          rw (x, main)
            (release-IsTracked unmapped _
              (record {
                descriptors = w.descriptors;
                mappings = w.mappings;
                contexts = w.contexts;
                libraries = w.libraries;
              })
              no_context')
    ]
