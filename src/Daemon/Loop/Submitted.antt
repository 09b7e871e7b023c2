-- ===== src/Daemon/Loop/Submitted.antt =====
-- userspace/usb-displayd.c: the frames of a whole run of the loop.
use mathlib.Core.Path.{subst}
use usbdisplay_stack.Common.{
  ℕ, ◌*◌, ◌≤◌, ◌<◌, ◌≡◌, refl, sym, ◌⊎◌, inl, inr, Bool, List, [], ◌∷◌, arith, if◌then◌else◌,
  Bool-cases, Status-cases, Errno, Status, success, failure,
}
use usbdisplay_stack.Daemon.Loop.{
  splash_frame_of, start_loop, receive, accept, present, needs_refresh, refresh_frame, run_pass,
  run_passes, Frame, Loop, Pass, splash,
}
use usbdisplay_stack.Daemon.Loop.Laws.{
  Shown, AllShown, AllShown-append, Current, Good, later, Good-of, receive-Good, present-Good,
  Settled, Taken,
}
use usbdisplay_stack.Daemon.Main.{check_info}
use usbdisplay_stack.Kernel.Publish.Ready.{no_wrap}
use usbdisplay_stack.Uapi.{DeviceInfo}

refresh_frame-Good :
    (info : DeviceInfo) (physical : Bool) (p : Pass) (l : Loop)
    → AllShown info l.submitted
    → Settled info p.now_ns l
    → Good info (Settled info p.now_ns) (refresh_frame physical p l)
unfolding refresh_frame accept
refresh_frame-Good info physical p l log w = elim (Bool-cases (needs_refresh physical p l)) [
  | inr e ↦
      Good-of info (Settled info p.now_ns) {out' = (l, success)} (rw (e, refresh_frame))
        (log, inr (refl, w))
  | inl e ↦ elim (Status-cases p.refresh) [
    | inr (x, f) ↦
        Good-of info (Settled info p.now_ns) {out' = (l, failure x)} (rw (e, refresh_frame) (rw f))
          (log, inl (x, refl))
    | inl f ↦
        Good-of info (Settled info p.now_ns) {out' = (accept l l.frame p.refresh_ns, success)}
          (rw (e, refresh_frame) (rw f))
          (
            AllShown-append info l.submitted _ log (shown w.current),
            inr (refl, record { waiting = w.waiting; current = w.current }),
          )
  ]
]
  where
    shown : Current info p.now_ns l → Shown info (l.pinned, l.frame)
    shown (inl e) = inl e
    shown (inr (held, t)) = inr held

-- What follows a part of the pass that succeeded.
then_part : Loop × Status → Loop × Status → Loop × Status
then_part out rest = elim out.1 [ failure e ↦ (out.0, failure e) | success ↦ rest ]

then_part-Good :
    (info : DeviceInfo) (P Q : Loop → Type 0) (out rest : Loop × Status)
    → Good info P out
    → (AllShown info out.0.submitted → P out.0 → Good info Q rest)
    → Good info Q (then_part out rest)
unfolding then_part
then_part-Good info P Q out rest (log, inl (e, x)) k =
    Good-of info Q {out' = (out.0, failure e)} (rw (x, then_part)) (log, inl (e, refl))
then_part-Good info P Q out rest (log, inr (x, h)) k =
    Good-of info Q {out' = rest} (rw (x, then_part)) (k log h)

run_pass-Good :
    (info : DeviceInfo) (splash_frame : Frame) (physical ticks : Bool) (p : Pass) (l : Loop)
    → info.slots * info.slot_bytes ≤ info.map_bytes
    → splash_frame.pixels ≡ splash
    → AllShown info l.submitted
    → Settled info p.now_ns l
    → Good info (Settled info p.now_ns) (run_pass info splash_frame physical ticks p l)
unfolding run_pass then_part
run_pass-Good info splash_frame physical ticks p l fits sp log w =
    let P = Settled info p.now_ns in
    let l1 = receive info splash_frame p.event l in
    let l2 = present info p l1.0 in
    let l3 = refresh_frame physical p l2.0 in
    then_part-Good info (Taken info p.now_ns) P l1 _
      (receive-Good info splash_frame p.event l p.now_ns sp log w)
      (λ log1 w1. then_part-Good info P P l2 _ (present-Good info p l1.0 fits log1 w1) (λ log2 w2.
        then_part-Good info P P l3 (l3.0, if ticks then p.tick else success)
          (refresh_frame-Good info physical p l2.0 log2 w2)
          (λ log3 w3. (log3, ticked (if ticks then p.tick else success) w3))))
  where
    ticked : (s : Status) {A : Type 0} → A → ((e : Errno) × (s ≡ failure e)) ⊎ ((s ≡ success) × A)
    ticked success a = inr (refl, a)
    ticked (failure e) a = inl (e, refl)

-- The clock does not go back from one pass to the next.
abbrev pub Ordered : ℕ → List Pass → Type 0
Ordered now [] = Unit {0}
Ordered now (p ∷ passes) = (now ≤ p.now_ns) × Ordered p.now_ns passes

run_passes-AllShown :
    (info : DeviceInfo) (splash_frame : Frame) (physical ticks : Bool) (passes : List Pass)
    (now : ℕ) (l : Loop)
    → info.slots * info.slot_bytes ≤ info.map_bytes
    → splash_frame.pixels ≡ splash
    → Ordered now passes
    → AllShown info l.submitted
    → Settled info now l
    → AllShown info (run_passes info splash_frame physical ticks passes l).0.submitted
unfolding run_passes
run_passes-AllShown info splash_frame physical ticks [] now l fits sp o log w = log
run_passes-AllShown info splash_frame physical ticks (p ∷ passes) now l fits sp (here_ns, o) log w =
    let out = run_pass info splash_frame physical ticks p l in
    let (log', state) =
      run_pass-Good info splash_frame physical ticks p l fits sp log
        (later info l now p.now_ns here_ns w) in
    elim state [
      | inl (e, x) ↦ logged (out.0, failure e) (rw (x, run_passes)) log'
      | inr (x, w') ↦
          logged (run_passes info splash_frame physical ticks passes out.0) (rw (x, run_passes)) (
            run_passes-AllShown info splash_frame physical ticks passes p.now_ns out.0 fits sp o
              log' w')
    ]
  where
    logged :
        (out' : Loop × Status)
        → run_passes info splash_frame physical ticks (p ∷ passes) l ≡ out'
        → AllShown info out'.0.submitted
        → AllShown info (run_passes info splash_frame physical ticks (p ∷ passes) l).0.submitted
    logged out' e h = subst (λ y. AllShown info y.0.submitted) (sym e) h

check_info_fits :
    (info : DeviceInfo)
    → check_info info ≡ success
    → info.slots * info.slot_bytes < 4294967296
    → info.slots * info.slot_bytes ≤ info.map_bytes
unfolding check_info
check_info_fits info checked no_wrap = ground arith

-- For device information that main has checked and whose product of slots and slot size stays below
-- 2^32, and for a clock that does not go back from the acceptance of the splash on: whatever the kernel
-- and the backend answer, and however the loop ends, every frame that the backend accepts in a run is
-- the splash, or lies in the slot that the read before it has pinned, no longer than a slot, from its
-- first byte to its last inside the mapping.
pub run_passes_lem :
    (info : DeviceInfo) (splash_bytes frame_ns start_ns : ℕ) (physical ticks : Bool)
    (passes : List Pass)
    → check_info info ≡ success
    → info.slots * info.slot_bytes < 4294967296
    → Ordered start_ns passes
    → let splash_frame = splash_frame_of info splash_bytes frame_ns in
      AllShown info
        (run_passes info splash_frame physical ticks passes
          (start_loop splash_frame physical start_ns)).0.submitted
unfolding splash_frame_of start_loop
run_passes_lem info splash_bytes frame_ns start_ns physical ticks passes checked no_wrap o =
    let splash_frame = splash_frame_of info splash_bytes frame_ns in
    run_passes-AllShown info splash_frame physical ticks passes start_ns
      (start_loop splash_frame physical start_ns) (check_info_fits info checked no_wrap) refl o
      (inl refl, tt) (record { waiting = inl refl; current = inl refl })
