-- ===== src/Daemon/Loop/Laws.antt =====
-- userspace/usb-displayd.c: every frame that is submitted lies in memory the daemon may read.
use mathlib.Core.Path.{subst}
use native.Mathlib.Nat.{mul-le-mul_right}
use usbdisplay_stack.Common.{
  ℕ, ◌+◌, ◌*◌, ◌≤◌, ◌<◌, ◌≡◌, refl, sym, ap, ◌∙◌, ◌⊎◌, inl, inr, true, false, Option, none, some,
  List, [], ◌∷◌, ◌++◌, arith, leb, ◌==◌, if◌then◌else◌, leb→le, Bool-cases, Status-cases, u64,
  Errno, Status, success, failure, eproto, eio,
}
use usbdisplay_stack.Daemon.Loop.{
  hung_up, unreadable, interrupted, validate_update, take_update, receive, frame_of, accept,
  submit_update, present, Frame, Loop, Event, Pass, splash, mapped, short, update, signalled,
  broken, quiet, readable,
}
use usbdisplay_stack.Uapi.{source_initial, DeviceInfo, Update}

-- The frame is the slot that is pinned, within the mapping.
pub record Held (info : DeviceInfo) (pinned : Option ℕ) (f : Frame) : Type 0 where
  pub slot : ℕ
  pub is_pinned : pinned ≡ some slot
  pub in_ring : slot < info.slots
  pub at_slot : f.pixels ≡ mapped (slot * info.slot_bytes)
  pub in_slot : f.bytes ≤ info.slot_bytes
  pub in_mapping : slot * info.slot_bytes + f.bytes ≤ info.map_bytes

abbrev pub Shown : DeviceInfo → Option ℕ × Frame → Type 0
Shown info (pinned, f) = (f.pixels ≡ splash) ⊎ Held info pinned f

abbrev pub AllShown : DeviceInfo → List (Option ℕ × Frame) → Type 0
AllShown info [] = Unit {0}
AllShown info (x ∷ log) = Shown info x × AllShown info log

pub AllShown-append :
    (info : DeviceInfo) (log : List (Option ℕ × Frame)) (x : Option ℕ × Frame)
    → AllShown info log
    → Shown info x
    → AllShown info (log ++ (x ∷ []))
AllShown-append info [] x h s = (s, tt)
AllShown-append info (y ∷ log) x (first, h) s = (first, AllShown-append info log x h s)

-- An update that waits is the one that was read last, and it was accepted.
abbrev pub Waiting : DeviceInfo → Loop → Type 0
Waiting info l =
    (l.pending_update ≡ none)
    ⊎ ((u : Update) × (l.pending_update ≡ some u)
        × (l.pinned ≡ some u.slot)
        × (validate_update info u ≡ success))

-- The frame at hand is the splash, or the pinned slot, once the hold is over.
abbrev pub Current : DeviceInfo → ℕ → Loop → Type 0
Current info now l =
    (l.frame.pixels ≡ splash) ⊎ (Held info l.pinned l.frame × (l.startup_hold_until_ns ≤ now))

pub record Settled (info : DeviceInfo) (now : ℕ) (l : Loop) : Type 0 where
  pub waiting : Waiting info l
  pub current : Current info now l

-- Behind a read, an update that replaces a frame whose slot is not pinned any more is due.
abbrev pub Due : ℕ → Loop → Type 0
Due now l = ((u : Update) × (l.pending_update ≡ some u)) × (l.startup_hold_until_ns ≤ now)

pub record Taken (info : DeviceInfo) (now : ℕ) (l : Loop) : Type 0 where
  pub waiting : Waiting info l
  pub current : Current info now l ⊎ Due now l

-- A pass or a part of it: the log is good, and so is the state unless it failed.
abbrev pub Good : DeviceInfo → (Loop → Type 0) → Loop × Status → Type 0
Good info P out =
    AllShown info out.0.submitted
    × (((e : Errno) × (out.1 ≡ failure e)) ⊎ ((out.1 ≡ success) × P out.0))

validate_update_lem :
    (info : DeviceInfo) (u : Update)
    → validate_update info u ≡ success
    → (u.slot < info.slots) × (u64 (u.stride * u.height) ≤ info.slot_bytes)
unfolding validate_update
validate_update_lem info u h = (ground arith, ground arith)

pub later :
    (info : DeviceInfo) (l : Loop) (now then_ns : ℕ)
    → now ≤ then_ns
    → Settled info now l
    → Settled info then_ns l
later info l now then_ns h w = record { waiting = w.waiting; current = go w.current }
  where
    go : Current info now l → Current info then_ns l
    go (inl e) = inl e
    go (inr (held, t)) = inr (held, omega arith)

pub Good-of :
    (info : DeviceInfo) (P : Loop → Type 0) {out out' : Loop × Status}
    → out ≡ out'
    → Good info P out'
    → Good info P out
Good-of info P e g = subst (Good info P) (sym e) g

take_update-Good :
    (info : DeviceInfo) (splash_frame : Frame) (u : Update) (l : Loop) (now : ℕ)
    → splash_frame.pixels ≡ splash
    → AllShown info l.submitted
    → Settled info now l
    → Good info (Taken info now) (take_update info splash_frame u l)
unfolding take_update
take_update-Good info splash_frame u l now sp log w = elim (Status-cases (validate_update info u)) [
  | inr (e, x) ↦
      Good-of info (Taken info now) {out' = (record l { pinned = some u.slot }, failure e)}
        (rw (x, take_update)) (log, inl (e, refl))
  | inl x ↦ elim (Bool-cases (u.source == source_initial)) [
    | inl i ↦
        Good-of info (Taken info now)
          {out' = (
            record l { pinned = some u.slot; pending_update = none; frame = splash_frame },
            success,
          )}
          (rw (x, take_update) (rw i))
          (log, inr (refl, record { waiting = inl refl; current = inl (inl sp) }))
    | inr i ↦
        Good-of info (Taken info now)
          {out' = (record l { pinned = some u.slot; pending_update = some u }, success)}
          (rw (x, take_update) (rw i))
          (
            log,
            inr (refl, record { waiting = inr (u, refl, refl, x); current = replaced w.current }),
          )
  ]
]
  where
    replaced :
        Current info now l
        → Current info now (record l { pinned = some u.slot; pending_update = some u })
          ⊎ Due now (record l { pinned = some u.slot; pending_update = some u })
    replaced (inl e) = inl (inl e)
    replaced (inr (held, t)) = inr ((u, refl), t)

pub receive-Good :
    (info : DeviceInfo) (splash_frame : Frame) (event : Event) (l : Loop) (now : ℕ)
    → splash_frame.pixels ≡ splash
    → AllShown info l.submitted
    → Settled info now l
    → Good info (Taken info now) (receive info splash_frame event l)
unfolding receive
receive-Good info splash_frame event l now sp log w =
    elim event as (λ k. Good info (Taken info now) (receive info splash_frame k l)) [
      | signalled ↦ idle
      | broken e ↦ (log, inl (e, refl))
      | quiet ↦ idle
      | readable interrupted ↦ idle
      | readable (unreadable e) ↦ (log, inl (e, refl))
      | readable short ↦ (log, inl (eproto, refl))
      | readable (update u) ↦ take_update-Good info splash_frame u l now sp log w
      | hung_up ↦ (log, inl (eio, refl))
    ]
  where
    idle : Good info (Taken info now) (l, success)
    idle = (log, inr (refl, record { waiting = w.waiting; current = inl w.current }))

-- A part of one of the whole slots that lie in a mapping lies in it.
slot-le-map :
    (slot slots bytes part map_bytes : ℕ)
    → slot < slots
    → part ≤ bytes
    → slots * bytes ≤ map_bytes
    → slot * bytes + part ≤ map_bytes
slot-le-map slot slots bytes part map_bytes h p fits =
    let whole : (slot + 1) * bytes ≤ slots * bytes = mul-le-mul_right bytes (omega (arith, h)) in
    omega (arith, whole, p, fits)

submit_update-Good :
    (info : DeviceInfo) (p : Pass) (u : Update) (l : Loop)
    → info.slots * info.slot_bytes ≤ info.map_bytes
    → AllShown info l.submitted
    → l.startup_hold_until_ns ≤ p.now_ns
    → l.pinned ≡ some u.slot
    → validate_update info u ≡ success
    → Good info (Settled info p.now_ns) (submit_update info p u l)
unfolding submit_update frame_of accept
submit_update-Good info p u l fits log over pin valid = elim (Status-cases p.submit) [
  | inr (e, x) ↦
      Good-of info (Settled info p.now_ns)
        {out' = (record l { frame = frame_of info u l.frame.source }, failure e)}
        (rw (x, submit_update)) (log, inl (e, refl))
  | inl x ↦
      Good-of info (Settled info p.now_ns)
        {out' = (
          record (accept l (frame_of info u l.frame.source) p.submit_ns) { pending_update = none },
          success,
        )}
        (rw (x, submit_update))
        (
          AllShown-append info l.submitted _ log (inr held),
          inr (refl, record { waiting = inl refl; current = inr (held, over) }),
        )
]
  where
    held : Held info l.pinned (frame_of info u l.frame.source)
    held = record {
      slot = u.slot;
      is_pinned = pin;
      in_ring = (validate_update_lem info u valid).0;
      at_slot = refl;
      in_slot = (validate_update_lem info u valid).1;
      in_mapping =
          (slot-le-map u.slot info.slots info.slot_bytes (u64 (u.stride * u.height)) info.map_bytes
            (validate_update_lem info u valid).0 (validate_update_lem info u valid).1 fits);
    }

pub present-Good :
    (info : DeviceInfo) (p : Pass) (l : Loop)
    → info.slots * info.slot_bytes ≤ info.map_bytes
    → AllShown info l.submitted
    → Taken info p.now_ns l
    → Good info (Settled info p.now_ns) (present info p l)
unfolding present
present-Good info p l fits log w = elim w.waiting [
  | inl none_waits ↦
      Good-of info (Settled info p.now_ns) {out' = (l, success)} (ap choose none_waits)
        (log, inr (refl, record { waiting = inl none_waits; current = kept none_waits w.current }))
  | inr (u, waits, pin, valid) ↦ elim (Bool-cases (leb l.startup_hold_until_ns p.now_ns)) [
    | inl over ↦
        Good-of info (Settled info p.now_ns) {out' = submit_update info p u l}
          (ap choose waits ∙ due u over)
          (submit_update-Good info p u l fits log (leb→le _ _ over) pin valid)
    | inr held ↦
        Good-of info (Settled info p.now_ns) {out' = (l, success)} (ap choose waits ∙ early u held)
          (log, inr (refl, record { waiting = w.waiting; current = not_due held w.current }))
  ]
]
  where
    choose : Option Update → Loop × Status
    choose o = elim o [
      | none ↦ (l, success)
      | some u ↦
          if leb l.startup_hold_until_ns p.now_ns then submit_update info p u l else (l, success)
    ]

    due :
        (u : Update)
        → leb l.startup_hold_until_ns p.now_ns ≡ true
        → choose (some u) ≡ submit_update info p u l
    due u e = rw e

    early :
        (u : Update) → leb l.startup_hold_until_ns p.now_ns ≡ false → choose (some u) ≡ (l, success)
    early u e = rw e

    kept :
        l.pending_update ≡ none → Current info p.now_ns l ⊎ Due p.now_ns l → Current info p.now_ns l
    kept e (inl c) = c
    kept e (inr ((u, waits), t)) = absurd (apart (sym e ∙ waits))
      where
        apart : none ≡ some u → ⊥
        apart q = cc

    not_due :
        leb l.startup_hold_until_ns p.now_ns ≡ false
        → Current info p.now_ns l ⊎ Due p.now_ns l
        → Current info p.now_ns l
    not_due e (inl c) = c
    not_due e (inr (u, t)) = absurd (ground arith)
