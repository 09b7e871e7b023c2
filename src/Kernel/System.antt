-- ===== src/Kernel/System.antt =====
-- kernel/usbdisplay_drv.c: producers and consumers of one device, in any order. Every critical
-- section runs under publish_lock, so the calls interleave as whole steps.
use usbdisplay_stack.Common.{
  ℕ, suc, ◌-◌, ◌≡◌, refl, sym, ap, ◌∙◌, ◌≢◌, inl, inr, Bool, true, false, Option, none, some, List,
  [], ◌∷◌, ◌++◌, arith, ltb, ◌==◌, if◌then◌else◌, Status-cases, Status, Result, ok, err, ◌then_try◌,
  length, ebusy, enomem,
}
use usbdisplay_stack.Kernel.Device.{Device, FileContext}
use usbdisplay_stack.Kernel.Publish.{publish, Request}
use usbdisplay_stack.Kernel.Publish.Frames.{with_consumer-IsAnnounced, IsAnnounced}
use usbdisplay_stack.Kernel.Publish.Ready.{SlotIn, with_consumer, with_consumer-IsReady, IsReady}
use usbdisplay_stack.Kernel.Publish.Snapshots.{
  publish-IsReady, publish_geometry, publish-IsAnnounced,
}
use usbdisplay_stack.Kernel.Stream.{stream_open, same_slot, stream_release, read_ready, stream_read}
use usbdisplay_stack.Kernel.Stream.Laws.{stream_open_exclusive, read_refused, read_taken}

-- The device, and the stream contexts that are open.
pub record System : Type 0 where
  pub device : Device
  pub files : List FileContext

-- What a return of usbdisplay_stream_open leaves.
abbrev pub opened : List FileContext → Device × Result FileContext → System
opened files (d, ok f) = record { device = d; files = f ∷ files }
opened files (d, err e) = record { device = d; files = files }

-- A read may be decided on any earlier state of the device, since it does not lock while it waits.
pub data Step : System → System → Type 0 where
  produce :
      (s : System) (now : ℕ) (r : Request)
      → Step s (record s { device = (publish s.device now r).0 })
  open_stream :
      (s : System) (allocated : Bool) → Step s (opened s.files (stream_open allocated s.device))
  close_stream :
      (s : System) (before after : List FileContext) (f : FileContext)
      → s.files ≡ before ++ (f ∷ after)
      → Step s (record { device = stream_release f s.device; files = before ++ after })
  read_stream :
      (s : System) (before after : List FileContext) (f : FileContext) (update_bytes count : ℕ)
      (nonblock copied : Bool) (earlier : Device) (waited : Status)
      → s.files ≡ before ++ (f ∷ after)
      → Step s (
          let (d, g, u) =
            stream_read update_bytes count nonblock earlier waited copied f s.device in
          record { device = d; files = before ++ (g ∷ after) })

pub data Reach (s : System) : System → Type 0 where
  here : Reach s s
  next : {t u : System} → Reach s t → Step t u → Reach s u

-- At most one stream is open, and the slot that it holds is the one that the device keeps.
abbrev pub HeldBy : Option ℕ → List FileContext → Type 0
HeldBy h [] = h ≡ none
HeldBy h (f ∷ []) = h ≡ f.held_slot
HeldBy h (f ∷ g ∷ files) = ⊥

pub record IsSound (s : System) : Type 0 where
  pub ready : IsReady s.device
  pub announced : IsAnnounced s.device
  pub counted : s.device.consumer_open ≡ length s.files
  pub held : HeldBy s.device.held_slot s.files

-- The place of an open stream in a list of at most one.
only_file :
    {h : Option ℕ} (files before after : List FileContext) (f : FileContext)
    → HeldBy h files
    → files ≡ before ++ (f ∷ after)
    → (before ≡ []) × (after ≡ []) × (h ≡ f.held_slot) × (length files ≡ 1)
only_file [] [] after f v e = absurd cc
only_file [] (b ∷ before) after f v e = absurd cc
only_file (g ∷ []) [] [] f v e = (refl, refl, cc, refl)
only_file (g ∷ []) [] (a ∷ after) f v e = absurd cc
only_file (g ∷ []) (b ∷ []) after f v e = absurd cc
only_file (g ∷ []) (b ∷ c ∷ before) after f v e = absurd cc
only_file (g ∷ k ∷ files) before after f v e = absurd v

produce-IsSound :
    (s : System) (now : ℕ) (r : Request)
    → IsSound s
    → IsSound (record s { device = (publish s.device now r).0 })
produce-IsSound s now r v =
    let (gw, gh, gs, gm, same, co, po) = publish_geometry s.device v.ready now r in
    record {
      ready = publish-IsReady s.device now r v.ready;
      announced = publish-IsAnnounced s.device now r v.ready v.announced;
      counted = co ∙ v.counted;
      held = rw same v.held;
    }

-- A change of the consumer's part of the device keeps the system sound if its books agree.
consumer-IsSound :
    (s : System) (held : Option ℕ) (opens : ℕ) (files : List FileContext)
    → IsSound s
    → SlotIn held
    → opens ≡ length files
    → HeldBy held files
    → IsSound (record { device = with_consumer s.device held opens; files = files })
consumer-IsSound s held opens files v slot count holds = record {
  ready = with_consumer-IsReady s.device held opens v.ready slot;
  announced = with_consumer-IsAnnounced s.device held opens v.announced;
  counted = count;
  held = holds;
}

abbrev fresh : Device → FileContext
fresh d = record {
  last_sequence = if ltb 0 d.sequence then d.sequence - 1 else 0;
  held_slot = none;
}

open_none :
    (allocated : Bool) (d : Device)
    → d.consumer_open ≡ 0
    → stream_open allocated d ≡ (
        if allocated
        then (record d { consumer_open = 1 }, ok (fresh d))
        else (record d { consumer_open = 0 }, err enomem))
unfolding stream_open
open_none true d h = let e : (d.consumer_open == 0) ≡ true = ground arith in rw e
open_none false d h = let e : (d.consumer_open == 0) ≡ true = ground arith in rw e

open_again :
    (allocated : Bool) (d : Device) → d.consumer_open ≢ 0 → stream_open allocated d ≡ (d, err ebusy)
open_again allocated d h = (stream_open_exclusive d).1 h allocated

open_stream-IsSound :
    (files : List FileContext) (s : System) (allocated : Bool)
    → s.files ≡ files
    → IsSound s
    → IsSound (opened s.files (stream_open allocated s.device))
open_stream-IsSound [] s true e v =
    rw (open_none true s.device (v.counted ∙ ap length e), e)
      (consumer-IsSound s s.device.held_slot 1 (fresh s.device ∷ []) v v.ready.held_in refl
        (rw e at v.held))
open_stream-IsSound [] s false e v =
    rw (open_none false s.device (v.counted ∙ ap length e), e)
      (consumer-IsSound s s.device.held_slot 0 [] v v.ready.held_in refl (rw e at v.held))
open_stream-IsSound (f ∷ files) s allocated e v =
    rw (open_again allocated s.device (λ q. busy (sym q ∙ v.counted ∙ ap length e))) v
  where
    busy : 0 ≡ suc (length files) → ⊥
    busy q = omega arith

same_slot_refl : (h : Option ℕ) → same_slot h h ≡ true
same_slot_refl none = refl
same_slot_refl (some a) = ground arith

close_stream-IsSound :
    (s : System) (f : FileContext)
    → IsSound s
    → s.device.held_slot ≡ f.held_slot
    → IsSound (record { device = stream_release f s.device; files = [] })
unfolding stream_release
close_stream-IsSound s f v e =
    let same : same_slot s.device.held_slot f.held_slot ≡ true =
      rw (← e) (same_slot_refl s.device.held_slot) in
    rw same (consumer-IsSound s none 0 [] v tt refl refl)

read_stream-IsSound :
    (s : System) (f : FileContext) (update_bytes count : ℕ) (nonblock copied : Bool)
    (earlier : Device) (waited : Status)
    → IsSound s
    → s.device.held_slot ≡ f.held_slot
    → s.device.consumer_open ≡ 1
    → let (d, g, u) = stream_read update_bytes count nonblock earlier waited copied f s.device in
      IsSound (record { device = d; files = g ∷ [] })
read_stream-IsSound s f update_bytes count nonblock copied earlier waited v e one =
    elim (Status-cases (read_ready update_bytes count nonblock f earlier then_try waited)) [
      | inl q ↦ rw (read_taken update_bytes count nonblock copied earlier waited f s.device q) (
          consumer-IsSound s (some s.device.latest_update.slot) s.device.consumer_open _ v
            v.announced.slot_in one refl)
      | inr (x, q) ↦
          rw (read_refused update_bytes count nonblock copied earlier waited f s.device q) (
            consumer-IsSound s s.device.held_slot s.device.consumer_open (f ∷ []) v v.ready.held_in
              one e)
    ]

-- Every step keeps the system sound.
pub Step-IsSound : {s t : System} → Step s t → IsSound s → IsSound t
Step-IsSound (produce s now r) v = produce-IsSound s now r v
Step-IsSound (open_stream s allocated) v = open_stream-IsSound s.files s allocated refl v
Step-IsSound (close_stream s before after f e) v =
    let (b, a, held, one) = only_file s.files before after f v.held e in
    rw (b, a) (close_stream-IsSound s f v held)
Step-IsSound (read_stream s before after f update_bytes count nonblock copied earlier waited e) v =
    let (b, a, held, one) = only_file s.files before after f v.held e in
    rw (b, a)
      (read_stream-IsSound s f update_bytes count nonblock copied earlier waited v held
        (v.counted ∙ one))

-- From a sound system, whatever producers and consumers do in whatever order, the system stays sound:
-- at most one stream is open and counted, its slot is the one that the device keeps back, and the
-- newest update is one that the daemon can rely on.
pub Reach-IsSound : {s t : System} → IsSound s → Reach s t → IsSound t
Reach-IsSound v here = v
Reach-IsSound v (next r st) = Step-IsSound st (Reach-IsSound v r)
