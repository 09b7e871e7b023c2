-- ===== src/Actions/Input/Laws.antt =====
-- backends/actions-micro/actions_micro_backend.c: what reading the device's reports can change.
use usbdisplay_stack.Common.{
  ℕ, ◌+◌, ◌≡◌, refl, ◌⊎◌, inl, inr, true, Option, none, some, List, [], ◌∷◌, arith, Status, success,
  failure, estale,
}
use usbdisplay_stack.Actions.Input.{
  read_interface, read_interfaces, poll_hid_inputs, Link, Interface, Polled, hung_up, report,
  end_of_file, try_again, unreadable, silent, interrupted, poll_failed, no_input, polled,
}
use usbdisplay_stack.Actions.Session.{
  parse_message, acknowledges, renegotiate, consume_message, consume_sync_report, Session, Message,
}
use usbdisplay_stack.Actions.Session.Laws.{consume_sync_report-IsConsistent, IsConsistent}

-- What a reader leaves: consistent flags, the local ID, and an error only with its cause.
pub record IsRead (l : Link) (out : Link × Status) : Type 0 where
  pub consistent : IsConsistent out.0.session
  pub same_local : out.0.session.local_session ≡ l.session.local_session
  pub caused : (out.1 ≡ success) ⊎ (out.1 ≡ failure estale) ⊎ (out.0.transport_failed ≡ true)

consume_sync_report_lem :
    (s : Session) (r : List ℕ) (n : ℕ)
    → let (s', result) = consume_sync_report s r n in
      (s'.local_session ≡ s.local_session) × ((result ≡ success) ⊎ (result ≡ failure estale))
unfolding consume_sync_report consume_message acknowledges renegotiate
consume_sync_report_lem s r n = go (parse_message r n)
  where
    go :
        (o : Option Message)
        → let (s', result) : Session × Status = elim o [
          | none ↦ (s, success)
          | some m ↦ consume_message s m
        ] in
          (s'.local_session ≡ s.local_session) × ((result ≡ success) ⊎ (result ≡ failure estale))
    go none = (refl, inl refl)
    go (some m) = ground arith

read_interface-IsRead :
    (now_ns index : ℕ) (i : Interface) (l : Link)
    → IsConsistent l.session
    → let out = read_interface now_ns index i l in IsRead l (out.0, out.1)
unfolding read_interface
read_interface-IsRead now_ns index hung_up l v = record {
  consistent = v;
  same_local = refl;
  caused = inr (inr refl);
}
read_interface-IsRead now_ns index (report r n) l v =
    let (same, cause) = consume_sync_report_lem l.session r n in
    record {
      consistent = consume_sync_report-IsConsistent l.session r n v;
      same_local = same;
      caused = ground (arith, cause);
    }
read_interface-IsRead now_ns index end_of_file l v = record {
  consistent = v;
  same_local = refl;
  caused = inr (inr refl);
}
read_interface-IsRead now_ns index try_again l v = record {
  consistent = v;
  same_local = refl;
  caused = inl refl;
}
read_interface-IsRead now_ns index (unreadable e) l v = record {
  consistent = v;
  same_local = refl;
  caused = inr (inr refl);
}
read_interface-IsRead now_ns index silent l v = record {
  consistent = v;
  same_local = refl;
  caused = inl refl;
}

read_interfaces-IsRead :
    (now_ns : ℕ) (first second : Interface) (l : Link)
    → IsConsistent l.session
    → let out = read_interfaces now_ns first second l in IsRead l (out.0, out.1)
unfolding read_interfaces
read_interfaces-IsRead now_ns first second l v =
    let one = read_interface-IsRead now_ns 0 first l v in
    let l1 = (read_interface now_ns 0 first l).0 in
    let two = read_interface-IsRead now_ns 1 second l1 one.consistent in ground (arith, one, two)

-- Whatever arrives, the flags stay consistent and the local ID is kept, and the only error that does
-- not mark the transport as failed is that of a session which the device has changed.
pub poll_hid_inputs-IsRead :
    (now_ns reads : ℕ) (polls : List Polled) (l : Link)
    → IsConsistent l.session
    → IsRead l (poll_hid_inputs now_ns reads polls l)
unfolding poll_hid_inputs
poll_hid_inputs-IsRead now_ns reads [] l v = record {
  consistent = v;
  same_local = refl;
  caused = inl refl;
}
poll_hid_inputs-IsRead now_ns reads (interrupted ∷ polls) l v = record {
  consistent = v;
  same_local = refl;
  caused = inl refl;
}
poll_hid_inputs-IsRead now_ns reads (poll_failed e ∷ polls) l v = ground arith
poll_hid_inputs-IsRead now_ns reads (no_input ∷ polls) l v = record {
  consistent = v;
  same_local = refl;
  caused = inl refl;
}
poll_hid_inputs-IsRead now_ns reads (polled first second ∷ polls) l v =
    let out = read_interfaces now_ns first second l in
    let here = read_interfaces-IsRead now_ns first second l v in
    let rest = poll_hid_inputs-IsRead now_ns (reads + out.2) polls out.0 here.consistent in
    ground (arith, here, rest)
