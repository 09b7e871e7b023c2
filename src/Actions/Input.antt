-- ===== src/Actions/Input.antt =====
-- backends/actions-micro/actions_micro_backend.c: reading the device's reports (poll_hid_inputs) and
-- the negotiation of the session (negotiate_session).
pub mod Laws
pub mod Negotiated
use usbdisplay_stack.Common.{
  ℕ, zero, suc, ◌+◌, Bool, true, not, ◌&&◌, ◌||◌, List, [], ◌∷◌, ltb, leb, ◌==◌, if◌then◌else◌, u64,
  Errno, Status, success, failure, etimedout, enodev, eio,
}
use usbdisplay_stack.Actions.Session.{consume_sync_report, Session}
use usbdisplay_stack.Actions.Transport.{send_sync_report, Transport}

abbrev pub max_input_reads_per_tick : ℕ
max_input_reads_per_tick = 32

-- The fields of struct actions_context that reading reports works on. The flag transport_failed stands
-- here for the readers and in Transport for the writers: the flag of the code is set when either is.
pub record Link : Type 0 where
  pub session : Session
  pub transport_failed : Bool
  pub last_input_ns : ℕ
  pub input_reports : ℕ
  pub input_reports0 : ℕ
  pub input_reports1 : ℕ

-- What poll reports of one interface, with what read answers if it says that there is input: a report of
-- so many bytes, the end of the file, a read to try again, or a failure.
pub data Interface : Type 0 where
  hung_up : Interface
  report : List ℕ → ℕ → Interface
  end_of_file : Interface
  try_again : Interface
  unreadable : Errno → Interface
  silent : Interface

-- What poll answers.
pub data Polled : Type 0 where
  interrupted : Polled
  poll_failed : Errno → Polled
  no_input : Polled
  polled : Interface → Interface → Polled

-- ++state->input_reports_by_endpoint[index]
abbrev count_report : ℕ → Link → Link
count_report index l = record l {
  input_reports = u64 (l.input_reports + 1);
  input_reports0 = if index == 0 then u64 (l.input_reports0 + 1) else l.input_reports0;
  input_reports1 = if index == 0 then l.input_reports1 else u64 (l.input_reports1 + 1);
}

-- The body of the inner loop for one interface, with the reads it made, 0 or 1.
unfoldable pub read_interface : ℕ → ℕ → Interface → Link → Link × Status × ℕ
read_interface now_ns index hung_up l = (record l { transport_failed = true }, failure enodev, 0)
read_interface now_ns index (report r report_bytes) l =
    let (s, result) = consume_sync_report l.session r report_bytes in
    (count_report index (record l { session = s; last_input_ns = now_ns }), result, 1)
read_interface now_ns index end_of_file l = (record l { transport_failed = true }, failure eio, 0)
read_interface now_ns index try_again l = (l, success, 0)
read_interface now_ns index (unreadable e) l = (record l { transport_failed = true }, failure e, 0)
read_interface now_ns index silent l = (l, success, 0)

-- Both interfaces, the second only behind a success of the first.
unfoldable pub read_interfaces : ℕ → Interface → Interface → Link → Link × Status × ℕ
unfolding read_interface
read_interfaces now_ns first second l =
    let (l1, result, reads) = read_interface now_ns 0 first l in
    let (l2, result', reads') = read_interface now_ns 1 second l1 in
    elim result [ failure e ↦ (l1, failure e, reads) | success ↦ (l2, result', reads + reads') ]

-- The loop over the polls: `reads` reports were read so far, and a poll without a report ends it. A
-- script that has run out has no input.
unfoldable pub poll_hid_inputs : ℕ → ℕ → List Polled → Link → Link × Status
poll_hid_inputs now_ns reads [] l = (l, success)
poll_hid_inputs now_ns reads (interrupted ∷ polls) l = (l, success)
poll_hid_inputs now_ns reads (poll_failed e ∷ polls) l =
    if ltb reads max_input_reads_per_tick
    then (record l { transport_failed = true }, failure e)
    else (l, success)
poll_hid_inputs now_ns reads (no_input ∷ polls) l = (l, success)
poll_hid_inputs now_ns reads (polled first second ∷ polls) l =
    let (l', result, read) = read_interfaces now_ns first second l in
    let rest = poll_hid_inputs now_ns (reads + read) polls l' in
    if ltb reads max_input_reads_per_tick
    then elim result [
      | failure e ↦ (l', failure e)
      | success ↦ if read == 0 then (l', success) else rest
    ]
    else (l, success)

abbrev pub session_sync_timeout_ns : ℕ
session_sync_timeout_ns = 5000000000

abbrev pub session_sync_retry_ns : ℕ
session_sync_retry_ns = 500000000

abbrev pub max_session_sync_polls : ℕ
max_session_sync_polls = 100

abbrev pub max_session_sync_sends : ℕ
max_session_sync_sends = 12

-- One round of the negotiation: what the clock shows, what the polls bring, and what the sleep answers.
pub record SyncRound : Type 0 where
  pub now_ns : ℕ
  pub polls : List Polled
  pub slept : Status

-- The state of the negotiation: the link, the transport, and the variables next_send and sends.
pub record Negotiation : Type 0 where
  pub link : Link
  pub transport : Transport
  pub next_send : ℕ
  pub sends : ℕ

-- sends < MAX_SESSION_SYNC_SENDS && (sync_reply_pending || now_ns >= next_send)
unfoldable pub sync_due : ℕ → Negotiation → Bool
sync_due now_ns g =
    ltb g.sends max_session_sync_sends
    && (g.link.session.sync_reply_pending || leb g.next_send now_ns)

unfoldable pub send_sync : ℕ → Negotiation → Negotiation × Status
unfolding sync_due
send_sync now_ns g =
    let (s, t, result) = send_sync_report g.link.session g.transport in
    if sync_due now_ns g
    then (
      record g {
        link = record g.link {
          session = s;
          transport_failed = g.link.transport_failed || t.transport_failed;
        };
        transport = t;
        sends = g.sends + 1;
        next_send = u64 (now_ns + session_sync_retry_ns);
      },
      result,
    )
    else (g, success)

unfoldable pub negotiate_round : SyncRound → Negotiation → Negotiation × Status
unfolding send_sync
negotiate_round r g =
    let (g1, sent) = send_sync r.now_ns g in
    let (l, read) = poll_hid_inputs r.now_ns 0 r.polls g1.link in
    let g2 = record g1 { link = l } in
    elim sent [
      | failure e ↦ (g1, failure e)
      | success ↦ elim read [
        | failure e ↦ (g2, failure e)
        | success ↦ (g2, if not l.session.session_confirmed then r.slept else success)
      ]
    ]

-- The loop: at most so many attempts, until the session is confirmed, something fails or the deadline is
-- over. A script that has run out shows a clock past the deadline.
unfoldable pub negotiate_rounds : ℕ → ℕ → List SyncRound → Negotiation → Negotiation × Status
negotiate_rounds zero deadline rounds g = (g, success)
negotiate_rounds (suc attempts) deadline [] g = (g, success)
negotiate_rounds (suc attempts) deadline (r ∷ rounds) g =
    let (g', result) = negotiate_round r g in
    let rest = negotiate_rounds attempts deadline rounds g' in
    if g.link.session.session_confirmed || leb deadline r.now_ns
    then (g, success)
    else elim result [ failure e ↦ (g', failure e) | success ↦ rest ]

unfoldable pub negotiate_session : ℕ → List SyncRound → Link → Transport → Link × Transport × Status
negotiate_session start_ns rounds l t =
    let (g, result) =
      negotiate_rounds max_session_sync_polls (u64 (start_ns + session_sync_timeout_ns)) rounds
        (record { link = l; transport = t; next_send = 0; sends = 0 }) in
    (
      g.link,
      g.transport,
      elim result [
        | failure e ↦ failure e
        | success ↦ if g.link.session.session_confirmed then success else failure etimedout
      ],
    )
