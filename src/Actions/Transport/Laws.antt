-- ===== src/Actions/Transport/Laws.antt =====
-- backends/actions-micro/actions_micro_backend.c: what a send leaves behind.
use usbdisplay_stack.Common.{
  ℕ, ◌+◌, ◌≡◌, refl, true, false, List, [], ◌∷◌, ◌++◌, u64, Errno, success, failure, length, eproto,
}
use usbdisplay_stack.Actions.Session.{Session}
use usbdisplay_stack.Actions.Transport.{
  next_outcome, rest_outcomes, has_descriptor, write_report, send_report, is_sync_report,
  sync_report, Transport,
}
use usbdisplay_stack.Actions.Wire.{
  read_le16, read_le32, write_le16, write_le32, mem_eq, rewrite_report_session,
}

write_report_ok :
    (t : Transport) (endpoint : ℕ) (report : List ℕ)
    → next_outcome t.outcomes ≡ success
    → write_report t endpoint report ≡ (
      record t {
        reports = u64 (t.reports + 1);
        outcomes = rest_outcomes t.outcomes;
        sent = t.sent ++ ((endpoint, report) ∷ []);
      },
      success,
    )
unfolding write_report
write_report_ok t endpoint report e = rw (e, write_report)

write_report_failed :
    (t : Transport) (endpoint : ℕ) (report : List ℕ) {x : Errno}
    → next_outcome t.outcomes ≡ failure x
    → write_report t endpoint report
      ≡ (record t { transport_failed = true; outcomes = rest_outcomes t.outcomes }, failure x)
unfolding write_report
write_report_failed t endpoint report e = rw (e, write_report)

-- A report for an open interface that is written is the one report that the log gains, and one more is
-- counted.
pub send_report_ok :
    (s : Session) (t : Transport) (endpoint : ℕ) (d : List ℕ)
    → has_descriptor t endpoint ≡ true
    → next_outcome t.outcomes ≡ success
    → send_report s t endpoint d ≡ (
      record t {
        reports = u64 (t.reports + 1);
        outcomes = rest_outcomes t.outcomes;
        sent =
            t.sent
            ++ ((endpoint, (rewrite_report_session d s.local_session s.remote_session).0) ∷ []);
      },
      success,
    )
unfolding send_report
send_report_ok s t endpoint d open_hid e = rw open_hid (write_report_ok t endpoint _ e)

-- A write that fails on an open interface marks the transport as failed, and nothing is logged.
pub send_report_failed :
    (s : Session) (t : Transport) (endpoint : ℕ) (d : List ℕ) {x : Errno}
    → has_descriptor t endpoint ≡ true
    → next_outcome t.outcomes ≡ failure x
    → send_report s t endpoint d
      ≡ (record t { transport_failed = true; outcomes = rest_outcomes t.outcomes }, failure x)
unfolding send_report
send_report_failed s t endpoint d open_hid e = rw open_hid (write_report_failed t endpoint _ e)

-- An endpoint without an interface is refused without a trace.
pub send_report_closed :
    (s : Session) (t : Transport) (endpoint : ℕ) (d : List ℕ)
    → has_descriptor t endpoint ≡ false
    → send_report s t endpoint d ≡ (t, failure eproto)
unfolding send_report
send_report_closed s t endpoint d closed = rw closed

-- The report of send_sync_report is a SYNC of the form that the bootstrap leaves out: the
-- negotiation replaces it.
pub sync_report-IsSync :
    (endpoint sequence : ℕ) → is_sync_report (sync_report endpoint sequence) ≡ true
unfolding is_sync_report sync_report write_le16 write_le32 read_le16 read_le32 mem_eq
sync_report-IsSync endpoint sequence = refl

pub length-sync_report : (endpoint sequence : ℕ) → length (sync_report endpoint sequence) ≡ 4096
unfolding sync_report write_le16 write_le32
length-sync_report endpoint sequence = refl
