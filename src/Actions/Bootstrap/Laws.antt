-- ===== src/Actions/Bootstrap/Laws.antt =====
-- backends/actions-micro/actions_micro_backend.c: the commands that are played carry the next numbers.
use usbdisplay_stack.Common.{
  ℕ, ◌+◌, ◌≤◌, ◌<◌, ◌≡◌, refl, sym, ◌∙◌, ◌≢◌, ◌⊎◌, inl, true, false, List, [], ◌∷◌, ◌++◌, arith,
  if◌then◌else◌, u32, success, length,
}
use usbdisplay_stack.Actions.Bootstrap.{played_report, play_report}
use usbdisplay_stack.Actions.Heartbeat.{StoredReport}
use usbdisplay_stack.Actions.Session.{Session}
use usbdisplay_stack.Actions.Transport.{
  rest_outcomes, write_report, send_report, advance_transport_state, is_sync_report, Transport,
}
use usbdisplay_stack.Actions.Video.{sleep}
use usbdisplay_stack.Actions.Wire.{
  byte, read_le16, read_le32, write_le32, mem_eq, rewrite_report_session,
}
use usbdisplay_stack.Actions.Wire.Laws.{
  read_le32-write_le32, length-write_le32, byte-write_le32, rewrite_report_session_lem,
}

-- What a captured report is sent as: to its own interface, with the given sequence number, no SYNC, and
-- with all of its bytes but those of the sequence number and of the two session IDs.
pub record IsSentAs (sequence : ℕ) (r : StoredReport) (x : ℕ × List ℕ) : Type 0 where
  pub to_interface : x.0 ≡ r.endpoint
  pub number : read_le32 x.1 4 ≡ sequence
  pub plain : is_sync_report x.1 ≡ false
  pub same_bytes : (i : ℕ) → (i < 4) ⊎ (8 ≤ i) × (i < 22) ⊎ (26 ≤ i) → byte x.1 i ≡ byte r.report i

-- The first of the captured commands, one behind the other, with sequence numbers from `sequence` on.
abbrev pub AreSentAs : ℕ → List StoredReport → List (ℕ × List ℕ) → Type 0
AreSentAs sequence commands [] = Unit {0}
AreSentAs sequence [] (x ∷ sent) = ⊥
AreSentAs sequence (r ∷ commands) (x ∷ sent) =
    IsSentAs sequence r x × AreSentAs (u32 (sequence + 1)) commands sent

-- The reports that are no SYNCs.
abbrev pub commands_of : List StoredReport → List StoredReport
commands_of [] = []
commands_of (r ∷ reports) =
    if is_sync_report r.report then commands_of reports else r ∷ commands_of reports

-- Whole commands, as load_template keeps them.
abbrev pub AreWholeCommands : List StoredReport → Type 0
AreWholeCommands [] = Unit {0}
AreWholeCommands (r ∷ reports) =
    (length r.report ≡ 4096) × (byte r.report 1 ≡ 1) × AreWholeCommands reports

-- The bytes of a report but those of its sequence number and of the session IDs.
same_bytes-sync :
    (a b : List ℕ)
    → ((i : ℕ) → (i ≡ 1) ⊎ (8 ≤ i) × (i < 22) → byte a i ≡ byte b i)
    → is_sync_report a ≡ is_sync_report b
unfolding is_sync_report read_le32 read_le16 mem_eq
same_bytes-sync a b h = rw (
  h 1 (omega arith),
  h 8 (omega arith),
  h 9 (omega arith),
  h 10 (omega arith),
  h 11 (omega arith),
  h 12 (omega arith),
  h 13 (omega arith),
  h 18 (omega arith),
  h 19 (omega arith),
  h 20 (omega arith),
  h 21 (omega arith),
)

-- The number that a command is sent with, and whether it is a SYNC.
pub sent_report_lem :
    (s : Session) (d : List ℕ) (sequence : ℕ)
    → length d ≡ 4096
    → sequence < 4294967296
    → s.local_session < 65536
    → s.remote_session < 65536
    → let r =
        (rewrite_report_session (write_le32 d 4 sequence) s.local_session s.remote_session).0 in
      (read_le32 r 4 ≡ sequence) × (is_sync_report r ≡ is_sync_report d)
unfolding read_le32
sent_report_lem s d sequence long small l m =
    let numbered = write_le32 d 4 sequence in
    let r = (rewrite_report_session numbered s.local_session s.remote_session).0 in
    let entire = length-write_le32 d 4 sequence ∙ long in
    let kept : (i : ℕ) → i < 22 → byte r i ≡ byte numbered i = λ i low.
      (rewrite_report_session_lem numbered s.local_session s.remote_session i entire l m
        (inl low)).2 in
    (
      rw (kept 4 (omega arith), kept 5 (omega arith), kept 6 (omega arith), kept 7 (omega arith))
          (read_le32-write_le32 d 4 sequence (omega (arith, long)) small),
      same_bytes-sync r d
          (λ i h. kept i (omega arith) ∙ byte-write_le32 d 4 sequence i (omega arith)),
    )

-- What a command that is no SYNC is sent as.
pub sent_report-IsSentAs :
    (s : Session) (c : StoredReport) (sequence : ℕ)
    → length c.report ≡ 4096
    → sequence < 4294967296
    → s.local_session < 65536
    → s.remote_session < 65536
    → is_sync_report c.report ≡ false
    → IsSentAs sequence c (
      c.endpoint,
      (rewrite_report_session (write_le32 c.report 4 sequence) s.local_session s.remote_session).0,
    )
sent_report-IsSentAs s c sequence long small l m plain =
    let numbered = write_le32 c.report 4 sequence in
    let entire = length-write_le32 c.report 4 sequence ∙ long in
    let (number, kind) = sent_report_lem s c.report sequence long small l m in
    record {
      to_interface = refl;
      number = number;
      plain = kind ∙ plain;
      same_bytes = λ i outside.
          (rewrite_report_session_lem numbered s.local_session s.remote_session i entire l m
            (omega (arith, outside))).2
          ∙ byte-write_le32 c.report 4 sequence i (omega (arith, outside));
    }

send_report_cases :
    (s : Session) (t : Transport) (endpoint : ℕ) (d : List ℕ)
    → let (t', result) = send_report s t endpoint d in
      let sent = (rewrite_report_session d s.local_session s.remote_session).0 in
      (t'.command_sequence ≡ t.command_sequence)
      × ((result ≡ success) × (t'.sent ≡ t.sent ++ ((endpoint, sent) ∷ []))
          ⊎ (result ≢ success) × (t'.sent ≡ t.sent))
unfolding send_report write_report
send_report_cases s t endpoint d = ground arith

advance_command :
    (t : Transport) (endpoint : ℕ) (d : List ℕ)
    → byte d 1 ≡ 1
    → read_le32 d 4 ≡ t.command_sequence
    → let t' = advance_transport_state t endpoint d in
      (t'.sent ≡ t.sent) × (t'.command_sequence ≡ u32 (t.command_sequence + 1))
unfolding advance_transport_state
advance_command t endpoint d command same = ground (arith, command, same)

pub play_report_cases :
    (s : Session) (r : StoredReport) (t : Transport)
    → length r.report ≡ 4096
    → byte r.report 1 ≡ 1
    → t.command_sequence < 4294967296
    → let (t', result) = play_report false s r t in
      let sent =
        (rewrite_report_session
          (write_le32 r.report 4 t.command_sequence)
          s.local_session
          s.remote_session).0 in
      (is_sync_report r.report ≡ true) × (t' ≡ t) × (result ≡ success)
      ⊎ (is_sync_report r.report ≡ false)
        × ((result ≡ success)
              × (t'.sent ≡ t.sent ++ ((r.endpoint, sent) ∷ []))
              × (t'.command_sequence ≡ u32 (t.command_sequence + 1))
            ⊎ (result ≢ success) × (t'.sent ≡ t.sent))
unfolding play_report played_report sleep
play_report_cases s r t long command small =
    let report = write_le32 r.report 4 t.command_sequence in
    let t1 : Transport = record t { outcomes = rest_outcomes t.outcomes } in
    let t2 = (send_report s t1 r.endpoint report).0 in
    let sends = send_report_cases s t1 r.endpoint report in
    let kind : byte report 1 ≡ 1 =
      byte-write_le32 r.report 4 t.command_sequence 1 (omega arith) ∙ command in
    let number = read_le32-write_le32 r.report 4 t.command_sequence (omega (arith, long)) small in
    let moved = advance_command t2 r.endpoint report kind (number ∙ sym sends.0) in
    ground (arith, sends, moved)
