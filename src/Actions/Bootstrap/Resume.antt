-- ===== src/Actions/Bootstrap/Resume.antt =====
-- backends/actions-micro/actions_micro_backend.c: after a reset the numbers go on where they stopped.
use usbdisplay_stack.Common.{
  ℕ, ◌+◌, ◌<◌, ◌≡◌, refl, ap₂, ◌≢◌, ◌⊎◌, true, false, Option, none, some, List, [], ◌∷◌, map, arith,
  ◌==◌, if◌then◌else◌, u32, sub32, length,
}
use usbdisplay_stack.Actions.Bootstrap.{move_report, move_reports, TransportSequenceResume, Offsets}
use usbdisplay_stack.Actions.Heartbeat.{StoredReport}
use usbdisplay_stack.Actions.Wire.{byte, read_le32, write_le32}
use usbdisplay_stack.Actions.Wire.Laws.{read_le32-write_le32, byte-write_le32}

-- The number of the first report of a kind: 1 for commands, 2 for video.
abbrev pub first_number : ℕ → List StoredReport → Option ℕ
first_number kind [] = none
first_number kind (r ∷ reports) =
    if byte r.report 1 == kind then some (read_le32 r.report 4) else first_number kind reports

-- A report whose number moved by the offset of its kind.
abbrev pub moved : ℕ → ℕ → StoredReport → StoredReport
moved command video r =
    let sequence = read_le32 r.report 4 in
    if byte r.report 1 == 1
    then record r { report = write_le32 r.report 4 (u32 (sequence + command)) }
    else if byte r.report 1 == 2
    then record r { report = write_le32 r.report 4 (u32 (sequence + video)) }
    else r

abbrev pub AreWhole : List StoredReport → Type 0
AreWhole [] = Unit {0}
AreWhole (r ∷ reports) =
    (length r.report ≡ 4096) × (read_le32 r.report 4 < 4294967296) × AreWhole reports

-- An offset that is found stays.
move_report_keeps :
    (saved : TransportSequenceResume) (r : StoredReport) (o : Offsets)
    → let (r', o') = move_report saved r o in
      (o.command_found ≡ true
        → (o'.command_found ≡ true) × (o'.command_sequence_offset ≡ o.command_sequence_offset))
      × (o.video_found ≡ true
          → (o'.video_found ≡ true) × (o'.video_sequence_offset ≡ o.video_sequence_offset))
unfolding move_report
move_report_keeps saved r o = ground arith

pub move_reports_keeps :
    (saved : TransportSequenceResume) (reports : List StoredReport) (o : Offsets)
    → let o' = (move_reports saved reports o).1 in
      (o.command_found ≡ true
        → (o'.command_found ≡ true) × (o'.command_sequence_offset ≡ o.command_sequence_offset))
      × (o.video_found ≡ true
          → (o'.video_found ≡ true) × (o'.video_sequence_offset ≡ o.video_sequence_offset))
unfolding move_reports
move_reports_keeps saved [] o = ground arith
move_reports_keeps saved (r ∷ reports) o =
    let one = move_report_keeps saved r o in
    let rest = move_reports_keeps saved reports (move_report saved r o).1 in
    ground (arith, one, rest)

-- Every report moves by the same two offsets.
move_report-moved :
    (saved : TransportSequenceResume) (r : StoredReport) (o : Offsets) (command video : ℕ)
    → let (r', o') = move_report saved r o in
      (o'.command_found ≡ true → command ≡ o'.command_sequence_offset)
      → (o'.video_found ≡ true → video ≡ o'.video_sequence_offset)
      → r' ≡ moved command video r
unfolding move_report
move_report-moved saved r o command video c v = ground (arith, c, v)

pub move_reports-moved :
    (saved : TransportSequenceResume) (reports : List StoredReport) (o : Offsets)
    → let (reports', o') = move_reports saved reports o in
      reports' ≡ map (moved o'.command_sequence_offset o'.video_sequence_offset) reports
unfolding move_reports
move_reports-moved saved [] o = refl
move_reports-moved saved (r ∷ reports) o =
    let (r', o1) = move_report saved r o in
    let (reports', o2) = move_reports saved reports o1 in
    let keeps = move_reports_keeps saved reports o1 in
    ap₂ (λ x xs. x ∷ xs)
      (move_report-moved saved r o o2.command_sequence_offset o2.video_sequence_offset
        (λ h. (keeps.0 h).1) (λ h. (keeps.1 h).1))
      (move_reports-moved saved reports o1)

-- What a moved report has: its kind, and, if it is the first of its kind, the saved number.
pub move_report_first :
    (saved : TransportSequenceResume) (r : StoredReport) (o : Offsets)
    → length r.report ≡ 4096
    → read_le32 r.report 4 < 4294967296
    → saved.command_sequence < 4294967296
    → saved.video_sequence < 4294967296
    → let (r', o') = move_report saved r o in
      (byte r'.report 1 ≡ byte r.report 1)
      × (o.command_found ≡ false
          → (byte r.report 1 ≡ 1)
              × (o'.command_found ≡ true)
              × (read_le32 r'.report 4 ≡ saved.command_sequence)
            ⊎ (byte r.report 1 ≢ 1) × (o'.command_found ≡ false))
      × (o.video_found ≡ false
          → (byte r.report 1 ≡ 2)
              × (o'.video_found ≡ true)
              × (read_le32 r'.report 4 ≡ saved.video_sequence)
            ⊎ (byte r.report 1 ≢ 2) × (o'.video_found ≡ false))
unfolding move_report
move_report_first saved r o long small c v =
    let n = read_le32 r.report 4 in
    let command =
      if o.command_found then o.command_sequence_offset else sub32 saved.command_sequence n in
    let video = if o.video_found then o.video_sequence_offset else sub32 saved.video_sequence n in
    let kind = byte-write_le32 r.report 4 (u32 (n + command)) 1 (omega arith) in
    let kind' = byte-write_le32 r.report 4 (u32 (n + video)) 1 (omega arith) in
    let number =
      read_le32-write_le32 r.report 4 (u32 (n + command)) (omega (arith, long)) (omega arith) in
    let number' =
      read_le32-write_le32 r.report 4 (u32 (n + video)) (omega (arith, long)) (omega arith) in
    ground (arith, kind, kind', number, number', small, c, v)

-- A report finds the offset of its kind.
pub move_report_finds :
    (saved : TransportSequenceResume) (r : StoredReport) (o : Offsets)
    → let o' = (move_report saved r o).1 in
      (byte r.report 1 ≡ 1 → o'.command_found ≡ true)
      × (byte r.report 1 ≡ 2 → o'.video_found ≡ true)
unfolding move_report
move_report_finds saved r o = ground arith
