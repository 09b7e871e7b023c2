-- ===== src/Actions/Bootstrap.antt =====
-- backends/actions-micro/actions_micro_backend.c: playing the captured reports (send_initialization,
-- send_full_bootstrap), and the sequence numbers that outlive a transport which was reset
-- (prepare_transport_sequence_resume, recover_failed_transport, the saving in actions_close).
mod Examples
pub mod Laws
pub mod Played
pub mod Resume
pub mod Continued
use usbdisplay_stack.Common.{
  ℕ, ◌+◌, Bool, true, false, not, ◌&&◌, ◌||◌, List, [], ◌∷◌, ◌==◌, if◌then◌else◌, u32, sub32,
  Status, success, failure,
}
use usbdisplay_stack.Actions.Heartbeat.{StoredReport}
use usbdisplay_stack.Actions.Session.{Session}
use usbdisplay_stack.Actions.Transport.{
  is_success, send_report, advance_transport_state, is_sync_report, Transport,
}
use usbdisplay_stack.Actions.Video.{sleep}
use usbdisplay_stack.Actions.Wire.{byte, read_le32, write_le32}

-- The report that goes out for a captured one: a command takes the next sequence number, and in a full
-- bootstrap a video report keeps its own.
unfoldable pub played_report : Bool → StoredReport → Transport → List ℕ
played_report full_bootstrap r t =
    if not full_bootstrap || byte r.report 1 == 1
    then write_le32 r.report 4 t.command_sequence
    else r.report

-- The loop body: a captured SYNC is left out, and what goes out waits for its time first.
unfoldable pub play_report : Bool → Session → StoredReport → Transport → Transport × Status
unfolding played_report sleep
play_report full_bootstrap s r t =
    let report = played_report full_bootstrap r t in
    let (t1, slept) = sleep t in
    let (t2, written) = send_report s t1 r.endpoint report in
    if is_sync_report r.report then (t, success) else elim slept [
      | failure e ↦ (t1, failure e)
      | success ↦ elim written [
        | failure e ↦ (t2, failure e)
        | success ↦ (advance_transport_state t2 r.endpoint report, success)
      ]
    ]

unfoldable pub play_reports : Bool → Session → List StoredReport → Transport → Transport × Status
unfolding play_report
play_reports full_bootstrap s [] t = (t, success)
play_reports full_bootstrap s (r ∷ reports) t =
    let (t', result) = play_report full_bootstrap s r t in
    let rest = play_reports full_bootstrap s reports t' in
    elim result [ failure e ↦ (t', failure e) | success ↦ rest ]

unfoldable pub send_initialization : Session → List StoredReport → Transport → Transport × Status
unfolding play_reports
send_initialization s initialization t = play_reports false s initialization t

unfoldable pub send_full_bootstrap : Session → List StoredReport → Transport → Transport × Status
unfolding play_reports
send_full_bootstrap s bootstrap t = play_reports true s bootstrap t

-- struct transport_sequence_resume, whose one value outlives the contexts. A path is its bytes.
pub record TransportSequenceResume : Type 0 where
  pub command_sequence : ℕ
  pub video_sequence : ℕ
  pub usb_device_path : List ℕ
  pub valid : Bool

-- The variables of the loop of prepare_transport_sequence_resume.
pub record Offsets : Type 0 where
  pub command_found : Bool
  pub video_found : Bool
  pub command_sequence_offset : ℕ
  pub video_sequence_offset : ℕ

-- The loop body: the first command sets the offset of the commands, the first video report that of the
-- video, and each report's number moves by its offset.
unfoldable pub move_report :
    TransportSequenceResume → StoredReport → Offsets → StoredReport × Offsets
move_report saved r o =
    let sequence = read_le32 r.report 4 in
    let command =
      if o.command_found
      then o.command_sequence_offset
      else sub32 saved.command_sequence sequence in
    let video =
      if o.video_found then o.video_sequence_offset else sub32 saved.video_sequence sequence in
    if byte r.report 1 == 1
    then (
      record r { report = write_le32 r.report 4 (u32 (sequence + command)) },
      record o { command_found = true; command_sequence_offset = command },
    )
    else if byte r.report 1 == 2
    then (
      record r { report = write_le32 r.report 4 (u32 (sequence + video)) },
      record o { video_found = true; video_sequence_offset = video },
    )
    else (r, o)

unfoldable pub move_reports :
    TransportSequenceResume → List StoredReport → Offsets → List StoredReport × Offsets
unfolding move_report
move_reports saved [] o = ([], o)
move_reports saved (r ∷ reports) o =
    let (r', o1) = move_report saved r o in
    let (reports', o2) = move_reports saved reports o1 in (r' ∷ reports', o2)

-- The fields of struct actions_context that a resume works on.
pub record Resumed : Type 0 where
  pub bootstrap : List StoredReport
  pub transport : Transport
  pub offsets : Offsets
  pub preserve_transport_sequences : Bool

-- The two flags are false when the loop starts.
abbrev pub none_found : Offsets → Offsets
none_found o = record o { command_found = false; video_found = false }

-- `node` is what find_actions_micro_usb_node answers, and `same_path` what strcmp says of the two paths.
unfoldable pub prepare_transport_sequence_resume :
    Bool → Status → Bool → TransportSequenceResume → Resumed → TransportSequenceResume × Resumed
unfolding move_reports
prepare_transport_sequence_resume full_bootstrap node same_path saved c =
    let kept = saved.valid && is_success node && same_path in
    let saved' = record saved { valid = kept } in
    let (bootstrap, offsets) = move_reports saved c.bootstrap (none_found c.offsets) in
    let moved = record c { bootstrap = bootstrap; offsets = offsets } in
    if kept && full_bootstrap
    then if offsets.command_found && offsets.video_found
      then (
        record saved' { valid = false },
        record moved {
          transport = record c.transport {
            command_sequence = saved.command_sequence;
            video_sequence = saved.video_sequence;
          };
          preserve_transport_sequences = true;
        },
      )
      else (saved', moved)
    else (saved', c)

-- What actions_close does with the sequence numbers.
unfoldable pub save_sequences :
    Bool → Bool → Transport → TransportSequenceResume → TransportSequenceResume
save_sequences preserve_transport_sequences transport_failed t saved =
    if preserve_transport_sequences
    then record saved {
      command_sequence = t.command_sequence;
      video_sequence = t.video_sequence;
      valid = true;
    }
    else if transport_failed
    then record saved { valid = false }
    else saved
