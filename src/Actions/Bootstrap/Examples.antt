-- ===== src/Actions/Bootstrap/Examples.antt =====
-- backends/actions-micro/actions_micro_backend.c: a start with two commands, and one behind a reset.
use usbdisplay_stack.Common.{◌≡◌, refl, ◌≢◌, true, false, none, List, [], ◌∷◌, arith, success, set}
use usbdisplay_stack.Actions.Bootstrap.{
  send_initialization, prepare_transport_sequence_resume, save_sequences, TransportSequenceResume,
  Resumed,
}
use usbdisplay_stack.Actions.Bootstrap.Continued.{resume_continues, IsContinued}
use usbdisplay_stack.Actions.Bootstrap.Laws.{AreWholeCommands}
use usbdisplay_stack.Actions.Bootstrap.Played.{send_initialization_lem, IsPlayed}
use usbdisplay_stack.Actions.Bootstrap.Resume.{first_number, AreWhole}
use usbdisplay_stack.Actions.Heartbeat.{StoredReport}
use usbdisplay_stack.Actions.Session.{Session}
use usbdisplay_stack.Actions.Transport.{sync_report, Transport}
use usbdisplay_stack.Actions.Wire.{read_le32, write_le16, write_le32}

abbrev two_commands : List StoredReport
two_commands =
    record { timestamp_us = 5; endpoint = 4; report = sync_report 4 1 }
    ∷ record { timestamp_us = 6; endpoint = 4; report = write_le16 (sync_report 4 1) 12 16 }
    ∷ []

abbrev joined : Session
joined = record {
  local_session = 7;
  remote_session = 9;
  acked_remote_session = 9;
  peer_confirmed = true;
  session_confirmed = true;
  sync_reply_pending = false;
}

abbrev idle : Transport
idle = record {
  hid0_open = true;
  hid1_open = true;
  reports = 0;
  transport_failed = false;
  command_sequence = 41;
  video_sequence = 17;
  video_report_index = 0;
  next_command_endpoint = 4;
  outcomes = [];
  sent = [];
}

two_commands-AreWhole : AreWholeCommands two_commands
unfolding sync_report write_le16 write_le32
two_commands-AreWhole = (refl, refl, (refl, refl, tt))

send_initialization_lem_example :
    IsPlayed two_commands idle (send_initialization joined two_commands idle)
send_initialization_lem_example =
    send_initialization_lem joined two_commands idle two_commands-AreWhole (omega arith)
      (omega arith) (omega arith)

abbrev captured : List StoredReport
captured =
    record { timestamp_us = 5; endpoint = 4; report = sync_report 4 3 }
    ∷ record { timestamp_us = 6; endpoint = 3; report = set (sync_report 3 8) 1 2 }
    ∷ []

abbrev reopened : Resumed
reopened = record {
  bootstrap = captured;
  transport = idle;
  offsets = record {
    command_found = false;
    video_found = false;
    command_sequence_offset = 0;
    video_sequence_offset = 0;
  };
  preserve_transport_sequences = false;
}

abbrev never_saved : TransportSequenceResume
never_saved = record {
  command_sequence = 0;
  video_sequence = 0;
  usb_device_path = [];
  valid = false;
}

captured-AreWhole : AreWhole captured
unfolding sync_report write_le16 write_le32 read_le32
captured-AreWhole = (refl, omega arith, (refl, omega arith, tt))

captured_command : first_number 1 captured ≢ none
unfolding sync_report write_le16 write_le32 read_le32
captured_command = λ h. ground (arith, h)

captured_video : first_number 2 captured ≢ none
unfolding sync_report write_le16 write_le32 read_le32
captured_video = λ h. ground (arith, h)

resume_continues_example :
    let saved = save_sequences true true idle never_saved in
    let (saved', c') = prepare_transport_sequence_resume true success true saved reopened in
    (saved'.valid ≡ false) × IsContinued idle captured c'
resume_continues_example =
    resume_continues true idle never_saved reopened (omega arith) (omega arith) captured-AreWhole
      captured_command captured_video
