-- ===== src/Actions/Examples.antt =====
-- backends/actions-micro/actions_micro_backend.c: the theorems at concrete inputs.
use usbdisplay_stack.Common.{
  ℕ, ◌+◌, ◌*◌, ◌≤◌, ◌<◌, ◌≡◌, refl, ◌≢◌, ◌↔◌, ◌⊎◌, inl, Bool, true, false, List, [], ◌∷◌, ◌++◌,
  arith, ◌==◌, if◌then◌else◌, u32, Errno, success, failure, length, replicate, length-replicate,
  eproto, e2big, enomem, estale,
}
use usbdisplay_stack.Actions.AccessUnit.{
  max_encoded_bytes, next_grant, reserve_buffer, split_access_unit, Buffer,
}
use usbdisplay_stack.Actions.AccessUnit.Laws.{reserve_buffer_lem}
use usbdisplay_stack.Actions.AccessUnit.RoundTrip.{split_access_unit_lem}
use usbdisplay_stack.Actions.AccessUnit.Splitting.{annex_b, stream, nals_of}
use usbdisplay_stack.Actions.AccessUnit.Units.{configurations, pictures, any_idr}
use usbdisplay_stack.Actions.Heartbeat.{
  configure_heartbeat_schedule, heartbeat_loop, send_due_heartbeats, Schedule,
}
use usbdisplay_stack.Actions.Heartbeat.Laws.{
  configure_heartbeat_schedule-IsConfigured, IsLoopedOrRestarted, send_due_heartbeats_lem,
  IsConfigured,
}
use usbdisplay_stack.Actions.Input.{
  poll_hid_inputs, Link, SyncRound, report, end_of_file, try_again, silent, no_input, polled,
}
use usbdisplay_stack.Actions.Input.Laws.{poll_hid_inputs-IsRead, IsRead}
use usbdisplay_stack.Actions.Session.{
  session_unknown, consume_message, consume_sync_report, sync_sent, Session, Message,
}
use usbdisplay_stack.Actions.Session.Laws.{
  consume_sync_report-IsConsistent, consume_message_confirmed, handshake, IsConsistent,
}
use usbdisplay_stack.Actions.Transport.{sync_report, Transport}
use usbdisplay_stack.Actions.Transport.Laws.{length-sync_report}
use usbdisplay_stack.Actions.Video.{video_message, fragment_count, send_video_message}
use usbdisplay_stack.Actions.Video.Reports.{reassemble}
use usbdisplay_stack.Actions.Video.Sending.{send_video_message_lem, IsWorking}
use usbdisplay_stack.Actions.Wire.{byte, read_le16, rewrite_report_session}
use usbdisplay_stack.Actions.Wire.Laws.{rewrite_report_session_lem, IsFirstFragment}

abbrev fresh : Session
fresh = record {
  local_session = 7;
  remote_session = session_unknown;
  acked_remote_session = session_unknown;
  peer_confirmed = false;
  session_confirmed = false;
  sync_reply_pending = true;
}

abbrev joined : Session
joined = record {
  local_session = 7;
  remote_session = 9;
  acked_remote_session = 9;
  peer_confirmed = true;
  session_confirmed = true;
  sync_reply_pending = false;
}

abbrev idle : Transport
idle = record {
  hid0_open = true;
  hid1_open = true;
  reports = 0;
  transport_failed = false;
  command_sequence = 1;
  video_sequence = 1;
  video_report_index = 0;
  next_command_endpoint = 4;
  outcomes = [];
  sent = [];
}

-- A SYNC of a device with ID 9 that echoes `echo`.
abbrev sync_message : ℕ → Message
sync_message echo = record {
  payload_bytes = 24;
  remote_session = 9;
  echoed_session = echo;
  is_sync = true;
  is_request = false;
}

abbrev frame : List ℕ
frame = replicate 5000 1

nine_apart : (sync_message 7).remote_session ≢ session_unknown
nine_apart = omega arith

fresh-IsConsistent : IsConsistent fresh
fresh-IsConsistent = ground arith

idle-IsWorking : IsWorking idle
idle-IsWorking = record { hid0 = refl; hid1 = refl; granted = tt }

send_video_message_lem_example :
    let (t', result) = send_video_message joined true 512 frame idle in
    (result ≡ success)
    × (t'.video_sequence ≡ u32 (idle.video_sequence + 1))
    × ((sent : List (ℕ × List ℕ)) × (t'.sent ≡ [] ++ sent)
        × (reassemble sent ≡ video_message joined 512 frame)
        × (length sent ≡ fragment_count (32 + length frame)))
send_video_message_lem_example =
    send_video_message_lem joined 512 frame idle idle-IsWorking
      (omega (arith, length-replicate {A = ℕ} 5000 1))

consume_sync_report-IsConsistent_example :
    IsConsistent (consume_sync_report fresh (sync_report 4 1) 4096).0
consume_sync_report-IsConsistent_example =
    consume_sync_report-IsConsistent fresh (sync_report 4 1) 4096 fresh-IsConsistent

consume_message_confirmed_example :
    let m = sync_message 5 in
    ((consume_message joined m).0 ≡ joined)
    × (((consume_message joined m).1 ≡ failure estale) ↔ (
        (m.is_sync ≡ true)
        × (24 ≤ m.payload_bytes)
        × (m.remote_session ≢ session_unknown)
        × ((m.remote_session ≢ joined.remote_session) ⊎ (m.echoed_session ≢ joined.local_session))))
consume_message_confirmed_example = consume_message_confirmed joined (sync_message 5) refl

handshake_example :
    let s' = sync_sent (consume_message fresh (sync_message 7)).0 in
    (s'.session_confirmed ≡ true) × (s'.remote_session ≡ 9) × (s'.local_session ≡ 7)
handshake_example = handshake fresh (sync_message 7) refl refl (omega arith) nine_apart refl

rewrite_report_session_lem_example :
    let r = sync_report 4 1 in
    let (r', rewritten) = rewrite_report_session r 7 9 in
    (length r' ≡ 4096)
    × ((rewritten ≡ true) ↔ IsFirstFragment r)
    × (byte r' 4 ≡ byte r 4)
    × ((rewritten ≡ false) × (r' ≡ r)
        ⊎ (rewritten ≡ true) × (read_le16 r' 22 ≡ 7) × (read_le16 r' 24 ≡ 9))
rewrite_report_session_lem_example =
    rewrite_report_session_lem (sync_report 4 1) 7 9 4 (length-sync_report 4 1) (omega arith)
      (omega arith) (inl (omega arith))

-- A delimiter behind a start code of four bytes, an SPS and an IDR picture behind codes of three.
abbrev nal_units : List (Bool × List ℕ)
nal_units = (true, 9 ∷ 240 ∷ []) ∷ (false, 103 ∷ 1 ∷ []) ∷ (false, 101 ∷ 2 ∷ 3 ∷ []) ∷ []

abbrev empty_buffer : Buffer
empty_buffer = record { bytes = []; capacity = 0 }

configurations_fit : length (annex_b (configurations (nals_of nal_units))) ≡ 6
unfolding annex_b configurations
configurations_fit = refl

pictures_fit : length (annex_b (pictures (nals_of nal_units))) ≡ 7
unfolding annex_b pictures
pictures_fit = refl

split_access_unit_lem_example :
    let (a, result) =
      split_access_unit (true ∷ []) 0 (stream nal_units) empty_buffer empty_buffer in
    (a.configuration.bytes ≡ [] ++ annex_b (configurations (nals_of nal_units)))
    × (a.video.bytes ≡ [] ++ annex_b (pictures (nals_of nal_units)))
    × (a.idr ≡ any_idr (nals_of nal_units))
    × (result ≡ (if length a.video.bytes == 0 then failure eproto else success))
split_access_unit_lem_example =
    split_access_unit_lem (true ∷ []) 0 nal_units empty_buffer empty_buffer
      ((refl, tt), omega arith, ((refl, tt), omega arith, ((refl, (refl, tt)), tt, tt))) (refl, tt)
      (omega arith) (omega arith) (omega (arith, configurations_fit)) (omega (arith, pictures_fit))

reserve_buffer_lem_example :
    let (b', grants', result) = reserve_buffer (false ∷ []) empty_buffer 5 max_encoded_bytes in
    (b'.bytes ≡ [])
    × (0 ≤ b'.capacity)
    × (b'.capacity ≤ max_encoded_bytes)
    × ((result ≡ success) × (5 ≤ b'.capacity)
        ⊎ (b' ≡ empty_buffer) × (max_encoded_bytes < 5) × (result ≡ failure e2big)
        ⊎ (b' ≡ empty_buffer)
          × (5 ≤ max_encoded_bytes)
          × (next_grant (false ∷ []) ≡ false)
          × (result ≡ failure enomem))
reserve_buffer_lem_example =
    reserve_buffer_lem (false ∷ []) empty_buffer 5 max_encoded_bytes (omega arith) (omega arith)

abbrev captured : Schedule
captured = record {
  heartbeats =
      record { timestamp_us = 5000000; endpoint = 4; report = sync_report 4 1 }
      ∷ record { timestamp_us = 6500000; endpoint = 3; report = sync_report 3 2 }
      ∷ [];
  heartbeat_index = 0;
  video_start_us = 4000000;
  heartbeat_period_us = 1500000;
  next_heartbeat_ns = 100;
  input_timeout_ns = 5000000000;
  last_input_ns = 0;
  last_heartbeat_sent_ns = 0;
  heartbeat_success_count = 0;
  input_reports = 0;
}

captured-IsConfigured : IsConfigured captured
captured-IsConfigured = record {
  period_low = omega arith;
  period_high = omega arith;
  patient = omega arith;
  missed = omega arith;
}

configure_heartbeat_schedule-IsConfigured_example :
    let c' = configure_heartbeat_schedule captured 100 in
    IsConfigured c'
    × (100 ≤ c'.next_heartbeat_ns)
    × (c'.next_heartbeat_ns ≤ 100 + c'.heartbeat_period_us * 1000)
configure_heartbeat_schedule-IsConfigured_example =
    configure_heartbeat_schedule-IsConfigured captured 100 (omega arith)

send_due_heartbeats_lem_example :
    let (c', t', result) = send_due_heartbeats joined captured idle 900 in
    IsConfigured c'
    × (length t'.sent ≤ length idle.sent + 4)
    × (((e : Errno) × (result ≡ failure e)) ⊎ (900 < c'.next_heartbeat_ns))
    × IsLoopedOrRestarted (heartbeat_loop 4 joined captured idle 900 0) 900 c'
send_due_heartbeats_lem_example =
    send_due_heartbeats_lem joined captured idle 900 captured-IsConfigured (omega arith)

abbrev listening : Link
listening = record {
  session = fresh;
  transport_failed = false;
  last_input_ns = 0;
  input_reports = 0;
  input_reports0 = 0;
  input_reports1 = 0;
}

-- The device answers the first SYNC with its own, and then falls silent.
abbrev answering : List SyncRound
answering =
    record {
      now_ns = 100;
      polls = polled (report (sync_report 4 1) 4096) silent ∷ polled silent try_again ∷ [];
      slept = success;
    }
    ∷ record { now_ns = 600000000; polls = no_input ∷ []; slept = success }
    ∷ []

poll_hid_inputs-IsRead_example :
    IsRead listening (poll_hid_inputs 100 0 (polled end_of_file silent ∷ []) listening)
poll_hid_inputs-IsRead_example =
    poll_hid_inputs-IsRead 100 0 (polled end_of_file silent ∷ []) listening fresh-IsConsistent
