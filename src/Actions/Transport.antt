-- ===== src/Actions/Transport.antt =====
-- backends/actions-micro/actions_micro_backend.c: reports on their way to the two HID interfaces.
pub mod Laws
use usbdisplay_stack.Common.{
  ℕ, ◌+◌, Bool, true, false, ◌&&◌, List, [], ◌∷◌, ◌++◌, leb, ◌==◌, if◌then◌else◌, u32, u64, Status,
  success, failure, set, replicate, write_at, eproto,
}
use usbdisplay_stack.Actions.Session.{sync_sent, Session}
use usbdisplay_stack.Actions.Wire.{
  hid_report_length, byte, read_le16, read_le32, write_le16, write_le32, mem_eq, cnys,
  rewrite_report_session,
}

-- The fields of struct actions_context that sending works on. `outcomes` is what the calls that leave
-- the program (a write of a whole report, a sleep) will answer, in order, and `sent` is every report
-- that was written with its endpoint, oldest first.
pub record Transport : Type 0 where
  pub hid0_open : Bool
  pub hid1_open : Bool
  pub reports : ℕ
  pub transport_failed : Bool
  pub command_sequence : ℕ
  pub video_sequence : ℕ
  pub video_report_index : ℕ
  pub next_command_endpoint : ℕ
  pub outcomes : List Status
  pub sent : List (ℕ × List ℕ)

-- The answer of the next outside call; a script that has run out answers with success.
abbrev pub next_outcome : List Status → Status
next_outcome [] = success
next_outcome (o ∷ outcomes) = o

abbrev pub rest_outcomes : List Status → List Status
rest_outcomes [] = []
rest_outcomes (o ∷ outcomes) = outcomes

abbrev pub is_success : Status → Bool
is_success success = true
is_success (failure e) = false

-- state->hid[...] for an endpoint is an open descriptor
unfoldable pub has_descriptor : Transport → ℕ → Bool
has_descriptor t endpoint =
    if endpoint == 3 then t.hid0_open else if endpoint == 4 then t.hid1_open else false

-- What write_all_logged and the branch on its result do with the rewritten report.
unfoldable pub write_report : Transport → ℕ → List ℕ → Transport × Status
write_report t endpoint report = elim (next_outcome t.outcomes) [
  | success ↦ (
    record t {
      reports = u64 (t.reports + 1);
      outcomes = rest_outcomes t.outcomes;
      sent = t.sent ++ ((endpoint, report) ∷ []);
    },
    success,
  )
  | failure e ↦
      (record t { transport_failed = true; outcomes = rest_outcomes t.outcomes }, failure e)
]

unfoldable pub send_report : Session → Transport → ℕ → List ℕ → Transport × Status
send_report s t endpoint d =
    let report = (rewrite_report_session d s.local_session s.remote_session).0 in
    if has_descriptor t endpoint then write_report t endpoint report else (t, failure eproto)

unfoldable pub advance_transport_state : Transport → ℕ → List ℕ → Transport
advance_transport_state t endpoint d =
    let sequence = read_le32 d 4 in
    if byte d 1 == 1
    then record t {
      command_sequence =
          if leb t.command_sequence sequence then u32 (sequence + 1) else t.command_sequence;
      next_command_endpoint = if endpoint == 4 then 3 else 4;
    }
    else if byte d 1 == 2
    then record t {
      video_sequence =
          if leb t.video_sequence sequence then u32 (sequence + 1) else t.video_sequence;
      video_report_index = u64 (t.video_report_index + 1);
    }
    else t

unfoldable pub is_sync_report : List ℕ → Bool
is_sync_report d =
    byte d 1 == 1 && read_le32 d 8 == 1 && leb 24 (read_le16 d 12) && mem_eq d 18 cnys

-- The report that send_sync_report builds, before the session IDs go in.
unfoldable pub sync_report : ℕ → ℕ → List ℕ
sync_report endpoint sequence =
    let blank = replicate hid_report_length 0 in
    let headed = set (set blank 0 (if endpoint == 4 then 1 else 2)) 1 1 in
    let framed = write_le16 (write_le32 (write_le32 headed 4 sequence) 8 1) 12 24 in
    let tagged = write_at (write_le32 framed 14 24) 18 cnys in
    write_le16 (write_le16 (write_le32 tagged 26 3) 30 1) 32 0x8001

unfoldable pub send_sync_report : Session → Transport → Session × Transport × Status
unfolding sync_sent
send_sync_report s t =
    let endpoint = t.next_command_endpoint in
    let report = sync_report endpoint t.command_sequence in
    let (t', result) = send_report s t endpoint report in
    elim result [
      | success ↦ (sync_sent s, advance_transport_state t' endpoint report, success)
      | failure e ↦ (s, t', failure e)
    ]
