-- ===== src/Actions/Heartbeat.antt =====
-- backends/actions-micro/actions_micro_backend.c: heartbeats and the watchdog on the device's input.
pub mod Laws
use usbdisplay_stack.Common.{
  ℕ, zero, suc, ◌+◌, ◌-◌, ◌*◌, ◌/◌, Bool, true, ◌&&◌, ◌||◌, List, [], ltb, leb, ◌==◌, if◌then◌else◌,
  u32, u64, sub64, Status, success, failure, length, get_or, set, etimedout,
}
use usbdisplay_stack.Actions.Session.{Session}
use usbdisplay_stack.Actions.Transport.{send_report, Transport}
use usbdisplay_stack.Actions.Wire.{write_le32}

-- struct stored_report
pub record StoredReport : Type 0 where
  pub timestamp_us : ℕ
  pub endpoint : ℕ
  pub report : List ℕ

-- The fields of struct actions_context that keep the time of heartbeats and inputs.
pub record Schedule : Type 0 where
  pub heartbeats : List StoredReport
  pub heartbeat_index : ℕ
  pub video_start_us : ℕ
  pub heartbeat_period_us : ℕ
  pub next_heartbeat_ns : ℕ
  pub input_timeout_ns : ℕ
  pub last_input_ns : ℕ
  pub last_heartbeat_sent_ns : ℕ
  pub heartbeat_success_count : ℕ
  pub input_reports : ℕ

abbrev pub default_heartbeat_us : ℕ
default_heartbeat_us = 1000000

abbrev pub max_heartbeats_per_tick : ℕ
max_heartbeats_per_tick = 4

abbrev pub min_session_input_timeout_ns : ℕ
min_session_input_timeout_ns = 5000000000

abbrev pub missed_heartbeat_limit : ℕ
missed_heartbeat_limit = 3

-- Past the end of the array there is no report: the code reads inside it only.
abbrev no_report : StoredReport
no_report = record { timestamp_us = 0; endpoint = 0; report = [] }

-- state->heartbeats[i]
abbrev pub heartbeat : Schedule → ℕ → StoredReport
heartbeat c i = get_or c.heartbeats i no_report

-- The average distance of the captured heartbeats, within 0.1 to 10 seconds.
unfoldable pub captured_period : Schedule → ℕ
captured_period c =
    let count = length c.heartbeats in
    let period =
      if ltb 1 count
      then sub64 (heartbeat c (count - 1)).timestamp_us (heartbeat c 0).timestamp_us / (count - 1)
      else default_heartbeat_us in
    if ltb period 100000 || ltb 10000000 period then default_heartbeat_us else period

unfoldable pub configure_heartbeat_schedule : Schedule → ℕ → Schedule
unfolding captured_period
configure_heartbeat_schedule c now_ns =
    let period = captured_period c in
    let first = sub64 (heartbeat c 0).timestamp_us c.video_start_us in
    let first_offset_us = if ltb period first then period else first in
    let timeout = u64 (u64 (period * 1000) * missed_heartbeat_limit) in
    record c {
      heartbeat_period_us = period;
      next_heartbeat_ns = u64 (now_ns + u64 (first_offset_us * 1000));
      input_timeout_ns =
          if ltb timeout min_session_input_timeout_ns
          then min_session_input_timeout_ns
          else timeout;
      last_input_ns = now_ns;
      last_heartbeat_sent_ns = 0;
    }

-- The delay to the heartbeat behind the one at hand.
unfoldable pub heartbeat_delay : Schedule → ℕ
heartbeat_delay c =
    let i = c.heartbeat_index in
    let delay =
      if ltb (i + 1) (length c.heartbeats)
      then sub64 (heartbeat c (i + 1)).timestamp_us (heartbeat c i).timestamp_us
      else c.heartbeat_period_us in
    if ltb delay 10000 || ltb 10000000 delay then c.heartbeat_period_us else delay

unfoldable pub advance_schedule : Schedule → Schedule
unfolding heartbeat_delay
advance_schedule c =
    let i = c.heartbeat_index in
    record c {
      heartbeat_index = if ltb (i + 1) (length c.heartbeats) then i + 1 else 0;
      next_heartbeat_ns = u64 (c.next_heartbeat_ns + u64 (heartbeat_delay c * 1000));
    }

-- The report of a heartbeat with its report number and its sequence number.
unfoldable pub heartbeat_report : Schedule → ℕ → ℕ → List ℕ
heartbeat_report c endpoint sequence =
    write_le32 (set (heartbeat c c.heartbeat_index).report 0 (if endpoint == 4 then 1 else 2)) 4
      sequence

-- The send of one heartbeat, and what a successful one records.
unfoldable pub send_heartbeat : Session → Schedule → Transport → ℕ → Schedule × Transport × Status
unfolding heartbeat_report
send_heartbeat s c t now_ns =
    let endpoint = t.next_command_endpoint in
    let (t', result) =
      send_report s (record t { command_sequence = u32 (t.command_sequence + 1) }) endpoint
        (heartbeat_report c endpoint t.command_sequence) in
    elim result [
      | success ↦ (
        record c {
          last_heartbeat_sent_ns = now_ns;
          heartbeat_success_count = u64 (c.heartbeat_success_count + 1);
        },
        record t' { next_command_endpoint = if endpoint == 4 then 3 else 4 },
        success,
      )
      | failure e ↦ (c, t', failure e)
    ]

-- The loop; its fourth part is the number of heartbeats that were sent or tried.
unfoldable pub heartbeat_loop :
    ℕ → Session → Schedule → Transport → ℕ → ℕ → Schedule × Transport × Status × ℕ
heartbeat_loop zero s c t now_ns sent = (c, t, success, sent)
heartbeat_loop (suc rounds) s c t now_ns sent =
    let (c', t', result) = send_heartbeat s c t now_ns in
    let rest = heartbeat_loop rounds s (advance_schedule c') t' now_ns (sent + 1) in
    if leb c.next_heartbeat_ns now_ns
    then elim result [ success ↦ rest | failure e ↦ (advance_schedule c', t', failure e, sent + 1) ]
    else (c, t, success, sent)

unfoldable pub send_due_heartbeats :
    Session → Schedule → Transport → ℕ → Schedule × Transport × Status
send_due_heartbeats s c t now_ns =
    let (c', t', result, sent) = heartbeat_loop max_heartbeats_per_tick s c t now_ns 0 in
    (
      if sent == max_heartbeats_per_tick && leb c'.next_heartbeat_ns now_ns
          then record c' { next_heartbeat_ns = u64 (now_ns + u64 (c'.heartbeat_period_us * 1000)) }
          else c',
      t',
      result,
    )

-- The test of check_session_watchdog.
unfoldable pub watchdog_expired : Schedule → ℕ → Bool
watchdog_expired c now_ns =
    let no_input_ns = if leb c.last_input_ns now_ns then now_ns - c.last_input_ns else 0 in
    ltb 0 c.input_reports
    && ltb c.last_input_ns c.last_heartbeat_sent_ns
    && leb c.input_timeout_ns no_input_ns

unfoldable pub check_session_watchdog : Schedule → Transport → ℕ → Transport × Status
unfolding watchdog_expired
check_session_watchdog c t now_ns =
    if watchdog_expired c now_ns
    then (record t { transport_failed = true }, failure etimedout)
    else (t, success)
