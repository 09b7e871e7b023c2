-- ===== src/Actions/Template.antt =====
-- backends/actions-micro/actions_micro_backend.c: reading the captured template (read_exact,
-- validate_replay_report, is_heartbeat, append_command, load_template). The packed structures of the
-- file are read as on a little-endian machine.
mod Examples
pub mod Laws
pub mod Loaded
use usbdisplay_stack.Common.{
  ℕ, zero, suc, ◌+◌, ◌*◌, ◌/◌, ◌%◌, ◌^◌, Bool, true, false, not, ◌&&◌, ◌||◌, Option, none, some,
  List, [], ◌∷◌, ◌++◌, ltb, leb, ◌==◌, if◌then◌else◌, Errno, Status, success, failure, Result, ok,
  err, ◌then_try◌, length, take, drop, eproto, e2big, enomem, eio, enodata,
}
use usbdisplay_stack.Actions.AccessUnit.{next_grant, rest_grants}
use usbdisplay_stack.Actions.Heartbeat.{StoredReport}
use usbdisplay_stack.Actions.Video.{fragment_info}
use usbdisplay_stack.Actions.Wire.{
  hid_report_length, hid_payload_length, byte, read_le16, read_le32, mem_eq, ppa,
}

abbrev pub max_replay_records : ℕ
max_replay_records = 10000000

abbrev pub max_command_reports : ℕ
max_command_reports = 10000

abbrev pub max_bootstrap_reports : ℕ
max_bootstrap_reports = 16384

-- What is left of the file, and the error that ends it early, if there is one.
pub record Stream : Type 0 where
  pub bytes : List ℕ
  pub fault : Option Errno

-- struct replay_header and struct replay_record
pub record ReplayHeader : Type 0 where
  pub magic : List ℕ
  pub version : ℕ
  pub record_count : ℕ

pub record ReplayRecord : Type 0 where
  pub timestamp_us : ℕ
  pub endpoint : ℕ
  pub report_id : ℕ
  pub length_field : ℕ

unfoldable pub read_exact : ℕ → Stream → Result (List ℕ × Stream)
read_exact n s =
    if leb n (length s.bytes)
    then ok (take n s.bytes, record s { bytes = drop n s.bytes })
    else err (elim s.fault [ none ↦ eio | some e ↦ e ])

unfoldable pub replay_header : List ℕ → ReplayHeader
replay_header d = record {
  magic = take 8 d;
  version = read_le32 d 8;
  record_count = read_le32 d 12;
}

unfoldable pub replay_record : List ℕ → ReplayRecord
replay_record d = record {
  timestamp_us = read_le32 d 0 + read_le32 d 4 * 2 ^ 32;
  endpoint = byte d 8;
  report_id = byte d 9;
  length_field = read_le32 d 12;
}

unfoldable pub expected_report_id : ℕ → Option ℕ
expected_report_id endpoint =
    if endpoint == 3 then some 2 else if endpoint == 4 then some 1 else none

unfoldable pub is_report_of : ReplayRecord → ℕ → List ℕ → Bool
is_report_of r id d =
    let fragment_info = read_le32 d 8 in
    r.length_field == hid_report_length
    && r.report_id == id
    && byte d 0 == id
    && (byte d 1 == 1 || byte d 1 == 2)
    && not (fragment_info % 2 ^ 16 == 0)
    && ltb (fragment_info / 2 ^ 16) (fragment_info % 2 ^ 16)
    && leb (read_le16 d 12) hid_payload_length

unfoldable pub validate_replay_report : ReplayRecord → List ℕ → Status
unfolding expected_report_id is_report_of
validate_replay_report r d = elim (expected_report_id r.endpoint) [
  | none ↦ failure eproto
  | some id ↦ if is_report_of r id d then success else failure eproto
]

unfoldable pub is_heartbeat : List ℕ → Bool
is_heartbeat d = byte d 1 == 1 && read_le16 d 12 == 34 && mem_eq d 18 ppa

abbrev pub stored_report : ReplayRecord → List ℕ → StoredReport
stored_report r d = record { timestamp_us = r.timestamp_us; endpoint = r.endpoint; report = d }

-- The variables of load_template and the fields of struct actions_context that it fills. `grants` is
-- what realloc will answer.
pub record Loading : Type 0 where
  pub initialization : List StoredReport
  pub heartbeats : List StoredReport
  pub bootstrap : List StoredReport
  pub video_start_us : ℕ
  pub video_seen : Bool
  pub previous_timestamp : ℕ
  pub grants : List Bool

unfoldable pub append_command :
    List Bool → List StoredReport → StoredReport → List StoredReport × List Bool × Status
append_command grants reports r =
    if leb max_command_reports (length reports)
    then (reports, grants, failure e2big)
    else if next_grant grants
    then (reports ++ (r ∷ []), rest_grants grants, success)
    else (reports, rest_grants grants, failure enomem)

-- The kind of a report: the first video report, a command in front of it, or a heartbeat behind it.
unfoldable pub keep_report : StoredReport → Loading → Loading × Status
unfolding append_command is_heartbeat
keep_report r l =
    let (commands, grants, result) = append_command l.grants l.initialization r in
    let (beats, grants', result') = append_command l.grants l.heartbeats r in
    if byte r.report 1 == 2 && not l.video_seen
    then (record l { video_start_us = r.timestamp_us; video_seen = true }, success)
    else if byte r.report 1 == 1 && not l.video_seen
    then (record l { initialization = commands; grants = grants }, result)
    else if l.video_seen && is_heartbeat r.report
    then (record l { heartbeats = beats; grants = grants' }, result')
    else (l, success)

-- The loop body behind its reads.
unfoldable pub load_report : Bool → ℕ → ReplayRecord → List ℕ → Loading → Loading × Status
unfolding validate_replay_report keep_report
load_report full_bootstrap index r d l =
    let valid = validate_replay_report r d in
    let ordered : Status =
      if ltb 0 index && ltb r.timestamp_us l.previous_timestamp then failure eproto else success in
    let stored = stored_report r d in
    let next = record l {
      previous_timestamp = r.timestamp_us;
      bootstrap = if full_bootstrap then l.bootstrap ++ (stored ∷ []) else l.bootstrap;
    } in
    elim (valid then_try ordered) [ failure e ↦ (l, failure e) | success ↦ keep_report stored next ]

unfoldable pub load_next : Bool → ℕ → Stream → Loading → Stream × Loading × Status
unfolding read_exact replay_record load_report
load_next full_bootstrap index s l = elim (read_exact 16 s) [
  | err e ↦ (s, l, failure e)
  | ok (head, s1) ↦
      let r = replay_record head in
      if r.length_field == hid_report_length
      then elim (read_exact hid_report_length s1) [
        | err e ↦ (s1, l, failure e)
        | ok (d, s2) ↦ let (l', result) = load_report full_bootstrap index r d l in (s2, l', result)
      ]
      else (s1, l, failure eproto)
]

-- The loop, for so many records from `index` on.
unfoldable pub load_records : ℕ → Bool → ℕ → Stream → Loading → Stream × Loading × Status
unfolding load_next
load_records zero full_bootstrap index s l = (s, l, success)
load_records (suc records) full_bootstrap index s l =
    let (s', l', result) = load_next full_bootstrap index s l in
    let rest = load_records records full_bootstrap (suc index) s' l' in
    elim result [ failure e ↦ (s', l', failure e) | success ↦ rest ]

abbrev pub magic_bytes : List ℕ
magic_bytes = 68 ∷ 80 ∷ 82 ∷ 80 ∷ 76 ∷ 48 ∷ 48 ∷ 49 ∷ []

unfoldable pub check_header : Bool → ReplayHeader → Status
check_header full_bootstrap h =
    if not (mem_eq h.magic 0 magic_bytes)
      || not (h.version == 1)
      || h.record_count == 0
      || ltb max_replay_records h.record_count
    then failure eproto
    else if full_bootstrap && ltb max_bootstrap_reports h.record_count
    then failure e2big
    else success

-- The tests behind the loop.
unfoldable pub check_loaded : Stream → Loading → Status
check_loaded s l =
    if not (length s.bytes == 0)
    then failure eproto
    else if not l.video_seen || length l.initialization == 0 || length l.heartbeats == 0
    then failure enodata
    else success

abbrev pub nothing_loaded : List Bool → Loading
nothing_loaded grants = record {
  initialization = [];
  heartbeats = [];
  bootstrap = [];
  video_start_us = 0;
  video_seen = false;
  previous_timestamp = 0;
  grants = grants;
}

-- `opened` is what fopen answers, and `memory` what calloc does for a full bootstrap.
unfoldable pub load_template : Bool → Result Stream → Bool → List Bool → Loading × Status
unfolding read_exact replay_header check_header load_records check_loaded
load_template full_bootstrap opened memory grants =
    let empty = nothing_loaded grants in
    elim opened [
      | err e ↦ (empty, failure e)
      | ok s ↦ elim (read_exact 16 s) [
        | err e ↦ (empty, failure e)
        | ok (head, s1) ↦
            let h = replay_header head in
            let granted : Status =
              if full_bootstrap && not memory then failure enomem else success in
            let (s2, l, result) = load_records h.record_count full_bootstrap 0 s1 empty in
            elim (check_header full_bootstrap h then_try granted) [
              | failure e ↦ (empty, failure e)
              | success ↦ (l, result then_try check_loaded s2 l)
            ]
      ]
    ]
