-- ===== src/Actions/Template/Laws.antt =====
-- backends/actions-micro/actions_micro_backend.c: what load_template has loaded when it succeeds.
use mathlib.Core.Path.{subst}
use usbdisplay_stack.Common.{
  ℕ, ◌≤◌, ◌<◌, ◌≡◌, sym, ◌⊎◌, inl, inr, Bool, true, false, List, [], ◌∷◌, ◌++◌, arith,
  if◌then◌else◌, Bool-cases, success, length, length-append,
}
use usbdisplay_stack.Actions.Heartbeat.{StoredReport}
use usbdisplay_stack.Actions.Template.{
  max_command_reports, expected_report_id, is_report_of, validate_replay_report, is_heartbeat,
  stored_report, append_command, keep_report, ReplayRecord, Loading,
}
use usbdisplay_stack.Actions.Wire.{hid_report_length, hid_payload_length, byte, read_le16, mem_eq}

-- The reports' times ascend from `low` to at most `high`.
abbrev pub Ascends : ℕ → List StoredReport → ℕ → Type 0
Ascends low [] high = low ≤ high
Ascends low (r ∷ reports) high = (low ≤ r.timestamp_us) × Ascends r.timestamp_us reports high

-- A whole report for one of the two interfaces, with the ID of that interface, of a command or a video
-- message, and with a payload that fits.
pub record IsReport (r : StoredReport) : Type 0 where
  pub complete : length r.report ≡ hid_report_length
  pub of_interface :
      (r.endpoint ≡ 3) × (byte r.report 0 ≡ 2) ⊎ (r.endpoint ≡ 4) × (byte r.report 0 ≡ 1)
  pub kind : (byte r.report 1 ≡ 1) ⊎ (byte r.report 1 ≡ 2)
  pub fits : read_le16 r.report 12 ≤ hid_payload_length

abbrev pub AreReports : List StoredReport → Type 0
AreReports [] = Unit {0}
AreReports (r ∷ reports) = IsReport r × AreReports reports

abbrev pub AreCommands : List StoredReport → Type 0
AreCommands [] = Unit {0}
AreCommands (r ∷ reports) = (byte r.report 1 ≡ 1) × AreCommands reports

-- A heartbeat: a command with a payload of 34 bytes and the tag _PPA.
pub record IsHeartbeat (d : List ℕ) : Type 0 where
  pub command : byte d 1 ≡ 1
  pub size : read_le16 d 12 ≡ 34
  pub tag0 : byte d 18 ≡ 95
  pub tag1 : byte d 19 ≡ 80
  pub tag2 : byte d 20 ≡ 80
  pub tag3 : byte d 21 ≡ 65

abbrev pub AreHeartbeats : List StoredReport → Type 0
AreHeartbeats [] = Unit {0}
AreHeartbeats (r ∷ reports) = IsHeartbeat r.report × AreHeartbeats reports

AreHeartbeats-append :
    (reports : List StoredReport) (r : StoredReport)
    → AreHeartbeats reports
    → IsHeartbeat r.report
    → AreHeartbeats (reports ++ (r ∷ []))
AreHeartbeats-append [] r v w = (w, tt)
AreHeartbeats-append (q ∷ reports) r (v, vs) w = (v, AreHeartbeats-append reports r vs w)

append_command-AreHeartbeats :
    (grants : List Bool) (reports : List StoredReport) (r : StoredReport)
    → AreHeartbeats reports
    → IsHeartbeat r.report
    → AreHeartbeats (append_command grants reports r).0
unfolding append_command
append_command-AreHeartbeats grants reports r v w =
    let added = AreHeartbeats-append reports r v w in ground (arith, added, v)

Ascends-later :
    (low : ℕ) (reports : List StoredReport) (high later : ℕ)
    → Ascends low reports high
    → high ≤ later
    → Ascends low reports later
Ascends-later low [] high later a h = omega arith
Ascends-later low (r ∷ reports) high later (a, rest) h =
    (a, Ascends-later r.timestamp_us reports high later rest h)

Ascends-append :
    (low : ℕ) (reports : List StoredReport) (high : ℕ) (r : StoredReport)
    → Ascends low reports high
    → high ≤ r.timestamp_us
    → Ascends low (reports ++ (r ∷ [])) r.timestamp_us
Ascends-append low [] high r a h = (omega arith, omega arith)
Ascends-append low (q ∷ reports) high r (a, rest) h =
    (a, Ascends-append q.timestamp_us reports high r rest h)

AreReports-append :
    (reports : List StoredReport) (r : StoredReport)
    → AreReports reports
    → IsReport r
    → AreReports (reports ++ (r ∷ []))
AreReports-append [] r v w = (w, tt)
AreReports-append (q ∷ reports) r (v, vs) w = (v, AreReports-append reports r vs w)

AreCommands-append :
    (reports : List StoredReport) (r : StoredReport)
    → AreCommands reports
    → byte r.report 1 ≡ 1
    → AreCommands (reports ++ (r ∷ []))
AreCommands-append [] r v w = (w, tt)
AreCommands-append (q ∷ reports) r (v, vs) w = (v, AreCommands-append reports r vs w)

-- What append_command builds: at most 10000 whole commands, in the order of their times.
pub record IsRun (low : ℕ) (reports : List StoredReport) (high : ℕ) : Type 0 where
  pub valid : AreReports reports
  pub commands : AreCommands reports
  pub few : length reports ≤ max_command_reports
  pub ascend : Ascends low reports high

IsRun-later :
    {low high : ℕ} {reports : List StoredReport} (later : ℕ)
    → IsRun low reports high
    → high ≤ later
    → IsRun low reports later
IsRun-later {low} {high} {reports} later v h = record {
  valid = v.valid;
  commands = v.commands;
  few = v.few;
  ascend = Ascends-later low reports high later v.ascend h;
}

append_command-IsRun :
    (grants : List Bool) (low : ℕ) (reports : List StoredReport) (high : ℕ) (r : StoredReport)
    → IsRun low reports high
    → high ≤ r.timestamp_us
    → IsReport r
    → byte r.report 1 ≡ 1
    → IsRun low (append_command grants reports r).0 r.timestamp_us
unfolding append_command
append_command-IsRun grants low reports high r v h w command =
    let later = IsRun-later r.timestamp_us v h in
    let added : length reports < max_command_reports
        → IsRun low (reports ++ (r ∷ [])) r.timestamp_us =
      λ room. record {
        valid = AreReports-append reports r v.valid w;
        commands = AreCommands-append reports r v.commands command;
        few = omega (arith, length-append reports (r ∷ []));
        ascend = Ascends-append low reports high r v.ascend h;
      } in
    ground (arith, later, added)

-- Between two records: what was kept so far, in which order.
pub record IsLoading (l : Loading) : Type 0 where
  pub before_video :
      l.video_seen ≡ false → IsRun 0 l.initialization l.previous_timestamp × (l.heartbeats ≡ [])
  pub behind_video :
      l.video_seen ≡ true
      → IsRun 0 l.initialization l.video_start_us
        × IsRun l.video_start_us l.heartbeats l.previous_timestamp
        × AreHeartbeats l.heartbeats
  pub captured : AreReports l.bootstrap
  pub captured_ascend : Ascends 0 l.bootstrap l.previous_timestamp

pub validated :
    (r : ReplayRecord) (d : List ℕ)
    → length d ≡ hid_report_length
    → validate_replay_report r d ≡ success
    → IsReport (stored_report r d)
unfolding validate_replay_report expected_report_id is_report_of
validated r d n valid = record {
  complete = n;
  of_interface = ground (arith, valid);
  kind = ground (arith, valid);
  fits = ground (arith, valid);
}

is_heartbeat-IsHeartbeat : (d : List ℕ) → is_heartbeat d ≡ true → IsHeartbeat d
unfolding is_heartbeat mem_eq
is_heartbeat-IsHeartbeat d h = record {
  command = ground (arith, h);
  size = ground (arith, h);
  tag0 = ground (arith, h);
  tag1 = ground (arith, h);
  tag2 = ground (arith, h);
  tag3 = ground (arith, h);
}

-- The record is counted in before it is kept.
unfoldable pub next_loading : Bool → StoredReport → Loading → Loading
next_loading full_bootstrap r l = record l {
  previous_timestamp = r.timestamp_us;
  bootstrap = if full_bootstrap then l.bootstrap ++ (r ∷ []) else l.bootstrap;
}

pub next_loading-IsLoading :
    (full_bootstrap : Bool) (r : StoredReport) (l : Loading)
    → IsLoading l
    → l.previous_timestamp ≤ r.timestamp_us
    → IsReport r
    → IsLoading (next_loading full_bootstrap r l)
unfolding next_loading
next_loading-IsLoading full_bootstrap r l v h w = record {
  before_video =
      λ unseen. (IsRun-later r.timestamp_us (v.before_video unseen).0 h, (v.before_video unseen).1);
  behind_video = λ seen.
      let (commands, beats, tagged) = v.behind_video seen in
      (commands, IsRun-later r.timestamp_us beats h, tagged);
  captured = ground (arith, v.captured, AreReports-append l.bootstrap r v.captured w);
  captured_ascend = ground (
    arith,
    Ascends-later 0 l.bootstrap l.previous_timestamp r.timestamp_us v.captured_ascend h,
    Ascends-append 0 l.bootstrap l.previous_timestamp r v.captured_ascend h,
  );
}

pub keep_report-IsLoading :
    (r : StoredReport) (l : Loading)
    → IsLoading l
    → l.previous_timestamp ≡ r.timestamp_us
    → IsReport r
    → IsLoading (keep_report r l).0
unfolding keep_report
keep_report-IsLoading r l v same w = elim (Bool-cases l.video_seen) [
  | inl seen ↦
      let (c, b, tagged) = v.behind_video seen in
      let beats : byte r.report 1 ≡ 1
          → IsRun l.video_start_us (append_command l.grants l.heartbeats r).0 l.previous_timestamp =
        λ command.
          IsRun-later l.previous_timestamp
            (append_command-IsRun l.grants l.video_start_us l.heartbeats l.previous_timestamp r b
              (omega arith) w command)
            (omega arith) in
      let more : IsHeartbeat r.report → AreHeartbeats (append_command l.grants l.heartbeats r).0 =
        append_command-AreHeartbeats l.grants l.heartbeats r tagged in
      let kind = is_heartbeat-IsHeartbeat r.report in
      ground (arith, seen, c, b, tagged, beats, more, kind)
  | inr unseen ↦
      let (c, e) = v.before_video unseen in
      let commands : byte r.report 1 ≡ 1
          → IsRun 0 (append_command l.grants l.initialization r).0 l.previous_timestamp =
        λ command.
          IsRun-later l.previous_timestamp
            (append_command-IsRun l.grants 0 l.initialization l.previous_timestamp r c (omega arith)
              w command)
            (omega arith) in
      let video : IsRun 0 l.initialization r.timestamp_us =
        IsRun-later r.timestamp_us c (omega arith) in
      let none_yet : IsRun r.timestamp_us l.heartbeats l.previous_timestamp =
        subst (λ x. IsRun r.timestamp_us x l.previous_timestamp) (sym e)
          (record { valid = tt; commands = tt; few = omega arith; ascend = omega arith }) in
      let no_beats : AreHeartbeats l.heartbeats = subst AreHeartbeats (sym e) tt in
      ground (arith, unseen, c, e, commands, video, none_yet, no_beats)
]
