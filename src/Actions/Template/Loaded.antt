-- ===== src/Actions/Template/Loaded.antt =====
-- backends/actions-micro/actions_micro_backend.c: a template that is loaded is whole and in order.
use usbdisplay_stack.Common.{
  ℕ, zero, suc, ◌≤◌, ◌<◌, ◌≡◌, refl, ◌⊎◌, inl, inr, Bool, true, false, not, ◌&&◌, List, arith, ltb,
  ◌==◌, if◌then◌else◌, Status, success, failure, Result, ok, err, ◌then_try◌, length, length-take,
  eproto, enomem,
}
use usbdisplay_stack.Actions.Template.{
  read_exact, replay_header, replay_record, validate_replay_report, stored_report, keep_report,
  load_report, load_next, load_records, check_header, check_loaded, nothing_loaded, load_template,
  Stream, ReplayRecord, Loading,
}
use usbdisplay_stack.Actions.Template.Laws.{
  Ascends, AreReports, AreHeartbeats, validated, next_loading, next_loading-IsLoading,
  keep_report-IsLoading, IsRun, IsLoading,
}
use usbdisplay_stack.Actions.Wire.{hid_report_length}

read_exact_length :
    (n : ℕ) (s : Stream) (d : List ℕ) (s' : Stream) → read_exact n s ≡ ok (d, s') → length d ≡ n
unfolding read_exact
read_exact_length n s d s' h = ground (arith, h, length-take n s.bytes)

try_success : (first later : Status) → (first then_try later) ≡ success → later ≡ success
try_success success later h = h
try_success (failure e) later h = absurd (ground (arith, h))

-- The loop body: what is loaded stays in order, whatever the tests of the record say.
kept_or_left :
    (valid ordered : Status) (l : Loading) (x : Loading × Status)
    → IsLoading l
    → (valid ≡ success → ordered ≡ success → IsLoading x.0)
    → IsLoading
        (elim (valid then_try ordered) as (λ _. Loading × Status) [
          | failure e ↦ (l, failure e)
          | success ↦ x
        ]).0
kept_or_left (failure e) ordered l x v kept = v
kept_or_left success (failure e) l x v kept = v
kept_or_left success success l x v kept = kept refl refl

load_report-IsLoading :
    (full_bootstrap : Bool) (index : ℕ) (r : ReplayRecord) (d : List ℕ) (l : Loading)
    → IsLoading l
    → (0 < index) ⊎ (l.previous_timestamp ≡ 0)
    → length d ≡ hid_report_length
    → IsLoading (load_report full_bootstrap index r d l).0
unfolding load_report next_loading
load_report-IsLoading full_bootstrap index r d l v first n =
    let stored = stored_report r d in
    let after = next_loading full_bootstrap stored l in
    let ordered : Status =
      if ltb 0 index && ltb r.timestamp_us l.previous_timestamp then failure eproto else success in
    kept_or_left (validate_replay_report r d) ordered l (keep_report stored after) v
      (λ valid in_order.
        let w = validated r d n valid in
        let later : l.previous_timestamp ≤ r.timestamp_us = ground (arith, in_order, first) in
        keep_report-IsLoading stored after
          (next_loading-IsLoading full_bootstrap stored l v later w) refl w)

module _ (full_bootstrap : Bool) (index : ℕ) (l : Loading) (v : IsLoading l)
    (first : (0 < index) ⊎ (l.previous_timestamp ≡ 0)) where
  behind_record :
      (r : ReplayRecord) (s : Stream) (read : Result (List ℕ × Stream))
      → read_exact hid_report_length s ≡ read
      → IsLoading
          (elim read as (λ _. Stream × Loading × Status) [
            | err e ↦ (s, l, failure e)
            | ok (d, s') ↦
                let (l', result) = load_report full_bootstrap index r d l in (s', l', result)
          ]).1
  behind_record r s (err e) h = v
  behind_record r s (ok (d, s')) h =
      load_report-IsLoading full_bootstrap index r d l v first
        (read_exact_length hid_report_length s d s' h)

  whole_or_not :
      (is_whole : Bool) (s : Stream) (x : Stream × Loading × Status)
      → IsLoading x.1
      → IsLoading (if is_whole then x else (s, l, failure eproto)).1
  whole_or_not true s x w = w
  whole_or_not false s x w = v

  behind_head :
      (s : Stream) (read : Result (List ℕ × Stream))
      → IsLoading
          (elim read as (λ _. Stream × Loading × Status) [
            | err e ↦ (s, l, failure e)
            | ok (head, s1) ↦
                let r = replay_record head in
                if r.length_field == hid_report_length
                then elim (read_exact hid_report_length s1) [
                  | err e ↦ (s1, l, failure e)
                  | ok (d, s2) ↦
                      let (l', result) = load_report full_bootstrap index r d l in (s2, l', result)
                ]
                else (s1, l, failure eproto)
          ]).1
  behind_head s (err e) = v
  behind_head s (ok (head, s1)) =
      whole_or_not ((replay_record head).length_field == hid_report_length) s1 _
        (behind_record (replay_record head) s1 (read_exact hid_report_length s1) refl)

load_next-IsLoading :
    (full_bootstrap : Bool) (index : ℕ) (s : Stream) (l : Loading)
    → IsLoading l
    → (0 < index) ⊎ (l.previous_timestamp ≡ 0)
    → IsLoading (load_next full_bootstrap index s l).1
unfolding load_next
load_next-IsLoading full_bootstrap index s l v first =
    behind_head full_bootstrap index l v first s (read_exact 16 s)

load_records-IsLoading :
    (records : ℕ) (full_bootstrap : Bool) (index : ℕ) (s : Stream) (l : Loading)
    → IsLoading l
    → (0 < index) ⊎ (l.previous_timestamp ≡ 0)
    → IsLoading (load_records records full_bootstrap index s l).1
unfolding load_records
load_records-IsLoading zero full_bootstrap index s l v first = v
load_records-IsLoading (suc records) full_bootstrap index s l v first =
    let (s', l', result) = load_next full_bootstrap index s l in
    let one : IsLoading l' = load_next-IsLoading full_bootstrap index s l v first in
    let rest =
      load_records-IsLoading records full_bootstrap (suc index) s' l' one (inl (omega arith)) in
    ground (arith, one, rest)

-- A template that plays back: commands, then video, then heartbeats, each in the order of its times, and
-- reports for the two interfaces only.
pub record IsTemplate (l : Loading) : Type 0 where
  pub commands : IsRun 0 l.initialization l.video_start_us
  pub heartbeats : IsRun l.video_start_us l.heartbeats l.previous_timestamp
  pub beats : AreHeartbeats l.heartbeats
  pub some_commands : 1 ≤ length l.initialization
  pub some_heartbeats : 1 ≤ length l.heartbeats
  pub captured : AreReports l.bootstrap
  pub captured_ascend : Ascends 0 l.bootstrap l.previous_timestamp

check_loaded-IsTemplate :
    (s : Stream) (l : Loading) → IsLoading l → check_loaded s l ≡ success → IsTemplate l
unfolding check_loaded
check_loaded-IsTemplate s l v checked =
    let seen : l.video_seen ≡ true = ground (arith, checked) in
    let (commands, beats, tagged) = v.behind_video seen in
    record {
      commands = commands;
      heartbeats = beats;
      beats = tagged;
      some_commands = ground (arith, checked);
      some_heartbeats = ground (arith, checked);
      captured = v.captured;
      captured_ascend = v.captured_ascend;
    }

nothing_loaded-IsLoading : (grants : List Bool) → IsLoading (nothing_loaded grants)
nothing_loaded-IsLoading grants = record {
  before_video =
      λ e. (record { valid = tt; commands = tt; few = omega arith; ascend = omega arith }, refl);
  behind_video = λ e. absurd (ground (arith, e));
  captured = tt;
  captured_ascend = omega arith;
}

-- Behind the header: the loop and the tests at its end.
loaded-IsTemplate :
    (full_bootstrap : Bool) (records : ℕ) (s : Stream) (grants : List Bool) (allowed : Status)
    → let (s', l, result) = load_records records full_bootstrap 0 s (nothing_loaded grants) in
      let out : Loading × Status = elim allowed [
        | failure e ↦ (nothing_loaded grants, failure e)
        | success ↦ (l, result then_try check_loaded s' l)
      ] in
      out.1 ≡ success → IsTemplate out.0
loaded-IsTemplate full_bootstrap records s grants (failure e) h = absurd (ground (arith, h))
loaded-IsTemplate full_bootstrap records s grants success h =
    let (s', l, result) = load_records records full_bootstrap 0 s (nothing_loaded grants) in
    let v : IsLoading l =
      load_records-IsLoading records full_bootstrap 0 s (nothing_loaded grants)
        (nothing_loaded-IsLoading grants) (inr refl) in
    check_loaded-IsTemplate s' l v (try_success result (check_loaded s' l) h)

-- A template that is loaded without an error has one to 10000 commands up to the first video report and
-- one to 10000 heartbeats behind it, each a command with a payload of 34 bytes and the tag _PPA; these
-- and the captured reports are whole reports for the two interfaces, each list in the order of its times.
pub load_template_lem :
    (full_bootstrap : Bool) (opened : Result Stream) (memory : Bool) (grants : List Bool)
    → let (l, result) = load_template full_bootstrap opened memory grants in
      result ≡ success → IsTemplate l
unfolding load_template
load_template_lem full_bootstrap (err e) granted grants h = absurd (ground (arith, h))
load_template_lem full_bootstrap (ok s) granted grants h = go (read_exact 16 s) h
  where
    go :
        (read : Result (List ℕ × Stream))
        → let (l, result) : Loading × Status = elim read [
          | err e ↦ (nothing_loaded grants, failure e)
          | ok (head, s1) ↦
              let header = replay_header head in
              let allowed : Status =
                if full_bootstrap && not granted then failure enomem else success in
              let (s2, l, result) =
                load_records header.record_count full_bootstrap 0 s1 (nothing_loaded grants) in
              elim (check_header full_bootstrap header then_try allowed) [
                | failure e ↦ (nothing_loaded grants, failure e)
                | success ↦ (l, result then_try check_loaded s2 l)
              ]
        ] in
          result ≡ success → IsTemplate l
    go (err e) k = absurd (ground (arith, k))
    go (ok (head, s1)) k =
        loaded-IsTemplate full_bootstrap (replay_header head).record_count s1 grants _ k
