-- ===== src/Actions/Bootstrap/Continued.antt =====
-- backends/actions-micro/actions_micro_backend.c: from a close to the next open, the numbers continue.
use mathlib.Core.Path.{subst}
use usbdisplay_stack.Common.{
  ◌<◌, ◌≡◌, refl, sym, ◌≢◌, inl, inr, Bool, true, false, none, some, List, [], ◌∷◌, map, arith,
  success,
}
use usbdisplay_stack.Actions.Bootstrap.{
  move_report, move_reports, none_found, prepare_transport_sequence_resume, save_sequences,
  TransportSequenceResume, Offsets, Resumed,
}
use usbdisplay_stack.Actions.Bootstrap.Resume.{
  first_number, moved, AreWhole, move_reports_keeps, move_reports-moved, move_report_first,
  move_report_finds,
}
use usbdisplay_stack.Actions.Heartbeat.{StoredReport}
use usbdisplay_stack.Actions.Transport.{Transport}

module _ (saved : TransportSequenceResume) (c : saved.command_sequence < 4294967296)
    (v : saved.video_sequence < 4294967296) where
  -- The first command of a moved bootstrap has the saved number, if the bootstrap has a command.
  first_command :
      (reports : List StoredReport) (o : Offsets)
      → AreWhole reports
      → o.command_found ≡ false
      → let (reports', o') = move_reports saved reports o in
        o'.command_found ≡ true → first_number 1 reports' ≡ some saved.command_sequence
  unfolding move_reports
  first_command [] o valid unfound h = absurd (ground (arith, unfound, h))
  first_command (r ∷ reports) o (long, small, valid) unfound h =
      let (r', o1) = move_report saved r o in
      let first = move_report_first saved r o long small c v in
      elim (first.1 unfound) [
        | inl (kind, found, number) ↦ ground (arith, first.0, kind, number)
        | inr (other, none_yet) ↦
            let rest = first_command reports o1 valid none_yet h in
            ground (arith, first.0, other, rest)
      ]

  first_video :
      (reports : List StoredReport) (o : Offsets)
      → AreWhole reports
      → o.video_found ≡ false
      → let (reports', o') = move_reports saved reports o in
        o'.video_found ≡ true → first_number 2 reports' ≡ some saved.video_sequence
  unfolding move_reports
  first_video [] o valid unfound h = absurd (ground (arith, unfound, h))
  first_video (r ∷ reports) o (long, small, valid) unfound h =
      let (r', o1) = move_report saved r o in
      let first = move_report_first saved r o long small c v in
      elim (first.2 unfound) [
        | inl (kind, found, number) ↦ ground (arith, first.0, kind, number)
        | inr (other, none_yet) ↦
            let rest = first_video reports o1 valid none_yet h in
            ground (arith, first.0, other, rest)
      ]

-- A kind that the bootstrap has is found.
found_if_any :
    (saved : TransportSequenceResume) (reports : List StoredReport) (o : Offsets)
    → let o' = (move_reports saved reports o).1 in
      (first_number 1 reports ≢ none → o'.command_found ≡ true)
      × (first_number 2 reports ≢ none → o'.video_found ≡ true)
unfolding move_reports
found_if_any saved [] o = (λ h. absurd (h refl), λ h. absurd (h refl))
found_if_any saved (r ∷ reports) o =
    let (r', o1) = move_report saved r o in
    let keeps = move_reports_keeps saved reports o1 in
    let rest = found_if_any saved reports o1 in
    let same = move_report_finds saved r o in ground (arith, keeps, rest, same)

-- The state of a resume that goes on from the transport `t`.
pub record IsContinued (t : Transport) (before : List StoredReport) (c : Resumed) : Type 0 where
  pub same_command : c.transport.command_sequence ≡ t.command_sequence
  pub same_video : c.transport.video_sequence ≡ t.video_sequence
  pub preserved : c.preserve_transport_sequences ≡ true
  pub first_of_commands : first_number 1 c.bootstrap ≡ some t.command_sequence
  pub first_of_video : first_number 2 c.bootstrap ≡ some t.video_sequence
  pub all_moved :
      c.bootstrap
      ≡ map (moved c.offsets.command_sequence_offset c.offsets.video_sequence_offset) before

resumes :
    (saved : TransportSequenceResume) (c : Resumed)
    → saved.valid ≡ true
    → (move_reports saved c.bootstrap (none_found c.offsets)).1.command_found ≡ true
    → (move_reports saved c.bootstrap (none_found c.offsets)).1.video_found ≡ true
    → prepare_transport_sequence_resume true success true saved c ≡ (
      record saved { valid = false },
      record c {
        bootstrap = (move_reports saved c.bootstrap (none_found c.offsets)).0;
        offsets = (move_reports saved c.bootstrap (none_found c.offsets)).1;
        transport = record c.transport {
          command_sequence = saved.command_sequence;
          video_sequence = saved.video_sequence;
        };
        preserve_transport_sequences = true;
      },
    )
unfolding prepare_transport_sequence_resume
resumes saved c valid found found' = ground (arith, valid, found, found')

-- What a close saves of a transport that was reset, the next open of the same device with a full
-- bootstrap of whole reports, with a command and a video report among them, takes up once: the transport
-- goes on with the saved numbers, the first captured command and the first captured video report carry
-- them, and every captured report moves by the offset of its kind.
pub resume_continues :
    (lost : Bool) (t : Transport) (before : TransportSequenceResume) (c : Resumed)
    → t.command_sequence < 4294967296
    → t.video_sequence < 4294967296
    → AreWhole c.bootstrap
    → first_number 1 c.bootstrap ≢ none
    → first_number 2 c.bootstrap ≢ none
    → let saved = save_sequences true lost t before in
      let (saved', c') = prepare_transport_sequence_resume true success true saved c in
      (saved'.valid ≡ false) × IsContinued t c.bootstrap c'
unfolding save_sequences
resume_continues lost t before c small small' valid commands videos =
    let saved = save_sequences true lost t before in
    let found = found_if_any saved c.bootstrap (none_found c.offsets) in
    let f = found.0 commands in
    let g = found.1 videos in
    let P : TransportSequenceResume × Resumed → Type 0 =
      λ out. (out.0.valid ≡ false) × IsContinued t c.bootstrap out.1 in
    subst P (sym (resumes saved c refl f g)) (
      refl,
      record {
        same_command = refl;
        same_video = refl;
        preserved = refl;
        first_of_commands =
            first_command saved small small' c.bootstrap (none_found c.offsets) valid refl f;
        first_of_video =
            first_video saved small small' c.bootstrap (none_found c.offsets) valid refl g;
        all_moved = move_reports-moved saved c.bootstrap (none_found c.offsets);
      },
    )
