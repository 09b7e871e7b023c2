-- ===== src/Actions/Video/Sending.antt =====
-- backends/actions-micro/actions_micro_backend.c: a video message that is sent arrives whole.
use mathlib.Core.List.{append-nil, append_assoc}
use mathlib.Core.Path.{subst}
use usbdisplay_stack.Common.{
  ℕ, zero, suc, ◌+◌, ◌-◌, ◌*◌, ◌%◌, ◌≤◌, ◌<◌, ◌≡◌, refl, sym, ap, ◌∙◌, inl, inr, true, false, ◌||◌,
  List, [], ◌∷◌, ◌++◌, arith, ltb, ◌==◌, if◌then◌else◌, Bool-cases, u32, u64, Status, success,
  length, take, drop, length-take,
}
use usbdisplay_stack.Actions.Session.{Session}
use usbdisplay_stack.Actions.Transport.{
  next_outcome, rest_outcomes, has_descriptor, send_report, Transport,
}
use usbdisplay_stack.Actions.Transport.Laws.{send_report_ok}
use usbdisplay_stack.Actions.Video.{
  video_message, fragment_count, fragment_info, video_report, pause, behind_write, send_fragment,
  send_fragments, send_video_message,
}
use usbdisplay_stack.Actions.Video.Reports.{
  reassemble, video_reports, read_le32-video_report, fragment_info_lem, reassemble-video_reports,
  length-video_reports,
}
use usbdisplay_stack.Actions.Wire.{
  hid_payload_length, read_le32, write_le16, carries_session, rewrite_report_session,
}

-- The session IDs of a message are those of the session, so send_report changes no report of it.
rewrite_same :
    (r : List ℕ) (l m : ℕ) → carries_session r ≡ false → (rewrite_report_session r l m).0 ≡ r
unfolding rewrite_report_session
rewrite_same r l m e = rw e

carries_session-later : (r : List ℕ) → 65536 ≤ read_le32 r 8 → carries_session r ≡ false
unfolding carries_session
carries_session-later r h = ground arith

rewrite_idem :
    (r : List ℕ) (l m : ℕ)
    → write_le16 (write_le16 r 22 l) 24 m ≡ r
    → (rewrite_report_session r l m).0 ≡ r
unfolding rewrite_report_session
rewrite_idem r l m e = elim (Bool-cases (carries_session r)) [ inl c ↦ rw c e | inr c ↦ rw c ]

first_same :
    (s : Session) (flags endpoint sequence info : ℕ) (video : List ℕ)
    → let r = video_report endpoint sequence info (take 4082 (video_message s flags video)) in
      (rewrite_report_session r s.local_session s.remote_session).0 ≡ r
unfolding video_report video_message write_le16
first_same s flags endpoint sequence info video =
    rewrite_idem _ s.local_session s.remote_session refl

abbrev pub AllSuccess : List Status → Type 0
AllSuccess [] = Unit {0}
AllSuccess (o ∷ outcomes) = (o ≡ success) × AllSuccess outcomes

next_outcome-AllSuccess : (o : List Status) → AllSuccess o → next_outcome o ≡ success
next_outcome-AllSuccess [] h = refl
next_outcome-AllSuccess (x ∷ o) h = h.0

rest_outcomes-AllSuccess : (o : List Status) → AllSuccess o → AllSuccess (rest_outcomes o)
rest_outcomes-AllSuccess [] h = h
rest_outcomes-AllSuccess (x ∷ o) h = h.1

-- Both interfaces are open and nothing outside fails.
pub record IsWorking (t : Transport) : Type 0 where
  pub hid0 : t.hid0_open ≡ true
  pub hid1 : t.hid1_open ≡ true
  pub granted : AllSuccess t.outcomes

-- The transport behind one fragment.
abbrev after_report : Transport → ℕ → List ℕ → Transport
after_report t endpoint report = record t {
  reports = u64 (t.reports + 1);
  outcomes = rest_outcomes t.outcomes;
  sent = t.sent ++ ((endpoint, report) ∷ []);
  video_report_index = u64 (t.video_report_index + 1);
}

pause_lem :
    (count index : ℕ) (t : Transport)
    → AllSuccess t.outcomes
    → (o : List Status) × AllSuccess o
      × (pause count index t ≡ (record t { outcomes = o }, success))
unfolding pause
pause_lem count index t h = elim (Bool-cases (ltb (index + 1) count)) [
  | inl e ↦ (
    rest_outcomes t.outcomes,
    rest_outcomes-AllSuccess t.outcomes h,
    rw (e, next_outcome-AllSuccess t.outcomes h),
  )
  | inr e ↦ (t.outcomes, h, rw e)
]

module _ (s : Session) (message : List ℕ) (count : ℕ) where
  -- One round of the loop, when the write and the sleep succeed.
  send_fragment_ok :
      (index : ℕ) (t t1 t3 : Transport)
      → let endpoint : ℕ = if t.video_report_index % 2 == 0 then 4 else 3 in
        send_report s t endpoint (
            video_report endpoint t.video_sequence
              (fragment_info count index)
              (take hid_payload_length (drop (index * hid_payload_length) message)))
          ≡ (t1, success)
        → pause count index (record t1 { video_report_index = u64 (t1.video_report_index + 1) })
          ≡ (t3, success)
        → send_fragment s message count index t ≡ (t3, success)
  unfolding send_fragment behind_write
  send_fragment_ok index t t1 t3 e p = ap (behind_write count index) e ∙ p

  send_fragments_step :
      (rounds index : ℕ) (t t3 : Transport)
      → send_fragment s message count index t ≡ (t3, success)
      → send_fragments s message count (suc rounds) index t
        ≡ send_fragments s message count rounds (index + 1) t3
  unfolding send_fragments
  send_fragments_step rounds index t t3 e =
      rw (e, send_fragments) (ap (λ r. send_fragments s message count rounds (index + 1) r.0) e)

  -- What the rounds that are left add to the log.
  record Sent (rounds index : ℕ) (t : Transport) (out : Transport × Status) : Type 0 where
    ok : out.1 ≡ success
    log :
        out.0.sent
        ≡ t.sent ++ video_reports message count t.video_sequence rounds index t.video_report_index
    working : IsWorking out.0
    same_sequence : out.0.video_sequence ≡ t.video_sequence

  both_open :
      (t : Transport)
      → IsWorking t
      → has_descriptor t (if t.video_report_index % 2 == 0 then 4 else 3) ≡ true
  unfolding has_descriptor
  both_open t w = ground arith

  module _ (small : count < 65536)
      (first : (endpoint sequence info : ℕ)
        → let r = video_report endpoint sequence info (take 4082 message) in
          (rewrite_report_session r s.local_session s.remote_session).0 ≡ r) where
    same :
        (endpoint sequence index : ℕ)
        → index < count
        → let r =
            video_report endpoint sequence
              (fragment_info count index)
              (take hid_payload_length (drop (index * hid_payload_length) message)) in
          (rewrite_report_session r s.local_session s.remote_session).0 ≡ r
    same endpoint sequence zero h = first endpoint sequence (fragment_info count 0)
    same endpoint sequence (suc index) h =
        let (value, fits) = fragment_info_lem count (suc index) small (omega arith) in
        let fragment = take 4082 (drop (suc index * 4082) message) in
        let field =
          read_le32-video_report endpoint sequence (fragment_info count (suc index)) fragment
            (omega (arith, length-take 4082 (drop (suc index * 4082) message))) fits in
        rewrite_same _ s.local_session s.remote_session
          (carries_session-later _ (omega (arith, field, value)))

    send_fragments-Sent :
        (rounds index : ℕ) (t : Transport)
        → index + rounds ≡ count
        → IsWorking t
        → Sent rounds index t (send_fragments s message count rounds index t)
    unfolding send_fragments video_reports
    send_fragments-Sent zero index t h w = record {
      ok = refl;
      log = sym (append-nil t.sent);
      working = w;
      same_sequence = refl;
    }
    send_fragments-Sent (suc rounds) index t h w =
        let endpoint : ℕ = if t.video_report_index % 2 == 0 then 4 else 3 in
        let report =
          video_report endpoint t.video_sequence (fragment_info count index)
            (take hid_payload_length (drop (index * hid_payload_length) message)) in
        let kept = same endpoint t.video_sequence index (omega arith) in
        let written =
          send_report_ok s t endpoint report (both_open t w)
            (next_outcome-AllSuccess t.outcomes w.granted) in
        let t2 =
          after_report t endpoint
            (rewrite_report_session report s.local_session s.remote_session).0 in
        let (o, granted, slept) =
          pause_lem count index t2 (rest_outcomes-AllSuccess t.outcomes w.granted) in
        let step =
          send_fragments_step rounds index t (record t2 { outcomes = o })
            (send_fragment_ok index t _ (record t2 { outcomes = o }) written slept) in
        let rest =
          send_fragments-Sent rounds (index + 1) (record t2 { outcomes = o }) (omega arith)
            (record { hid0 = w.hid0; hid1 = w.hid1; granted = granted }) in
        let entry : ℕ × List ℕ =
          (endpoint, (rewrite_report_session report s.local_session s.remote_session).0) in
        let tail =
          video_reports message count t.video_sequence rounds (index + 1)
            (u64 (t.video_report_index + 1)) in
        let log = ap (λ r. t.sent ++ ((endpoint, r) ∷ tail)) kept in
        subst (Sent (suc rounds) index t) (sym step) (record {
          ok = rest.ok;
          log = rest.log ∙ (append_assoc t.sent (entry ∷ []) tail ∙ log);
          working = rest.working;
          same_sequence = rest.same_sequence;
        })

length-video_message :
    (s : Session) (flags : ℕ) (video : List ℕ)
    → length (video_message s flags video) ≡ 32 + length video
unfolding video_message
length-video_message s flags video = omega arith

-- A message that fits is a positive number of fragments, which covers its bytes.
fragment_count_lem :
    (n : ℕ)
    → 0 < n
    → n ≤ 65535 * 4082
    → (0 < fragment_count n) × (fragment_count n ≤ 65535) × (n ≤ fragment_count n * 4082)
unfolding fragment_count
fragment_count_lem n a b = (omega arith, omega arith, omega arith)

-- Past its guards, the function is its loop and the next sequence number.
send_video_message_guards :
    (s : Session) (flags : ℕ) (video : List ℕ) (t : Transport)
    → 32 + length video ≤ 65535 * 4082
    → let count = fragment_count (32 + length video) in
      let out = send_fragments s (video_message s flags video) count count 0 t in
      send_video_message s true flags video t
      ≡ (record out.0 { video_sequence = u32 (out.0.video_sequence + 1) }, out.1)
unfolding send_video_message
send_video_message_guards s flags video t h =
    let (positive, small, covers) = fragment_count_lem (32 + length video) (omega arith) h in
    let short : ltb (4294967295 - 32) (length video) ≡ false = ground arith in
    let counted : (fragment_count (32 + length video) == 0
          || ltb 65535 (fragment_count (32 + length video)))
        ≡ false =
      ground arith in
    rw short (rw counted)

-- With both interfaces open and nothing outside failing, a message of at most 65535 fragments is sent:
-- one report for each fragment, whose payloads are the message, and the sequence number advances.
pub send_video_message_lem :
    (s : Session) (flags : ℕ) (video : List ℕ) (t : Transport)
    → IsWorking t
    → 32 + length video ≤ 65535 * 4082
    → let (t', result) = send_video_message s true flags video t in
      (result ≡ success)
      × (t'.video_sequence ≡ u32 (t.video_sequence + 1))
      × ((sent : List (ℕ × List ℕ)) × (t'.sent ≡ t.sent ++ sent)
          × (reassemble sent ≡ video_message s flags video)
          × (length sent ≡ fragment_count (32 + length video)))
send_video_message_lem s flags video t w h =
    let message = video_message s flags video in
    let count = fragment_count (32 + length video) in
    let (positive, small, covers) = fragment_count_lem (32 + length video) (omega arith) h in
    let out =
      send_fragments-Sent s message count (omega (arith, small))
        (λ endpoint sequence info. first_same s flags endpoint sequence info video) count 0 t
        (omega arith) w in
    let sent = video_reports message count t.video_sequence count 0 t.video_report_index in
    let whole =
      reassemble-video_reports message count t.video_sequence count 0 t.video_report_index
        (omega (arith, covers, length-video_message s flags video)) in
    subst
      (λ (t', result).
        (result ≡ success)
        × (t'.video_sequence ≡ u32 (t.video_sequence + 1))
        × ((sent : List (ℕ × List ℕ)) × (t'.sent ≡ t.sent ++ sent)
            × (reassemble sent ≡ message)
            × (length sent ≡ count)))
      (sym (send_video_message_guards s flags video t h))
      (
        out.ok,
        ap (λ n. u32 (n + 1)) out.same_sequence,
        (
          sent,
          out.log,
          whole,
          length-video_reports message count t.video_sequence count 0 t.video_report_index,
        ),
      )
