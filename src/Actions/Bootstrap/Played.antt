-- ===== src/Actions/Bootstrap/Played.antt =====
-- backends/actions-micro/actions_micro_backend.c: what send_initialization has sent.
use mathlib.Core.Path.{subst}
use mathlib.Core.List.{append-nil, append_assoc}
use usbdisplay_stack.Common.{
  ℕ, suc, ◌+◌, ◌<◌, ◌≡◌, refl, sym, ap, ◌∙◌, ◌≢◌, ◌⊎◌, inl, inr, true, false, List, [], ◌∷◌, ◌++◌,
  arith, u32, Errno, Status, success, failure, length,
}
use usbdisplay_stack.Actions.Bootstrap.{play_report, play_reports, send_initialization}
use usbdisplay_stack.Actions.Bootstrap.Laws.{
  AreSentAs, commands_of, AreWholeCommands, sent_report-IsSentAs, play_report_cases, IsSentAs,
}
use usbdisplay_stack.Actions.Heartbeat.{StoredReport}
use usbdisplay_stack.Actions.Session.{Session}
use usbdisplay_stack.Actions.Transport.{is_sync_report, Transport}

-- What playing reports leaves: the first of their commands behind what was sent, in order, and all of
-- them unless a call failed.
pub record IsPlayed (rs : List StoredReport) (t : Transport) (o : Transport × Status) : Type 0 where
  pub new : List (ℕ × List ℕ)
  pub added : o.0.sent ≡ t.sent ++ new
  pub sent_as : AreSentAs t.command_sequence (commands_of rs) new
  pub all : ((e : Errno) × (o.1 ≡ failure e)) ⊎ (length new ≡ length (commands_of rs))

-- The loop goes on behind a success and stops behind a failure.
goes_on :
    (s : Session) (r : StoredReport) (reports : List StoredReport) (t : Transport)
    → (play_report false s r t).1 ≡ success
    → play_reports false s (r ∷ reports) t
      ≡ play_reports false s reports (play_report false s r t).0
unfolding play_reports
goes_on s r reports t e = ground (arith, e)

stops :
    (s : Session) (r : StoredReport) (reports : List StoredReport) (t : Transport)
    → (play_report false s r t).1 ≢ success
    → let out = play_reports false s (r ∷ reports) t in
      (out.0 ≡ (play_report false s r t).0) × (out.1 ≢ success)
unfolding play_reports
stops s r reports t e = ground (arith, e)

commands_of-sync :
    (r : StoredReport) (reports : List StoredReport)
    → is_sync_report r.report ≡ true
    → commands_of reports ≡ commands_of (r ∷ reports)
commands_of-sync r reports sync = sym (rw sync)

commands_of-command :
    (r : StoredReport) (reports : List StoredReport)
    → is_sync_report r.report ≡ false
    → r ∷ commands_of reports ≡ commands_of (r ∷ reports)
commands_of-command r reports command = sym (rw command)

-- Equal lists of commands are played alike.
IsPlayed-as :
    (rs : List StoredReport) (commands : List StoredReport) (t : Transport)
    (out : Transport × Status) (new : List (ℕ × List ℕ))
    → commands ≡ commands_of rs
    → out.0.sent ≡ t.sent ++ new
    → AreSentAs t.command_sequence commands new
    → ((e : Errno) × (out.1 ≡ failure e)) ⊎ (length new ≡ length commands)
    → IsPlayed rs t out
IsPlayed-as rs commands t out new e added sent_as all = record {
  new = new;
  added = added;
  sent_as = subst (λ c. AreSentAs t.command_sequence c new) e sent_as;
  all = subst (λ c. ((x : Errno) × (out.1 ≡ failure x)) ⊎ (length new ≡ length c)) e all;
}

IsPlayed-command :
    (r : StoredReport) (reports : List StoredReport) (t t' : Transport) (x : ℕ × List ℕ)
    (out : Transport × Status)
    → is_sync_report r.report ≡ false
    → t'.sent ≡ t.sent ++ (x ∷ [])
    → t'.command_sequence ≡ u32 (t.command_sequence + 1)
    → IsSentAs t.command_sequence r x
    → IsPlayed reports t' out
    → IsPlayed (r ∷ reports) t out
IsPlayed-command r reports t t' x out command sent next_number first v =
    IsPlayed-as (r ∷ reports) (r ∷ commands_of reports) t out (x ∷ v.new)
      (commands_of-command r reports command)
      (v.added ∙ ap (λ y. y ++ v.new) sent ∙ append_assoc t.sent (x ∷ []) v.new)
      (first, subst (λ n. AreSentAs n (commands_of reports) v.new) next_number v.sent_as)
      (longer v.all)
  where
    longer :
        ((e : Errno) × (out.1 ≡ failure e)) ⊎ (length v.new ≡ length (commands_of reports))
        → ((e : Errno) × (out.1 ≡ failure e))
          ⊎ (suc (length v.new) ≡ suc (length (commands_of reports)))
    longer (inl e) = inl e
    longer (inr e) = inr (ap suc e)

-- From whole commands of 4096 bytes, 16-bit session IDs and a 32-bit command number, whatever the writes
-- and the sleeps answer: what goes out are the first of the captured commands that are no SYNCs, in
-- order, each to its own interface with its own bytes except for the sequence number and the session
-- IDs, numbered one after the other from the transport's next command number; and all of these commands
-- go out unless the call fails.
pub send_initialization_lem :
    (s : Session) (initialization : List StoredReport) (t : Transport)
    → AreWholeCommands initialization
    → s.local_session < 65536
    → s.remote_session < 65536
    → t.command_sequence < 4294967296
    → IsPlayed initialization t (send_initialization s initialization t)
unfolding send_initialization play_reports
send_initialization_lem s [] t valid l m small = record {
  new = [];
  added = sym (append-nil t.sent);
  sent_as = tt;
  all = inr refl;
}
send_initialization_lem s (r ∷ reports) t (long, command, valid) l m small =
    elim (play_report_cases s r t long command small) [
      | inl (sync, same, e) ↦
          let rest = send_initialization_lem s reports t valid l m small in
          let here = goes_on s r reports t e ∙ ap (play_reports false s reports) same in
          subst (IsPlayed (r ∷ reports) t) (sym here) (
            IsPlayed-as (r ∷ reports) (commands_of reports) t _ rest.new
              (commands_of-sync r reports sync) rest.added rest.sent_as rest.all)
      | inr (plain, inl (e, sent, number)) ↦
          let t' = (play_report false s r t).0 in
          subst (IsPlayed (r ∷ reports) t) (sym (goes_on s r reports t e)) (
            IsPlayed-command r reports t t' _ _ plain sent number
              (sent_report-IsSentAs s r t.command_sequence long small l m plain)
              (send_initialization_lem s reports t' valid l m (omega (arith, number))))
      | inr (plain, inr (e, sent)) ↦
          let (same, ended) = stops s r reports t e in
          record {
            new = [];
            added = ap (λ x. x.sent) same ∙ sent ∙ sym (append-nil t.sent);
            sent_as = tt;
            all = inl (not_success _ ended);
          }
    ]
  where
    not_success : (result : Status) → result ≢ success → (e : Errno) × (result ≡ failure e)
    not_success success h = absurd (h refl)
    not_success (failure e) h = (e, refl)
