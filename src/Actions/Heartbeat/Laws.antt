-- ===== src/Actions/Heartbeat/Laws.antt =====
-- backends/actions-micro/actions_micro_backend.c: what a tick of heartbeats leaves behind.
use mathlib.Core.Path.{subst}
use usbdisplay_stack.Common.{
  ℕ, zero, suc, ◌+◌, ◌-◌, ◌*◌, ◌/◌, ◌≤◌, ◌<◌, ◌≡◌, refl, sym, ap, ◌∙◌, ◌≢◌, ◌⊎◌, inl, inr, true,
  false, ◌&&◌, ◌||◌, List, [], ◌∷◌, arith, ltb, leb, ◌==◌, if◌then◌else◌, Bool-cases, Status-cases,
  u32, u64, sub64, Errno, Status, success, failure, length, length-append,
}
use usbdisplay_stack.Actions.Heartbeat.{
  default_heartbeat_us, heartbeat, captured_period, configure_heartbeat_schedule, advance_schedule,
  heartbeat_report, send_heartbeat, heartbeat_loop, send_due_heartbeats, Schedule,
}
use usbdisplay_stack.Actions.Session.{Session}
use usbdisplay_stack.Actions.Transport.{next_outcome, has_descriptor, send_report, Transport}
use usbdisplay_stack.Actions.Transport.Laws.{send_report_ok, send_report_failed, send_report_closed}

-- The period and the timeout that the schedule works with.
pub record IsConfigured (c : Schedule) : Type 0 where
  pub period_low : 100000 ≤ c.heartbeat_period_us
  pub period_high : c.heartbeat_period_us ≤ 10000000
  pub patient : 5000000000 ≤ c.input_timeout_ns
  pub missed : 3 * (c.heartbeat_period_us * 1000) ≤ c.input_timeout_ns

captured_period_lem : (c : Schedule) → (100000 ≤ captured_period c) × (captured_period c ≤ 10000000)
unfolding captured_period
captured_period_lem c = bounded (
    if ltb 1 (length c.heartbeats)
    then sub64 (heartbeat c (length c.heartbeats - 1)).timestamp_us (heartbeat c 0).timestamp_us
      / (length c.heartbeats - 1)
    else default_heartbeat_us)
  where
    bounded :
        (p : ℕ)
        → let q : ℕ = if ltb p 100000 || ltb 10000000 p then 1000000 else p in
          (100000 ≤ q) × (q ≤ 10000000)
    bounded p = ground arith

-- Whatever was captured, and ten seconds before the clock wraps, the period is 0.1 to 10 seconds, the
-- watchdog waits at least five seconds and three periods, and the first heartbeat is due now at the
-- earliest and within one period.
pub configure_heartbeat_schedule-IsConfigured :
    (c : Schedule) (now_ns : ℕ)
    → now_ns + 10000000000 < 18446744073709551616
    → let c' = configure_heartbeat_schedule c now_ns in
      IsConfigured c'
      × (now_ns ≤ c'.next_heartbeat_ns)
      × (c'.next_heartbeat_ns ≤ now_ns + c'.heartbeat_period_us * 1000)
unfolding configure_heartbeat_schedule
configure_heartbeat_schedule-IsConfigured c now_ns h =
    let (low, high) = captured_period_lem c in
    let first = sub64 (heartbeat c 0).timestamp_us c.video_start_us in
    let offset : ℕ = if ltb (captured_period c) first then captured_period c else first in
    let within : offset ≤ captured_period c = ground arith in
    (
      record {
        period_low = low;
        period_high = high;
        patient = ground arith;
        missed = timeout (captured_period c) high;
      },
      omega (arith, within, high),
      omega (arith, within, high),
    )
  where
    timeout :
        (p : ℕ)
        → p ≤ 10000000
        → let q = u64 (u64 (p * 1000) * 3) in
          3 * (p * 1000) ≤ (if ltb q 5000000000 then 5000000000 else q)
    timeout p k = ground arith

pub send_report-sent :
    (s : Session) (t : Transport) (endpoint : ℕ) (d : List ℕ)
    → length (send_report s t endpoint d).0.sent ≤ length t.sent + 1
send_report-sent s t endpoint d = elim (Bool-cases (has_descriptor t endpoint)) [
  | inl e ↦ elim (Status-cases (next_outcome t.outcomes)) [
    | inl f ↦ rw (send_report_ok s t endpoint d e f) (omega (arith, length-append t.sent (_ ∷ [])))
    | inr (x, f) ↦ rw (send_report_failed s t endpoint d e f) (omega arith)
  ]
  | inr e ↦ rw (send_report_closed s t endpoint d e) (omega arith)
]

-- One heartbeat adds at most one report, and leaves the times of the schedule alone.
send_heartbeat_lem :
    (s : Session) (c : Schedule) (t : Transport) (now_ns : ℕ)
    → let (c', t', result) = send_heartbeat s c t now_ns in
      (length t'.sent ≤ length t.sent + 1)
      × (c'.heartbeat_period_us ≡ c.heartbeat_period_us)
      × (c'.input_timeout_ns ≡ c.input_timeout_ns)
unfolding send_heartbeat
send_heartbeat_lem s c t now_ns =
    let t1 = record t { command_sequence = u32 (t.command_sequence + 1) } in
    let report = heartbeat_report c t.next_command_endpoint t.command_sequence in
    let one = send_report-sent s t1 t.next_command_endpoint report in
    elim (Status-cases (send_report s t1 t.next_command_endpoint report).1) [
      | inl e ↦ rw (e, send_heartbeat) (one, refl, refl)
      | inr (x, e) ↦ rw (e, send_heartbeat) (one, refl, refl)
    ]

-- What the loop keeps, and why it ends.
record Beaten (rounds : ℕ) (c : Schedule) (t : Transport) (now_ns sent : ℕ)
    (out : Schedule × Transport × Status × ℕ) : Type 0 where
  few : length out.1.sent ≤ length t.sent + rounds
  counted : out.3 ≤ sent + rounds
  same_period : out.0.heartbeat_period_us ≡ c.heartbeat_period_us
  same_timeout : out.0.input_timeout_ns ≡ c.input_timeout_ns
  ended :
      ((e : Errno) × (out.2 ≡ failure e))
      ⊎ ((now_ns < out.0.next_heartbeat_ns) ⊎ (out.3 ≡ sent + rounds))

-- The three ways of one round.
module _ (rounds : ℕ) (s : Session) (c : Schedule) (t : Transport) (now_ns sent : ℕ) where
  not_due :
      leb c.next_heartbeat_ns now_ns ≡ false
      → heartbeat_loop (suc rounds) s c t now_ns sent ≡ (c, t, success, sent)
  unfolding heartbeat_loop
  not_due e = rw (e, heartbeat_loop)

  beats :
      leb c.next_heartbeat_ns now_ns ≡ true
      → (send_heartbeat s c t now_ns).2 ≡ success
      → heartbeat_loop (suc rounds) s c t now_ns sent
        ≡ heartbeat_loop rounds s
            (advance_schedule (send_heartbeat s c t now_ns).0)
            (send_heartbeat s c t now_ns).1
            now_ns
            (sent + 1)
  unfolding heartbeat_loop
  beats e f = rw (e, heartbeat_loop) (rw f)

  stops :
      {x : Errno}
      → leb c.next_heartbeat_ns now_ns ≡ true
      → (send_heartbeat s c t now_ns).2 ≡ failure x
      → heartbeat_loop (suc rounds) s c t now_ns sent ≡ (
        advance_schedule (send_heartbeat s c t now_ns).0,
        (send_heartbeat s c t now_ns).1,
        failure x,
        sent + 1,
      )
  unfolding heartbeat_loop
  stops e f = rw (e, heartbeat_loop) (rw f)

heartbeat_loop-Beaten :
    (rounds : ℕ) (s : Session) (c : Schedule) (t : Transport) (now_ns sent : ℕ)
    → Beaten rounds c t now_ns sent (heartbeat_loop rounds s c t now_ns sent)
unfolding heartbeat_loop advance_schedule
heartbeat_loop-Beaten zero s c t now_ns sent = record {
  few = omega arith;
  counted = omega arith;
  same_period = refl;
  same_timeout = refl;
  ended = inr (inr (omega arith));
}
heartbeat_loop-Beaten (suc rounds) s c t now_ns sent =
    let (one, period, timeout) = send_heartbeat_lem s c t now_ns in
    let beat = send_heartbeat s c t now_ns in
    let rest = heartbeat_loop-Beaten rounds s (advance_schedule beat.0) beat.1 now_ns (sent + 1) in
    elim (Bool-cases (leb c.next_heartbeat_ns now_ns)) [
      | inr e ↦
          subst (Beaten (suc rounds) c t now_ns sent) (sym (not_due rounds s c t now_ns sent e))
            (record {
              few = omega arith;
              counted = omega arith;
              same_period = refl;
              same_timeout = refl;
              ended = inr (inl (ground arith));
            })
      | inl e ↦ elim (Status-cases beat.2) [
        | inl f ↦
            subst (Beaten (suc rounds) c t now_ns sent) (sym (beats rounds s c t now_ns sent e f))
              (record {
                few = omega (arith, rest.few, one);
                counted = omega (arith, rest.counted);
                same_period = rest.same_period ∙ period;
                same_timeout = rest.same_timeout ∙ timeout;
                ended = ends rest.ended;
              })
        | inr (x, f) ↦
            subst (Beaten (suc rounds) c t now_ns sent) (sym (stops rounds s c t now_ns sent e f))
              (record {
                few = omega (arith, one);
                counted = omega arith;
                same_period = period;
                same_timeout = timeout;
                ended = inl (x, refl);
              })
      ]
    ]
  where
    ends :
        {A : Type 0} {out : ℕ} {B : Type 0}
        → A ⊎ (B ⊎ (out ≡ sent + 1 + rounds))
        → A ⊎ (B ⊎ (out ≡ sent + suc rounds))
    ends (inl a) = inl a
    ends (inr (inl b)) = inr (inl b)
    ends (inr (inr q)) = inr (inr (omega arith))

-- The schedule that the loop left, or, when it has tried four heartbeats and the next one is due all
-- the same, that schedule with the next heartbeat one period after the present time.
pub IsLoopedOrRestarted : Schedule × Transport × Status × ℕ → ℕ → Schedule → Type 0
IsLoopedOrRestarted (c, t, result, sent) now_ns c' =
    (c' ≡ c) × ((sent ≢ 4) ⊎ (now_ns < c.next_heartbeat_ns))
    ⊎ (sent ≡ 4)
      × (c.next_heartbeat_ns ≤ now_ns)
      × (c' ≡ record c { next_heartbeat_ns = now_ns + c.heartbeat_period_us * 1000 })

-- With a configured schedule, and ten seconds before the clock wraps, a tick sends at most four reports
-- and keeps the schedule configured. Unless a send failed, no heartbeat is due afterwards. When four
-- heartbeats were tried and the next one is due all the same, the schedule starts again exactly one
-- period after the present time; otherwise it is the one that the loop leaves.
pub send_due_heartbeats_lem :
    (s : Session) (c : Schedule) (t : Transport) (now_ns : ℕ)
    → IsConfigured c
    → now_ns + 10000000000 < 18446744073709551616
    → let (c', t', result) = send_due_heartbeats s c t now_ns in
      IsConfigured c'
      × (length t'.sent ≤ length t.sent + 4)
      × (((e : Errno) × (result ≡ failure e)) ⊎ (now_ns < c'.next_heartbeat_ns))
      × IsLoopedOrRestarted (heartbeat_loop 4 s c t now_ns 0) now_ns c'
unfolding send_due_heartbeats IsLoopedOrRestarted
send_due_heartbeats_lem s c t now_ns v h =
    let out = heartbeat_loop 4 s c t now_ns 0 in
    let b = heartbeat_loop-Beaten 4 s c t now_ns 0 in
    let behind = out.3 == 4 && leb out.0.next_heartbeat_ns now_ns in
    elim (Bool-cases behind) [
      | inl e ↦ rw e (
        kept b.same_period b.same_timeout,
        b.few,
        inr (omega (arith, b.same_period, v.period_low, v.period_high)),
        inr (
          (restarts e).0,
          (restarts e).1,
          ap (λ n. record out.0 { next_heartbeat_ns = n })
              (omega (arith, b.same_period, v.period_high, h)),
        ),
      )
      | inr e ↦
          rw e (kept b.same_period b.same_timeout, b.few, ends b.ended e, inl (refl, goes_on e))
    ]
  where
    ends :
        {A : Type 0} {sent due : ℕ}
        → A ⊎ ((now_ns < due) ⊎ (sent ≡ 4))
        → (sent == 4 && leb due now_ns) ≡ false
        → A ⊎ (now_ns < due)
    ends (inl a) e = inl a
    ends (inr (inl q)) e = inr q
    ends (inr (inr q)) e = inr (ground arith)

    restarts : {sent due : ℕ} → (sent == 4 && leb due now_ns) ≡ true → (sent ≡ 4) × (due ≤ now_ns)
    restarts e = ground arith

    goes_on : {sent due : ℕ} → (sent == 4 && leb due now_ns) ≡ false → (sent ≢ 4) ⊎ (now_ns < due)
    goes_on e = ground arith

    kept :
        {c' : Schedule}
        → c'.heartbeat_period_us ≡ c.heartbeat_period_us
        → c'.input_timeout_ns ≡ c.input_timeout_ns
        → IsConfigured c'
    kept p q = record {
      period_low = omega (arith, v.period_low);
      period_high = omega (arith, v.period_high);
      patient = omega (arith, v.patient);
      missed = omega (arith, v.missed);
    }
