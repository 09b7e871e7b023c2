-- ===== src/Daemon/Main/Generations.antt =====
-- userspace/usb-displayd.c: the generations that the ready file announces.
use mathlib.Core.Path.{subst}
use usbdisplay_stack.Common.{
  ℕ, zero, suc, ◌+◌, ◌≤◌, ◌<◌, ◌≡◌, refl, sym, ap, ap₂, ◌∙◌, ◌⊎◌, inl, inr, Bool, true, false, List,
  [], ◌∷◌, ◌++◌, arith, Bool-cases, Status-cases, u32, u64, Errno, Status, success, failure, length,
}
use usbdisplay_stack.Daemon.Files.{sleep_milliseconds, publish_ready_file, remove_ready_file, Files}
use usbdisplay_stack.Daemon.Main.{
  open_stream, idle_daemon, unmap_stream, close_device, reopen_frame_stream, map_device,
  open_device, start, open_backend, close_context, open_transport, count_reopen, end_generation,
  run_generation, attempt, run_attempts, release, main, Daemon, StartCalls, Attempt,
}

-- 1, 2, ..., n
unfoldable pub up_to : ℕ → List ℕ
up_to zero = []
up_to (suc n) = up_to n ++ (suc n ∷ [])

-- run_loop returns without an error only when a stop was asked for, and a stop is not taken back.
pub record IsFaithful (a : Attempt) : Type 0 where
  pub ends_by_stop : a.loop_result ≡ success → a.loop_stopped ≡ true
  pub stays : a.loop_stopped ≡ true → a.stopped ≡ true

abbrev pub AllFaithful : List Attempt → Type 0
AllFaithful [] = Unit {0}
AllFaithful (a ∷ attempts) = IsFaithful a × AllFaithful attempts

-- So many generations were announced, and the last one was lost.
record Counted (n : ℕ) (s : Daemon) : Type 0 where
  announced : s.generations ≡ up_to n
  lost :
      ((n ≡ 0) × (s.reopen_pending ≡ false) × (s.reopen_count ≡ 0))
      ⊎ ((s.reopen_pending ≡ true) × (suc s.reopen_count ≡ n))

open_transport_keeps :
    (a : Attempt) (s : Daemon)
    → let s' = (open_transport a s).0 in
      (s'.generations ≡ s.generations)
      × (s'.reopen_pending ≡ s.reopen_pending)
      × (s'.reopen_count ≡ s.reopen_count)
unfolding open_transport open_backend reopen_frame_stream unmap_stream close_device open_stream
open_transport_keeps a s = ground arith

end_generation_keeps :
    (a : Attempt) (s : Daemon)
    → s.reopen_pending ≡ false
    → let s' = (end_generation a s).0 in
      (s'.generations ≡ s.generations)
      × (s'.reopen_count ≡ s.reopen_count)
      × ((a.loop_stopped ≡ true) ⊎ (a.loop_result ≡ success) ⊎ (s'.reopen_pending ≡ true))
unfolding end_generation close_context
end_generation_keeps a s h = ground arith

-- How a round counts.
data Round (a : Attempt) (n : ℕ) (out : Daemon × Status) : Type 0 where
  none_announced : Counted n out.0 → Round a n out
  refused : (e : Errno) → out.1 ≡ failure e → out.0.generations ≡ up_to n → Round a n out
  one_announced : Counted (suc n) out.0 → Round a n out
  last_announced : a.stopped ≡ true → out.0.generations ≡ up_to (suc n) → Round a n out

-- The state in which run_loop starts.
abbrev announced_state : Attempt → Daemon → Daemon
announced_state a s =
    let s1 = count_reopen s in
    record s1 {
      files = (publish_ready_file a.ready s1.files).0;
      generations = s1.generations ++ (u64 (s1.reopen_count + 1) ∷ []);
    }

run_generation_published :
    (a : Attempt) (s : Daemon)
    → (publish_ready_file a.ready (count_reopen s).files).1 ≡ success
    → run_generation a s ≡ end_generation a (announced_state a s)
unfolding run_generation
run_generation_published a s x = rw (x, run_generation)

run_generation_refused :
    (a : Attempt) (s : Daemon) {e : Errno}
    → (publish_ready_file a.ready (count_reopen s).files).1 ≡ failure e
    → ((run_generation a s).1 ≡ failure e) × ((run_generation a s).0.generations ≡ s.generations)
unfolding run_generation close_context count_reopen
run_generation_refused a s x = ground arith

next_generation :
    (s : Daemon) (n : ℕ)
    → Counted n s
    → suc n < 18446744073709551616
    → u64 ((count_reopen s).reopen_count + 1) ≡ suc n
unfolding count_reopen
next_generation s n c h = ground arith

run_generation-Round :
    (a : Attempt) (s : Daemon) (n : ℕ)
    → IsFaithful a
    → Counted n s
    → suc n < 18446744073709551616
    → Round a n (run_generation a s)
unfolding up_to count_reopen
run_generation-Round a s n faithful c h =
    elim (Status-cases (publish_ready_file a.ready (count_reopen s).files).1) [
      | inr (e, x) ↦
          let (failing, same) = run_generation_refused a s x in
          refused e failing (same ∙ c.announced)
      | inl x ↦
          let (same, count, ends) = end_generation_keeps a (announced_state a s) refl in
          let list : (end_generation a (announced_state a s)).0.generations ≡ up_to (suc n) =
            same ∙ ap₂ (λ xs k. xs ++ (k ∷ [])) c.announced (next_generation s n c h) in
          subst (Round a n) (sym (run_generation_published a s x)) (close ends list count)
    ]
  where
    counted : (count_reopen s).reopen_count ≡ n
    counted = ground arith

    close :
        let s' = (end_generation a (announced_state a s)).0 in
        (a.loop_stopped ≡ true) ⊎ (a.loop_result ≡ success) ⊎ (s'.reopen_pending ≡ true)
        → s'.generations ≡ up_to (suc n)
        → s'.reopen_count ≡ (count_reopen s).reopen_count
        → Round a n (end_generation a (announced_state a s))
    close (inl e) list count = last_announced (faithful.stays e) list
    close (inr (inl e)) list count = last_announced (faithful.stays (faithful.ends_by_stop e)) list
    close (inr (inr e)) list count =
        one_announced (record { announced = list; lost = inr (e, ap suc (count ∙ counted)) })

close_context_keeps :
    (s : Daemon)
    → let s' = close_context s in
      (s'.generations ≡ s.generations)
      × (s'.reopen_pending ≡ s.reopen_pending)
      × (s'.reopen_count ≡ s.reopen_count)
unfolding close_context
close_context_keeps s = ground arith

attempt-Round :
    (a : Attempt) (s : Daemon) (n : ℕ)
    → IsFaithful a
    → Counted n s
    → suc n < 18446744073709551616
    → Round a n (attempt a s)
unfolding attempt
attempt-Round a s n faithful c h =
    let (same, pending, count) = open_transport_keeps a s in
    let closed = close_context_keeps (open_transport a s).0 in
    elim (Status-cases (open_transport a s).1) [
      | inr (e, x) ↦ subst (Round a n) (sym (waits x)) (
          none_announced
            (record { announced = closed.0 ∙ same ∙ c.announced; lost = ground (arith, closed) }))
      | inl x ↦ subst (Round a n) (sym (opens x)) (
          run_generation-Round a (open_transport a s).0 n faithful
            (record { announced = same ∙ c.announced; lost = ground arith }) h)
    ]
  where
    s1 : Daemon
    s1 = (open_transport a s).0

    waits :
        {e : Errno}
        → (open_transport a s).1 ≡ failure e
        → attempt a s ≡ (
          record (close_context s1) { retry_count = u32 (s1.retry_count + 1) },
          sleep_milliseconds a.naps,
        )
    waits x = rw (x, attempt)

    opens : (open_transport a s).1 ≡ success → attempt a s ≡ run_generation a s1
    opens x = rw (x, attempt)

-- One round and what may follow it.
run_attempts_cons :
    (a : Attempt) (attempts : List Attempt) (s : Daemon)
    → let s' = (run_attempts (a ∷ attempts) s).0 in
      (s' ≡ (attempt a s).0)
      ⊎ (((attempt a s).1 ≡ success)
          × (a.stopped ≡ false)
          × (s' ≡ (run_attempts attempts (attempt a s).0).0))
unfolding run_attempts
run_attempts_cons a attempts s = elim (Status-cases (attempt a s).1) [
  | inr (e, x) ↦ inl (ground arith)
  | inl x ↦ elim (Bool-cases a.stopped) [
    | inl e ↦ inl (ground arith)
    | inr e ↦ inr (x, e, ground arith)
  ]
]

-- What was announced in a run of rounds.
abbrev Announced : ℕ → Daemon → Type 0
Announced bound s = (m : ℕ) × (m ≤ bound) × (s.generations ≡ up_to m)

run_attempts-Announced :
    (attempts : List Attempt) (s : Daemon) (n : ℕ)
    → AllFaithful attempts
    → Counted n s
    → n + length attempts < 18446744073709551616
    → Announced (n + length attempts) (run_attempts attempts s).0
unfolding run_attempts
run_attempts-Announced [] s n faithful c h = (n, omega arith, c.announced)
run_attempts-Announced (a ∷ attempts) s n (faithful, rest) c h =
    elim (attempt-Round a s n faithful c (omega arith)) [
      | none_announced c' ↦ elim (run_attempts_cons a attempts s) [
        | inl e ↦ (n, omega arith, ap (λ t. t.generations) e ∙ c'.announced)
        | inr (x, y, e) ↦
            let (m, b, q) =
              run_attempts-Announced attempts (attempt a s).0 n rest c' (omega arith) in
            (m, omega (arith, b), ap (λ t. t.generations) e ∙ q)
      ]
      | refused x failing q ↦ elim (run_attempts_cons a attempts s) [
        | inl e ↦ (n, omega arith, ap (λ t. t.generations) e ∙ q)
        | inr (y, z, e) ↦ absurd (apart (sym y ∙ failing))
      ]
      | one_announced c' ↦ elim (run_attempts_cons a attempts s) [
        | inl e ↦ (suc n, omega arith, ap (λ t. t.generations) e ∙ c'.announced)
        | inr (x, y, e) ↦
            let (m, b, q) =
              run_attempts-Announced attempts (attempt a s).0 (suc n) rest c' (omega arith) in
            (m, omega (arith, b), ap (λ t. t.generations) e ∙ q)
      ]
      | last_announced stop q ↦ elim (run_attempts_cons a attempts s) [
        | inl e ↦ (suc n, omega arith, ap (λ t. t.generations) e ∙ q)
        | inr (y, z, e) ↦ absurd (differs (sym stop ∙ z))
      ]
    ]
  where
    apart : {x : Errno} → success ≡ failure x → ⊥
    apart q = cc

    differs : true ≡ false → ⊥
    differs q = cc

start-Counted : (c : StartCalls) (f : Files) → Counted 0 (start c (idle_daemon f)).0
unfolding start open_device map_device up_to
start-Counted c f = ground arith

release_keeps : (unmapped : Status) (s : Daemon) → (release unmapped s).generations ≡ s.generations
unfolding release close_context close_device unmap_stream
release_keeps unmapped s = ground arith

-- When run_loop ends without an error only for a stop, the generations that a run of the daemon
-- announces are 1, 2, 3 and so on, one at most for each round, however often the backend or the stream
-- fails to open in between.
pub main_generations :
    (c : StartCalls) (attempts : List Attempt) (unmapped : Status) (has_path unlinked : Bool)
    (f : Files)
    → AllFaithful attempts
    → length attempts < 18446744073709551616
    → (n : ℕ) × (n ≤ length attempts)
      × ((main c attempts unmapped has_path unlinked f).0.generations ≡ up_to n)
unfolding main
main_generations c attempts unmapped has_path unlinked f faithful h =
    let s = (start c (idle_daemon f)).0 in
    let s' = (run_attempts attempts s).0 in
    let (m, b, q) =
      run_attempts-Announced attempts s 0 faithful (start-Counted c f) (omega arith) in
    elim (Status-cases (start c (idle_daemon f)).1) [
      | inr (e, x) ↦
          (0, omega arith, rw (x, main) (release_keeps unmapped s ∙ (start-Counted c f).announced))
      | inl x ↦ (
        m,
        omega (arith, b),
        rw (x, main)
            (release_keeps unmapped
                (record s' { files = remove_ready_file has_path unlinked s'.files })
              ∙ q),
      )
    ]
