-- ===== src/Actions/Encoder/Laws.antt =====
-- backends/actions-micro/actions_micro_backend.c: no descriptor and no child of the encoder is lost.
use usbdisplay_stack.Common.{
  ℕ, ◌+◌, ◌≡◌, ◌≢◌, ◌⊎◌, true, false, arith, if◌then◌else◌, u64, Status, success, failure,
}
use usbdisplay_stack.Actions.Encoder.{
  close_one, close_encoder_descriptors, reap, stop_encoder, open_pipes, fork_encoder, attach,
  settle, Encoder, StopCalls, Pipes, EncoderCalls,
}
use usbdisplay_stack.Uapi.{format_invalid, format_rgb565, format_xrgb8888}

-- What the process holds is what the encoder's fields name.
pub record IsHeld (e : Encoder) : Type 0 where
  pub descriptors :
      e.open_descriptors ≡ (if e.input_fd then 1 else 0) + (if e.output_fd then 1 else 0)
  pub waiting : e.children ≡ (if e.process then 1 else 0)

-- Nothing runs and nothing is open.
pub record IsStopped (e : Encoder) : Type 0 where
  pub descriptors : e.open_descriptors ≡ 0
  pub waiting : e.children ≡ 0
  pub process : e.process ≡ false
  pub input : e.input_fd ≡ false
  pub output : e.output_fd ≡ false
  pub format : e.format ≡ format_invalid

close_encoder_descriptors_lem :
    (e : Encoder)
    → IsHeld e
    → let e' = close_encoder_descriptors e in
      IsHeld e'
      × (e'.open_descriptors ≡ 0)
      × (e'.input_fd ≡ false)
      × (e'.output_fd ≡ false)
      × (e'.generation ≡ e.generation)
unfolding close_encoder_descriptors
close_encoder_descriptors_lem e v = ground (arith, v.descriptors, v.waiting)

reap_lem :
    (c : StopCalls) (e : Encoder)
    → e.children ≡ 1
    → let e' = reap c e in
      (e'.children ≡ 0)
      × (e'.process ≡ false)
      × (e'.open_descriptors ≡ e.open_descriptors)
      × (e'.input_fd ≡ e.input_fd)
      × (e'.output_fd ≡ e.output_fd)
      × (e'.generation ≡ e.generation)
unfolding reap
reap_lem c e one = ground (arith, one)

pub stop_encoder-IsStopped :
    (c : StopCalls) (e : Encoder)
    → IsHeld e
    → let e' = stop_encoder c e in IsStopped e' × (e'.generation ≡ e.generation)
unfolding stop_encoder
stop_encoder-IsStopped c e v =
    let closed = close_encoder_descriptors_lem e v in
    let reaped = reap_lem c (close_encoder_descriptors e) in
    ground (arith, closed, reaped, closed.0.waiting)

-- What the steps of start_encoder hold: the encoder's ends, the pipes' ends, and the child.
pub record IsStarting (e : Encoder) (p : Pipes) : Type 0 where
  pub descriptors :
      e.open_descriptors
      ≡ (if e.input_fd then 1 else 0)
        + (if e.output_fd then 1 else 0)
        + (if p.input_read then 1 else 0)
        + (if p.input_write then 1 else 0)
        + (if p.output_read then 1 else 0)
        + (if p.output_write then 1 else 0)
  pub waiting : e.children ≡ (if e.process then 1 else 0)

pub open_pipes-IsStarting :
    (c : EncoderCalls) (format : ℕ) (e : Encoder)
    → IsStopped e
    → let (e', p, result) = open_pipes c format e in
      IsStarting e' p
      × (e'.generation ≡ e.generation)
      × (e'.process ≡ false)
      × (e'.input_fd ≡ false)
      × (e'.output_fd ≡ false)
      × (result ≡ success
          → (p.input_write ≡ true)
            × (p.output_read ≡ true)
            × ((format ≡ format_xrgb8888) ⊎ (format ≡ format_rgb565)))
unfolding open_pipes
open_pipes-IsStarting c format e v = ground (arith, v)

pub fork_encoder-IsStarting :
    (c : EncoderCalls) (e : Encoder) (p : Pipes) (opened : Status)
    → IsStarting e p
    → e.process ≡ false
    → let (e', result) = fork_encoder c e opened in
      IsStarting e' p
      × (e'.generation ≡ e.generation)
      × (e'.input_fd ≡ e.input_fd)
      × (e'.output_fd ≡ e.output_fd)
      × (result ≡ success → (opened ≡ success) × (e'.process ≡ true))
unfolding fork_encoder
fork_encoder-IsStarting c e p (failure x) v idle = ground (arith, v, idle)
fork_encoder-IsStarting c e p success v idle = ground (arith, v.descriptors, v.waiting, idle)

-- The child's ends are closed.
pub close_child_ends-IsStarting :
    (e : Encoder) (p : Pipes)
    → IsStarting e p
    → let e' = close_one p.output_write (close_one p.input_read e) in
      IsStarting e' (record p { input_read = false; output_write = false })
      × (e'.generation ≡ e.generation)
      × (e'.input_fd ≡ e.input_fd)
      × (e'.output_fd ≡ e.output_fd)
      × (e'.process ≡ e.process)
close_child_ends-IsStarting e p v = ground (arith, v.descriptors, v.waiting)

pub attach-IsStarting :
    (c : EncoderCalls) (format : ℕ) (e : Encoder) (p : Pipes) (forked : Status)
    → IsStarting e p
    → e.input_fd ≡ false
    → e.output_fd ≡ false
    → let (e', p', result) = attach c format e p forked in
      IsStarting e' p'
      × (p'.input_read ≡ p.input_read)
      × (p'.output_write ≡ p.output_write)
      × ((result ≡ success)
            × (forked ≡ success)
            × (p'.input_write ≡ false)
            × (p'.output_read ≡ false)
            × (e'.input_fd ≡ p.input_write)
            × (e'.output_fd ≡ p.output_read)
            × (e'.process ≡ e.process)
            × (e'.format ≡ format)
            × (e'.generation ≡ u64 (e.generation + 1))
            × (e'.encoder_handoff_pending ≡ true)
          ⊎ (result ≢ success) × (e'.generation ≡ e.generation))
unfolding attach
attach-IsStarting c format e p (failure x) v input output = ground (arith, v, input, output)
attach-IsStarting c format e p success v input output =
    ground (arith, v.descriptors, v.waiting, input, output)

pub settle_lem :
    (c : EncoderCalls) (e : Encoder) (p : Pipes) (result : Status)
    → IsStarting e p
    → p.input_read ≡ false
    → p.output_write ≡ false
    → let e' = settle c e p result in
      (result ≡ success)
        × IsHeld e'
        × (e'.generation ≡ e.generation)
        × (e'.process ≡ e.process)
        × (e'.input_fd ≡ e.input_fd)
        × (e'.output_fd ≡ e.output_fd)
        × (e'.format ≡ e.format)
        × (e'.encoder_handoff_pending ≡ e.encoder_handoff_pending)
      ⊎ (result ≢ success) × IsStopped e' × (e'.generation ≡ e.generation)
unfolding settle
settle_lem c e p success v r w = ground (arith, v.descriptors, v.waiting, r, w)
settle_lem c e p (failure x) v r w =
    let e2 = close_one p.output_read (close_one p.input_write e) in
    let held : IsHeld e2 = ground (arith, v.descriptors, v.waiting, r, w) in
    let closed = close_encoder_descriptors_lem e2 held in
    let stopped = stop_encoder-IsStopped c.behind (close_encoder_descriptors e2) closed.0 in
    ground (arith, closed, stopped)
