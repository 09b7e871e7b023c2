-- ===== src/Actions/Encoder/Started.antt =====
-- backends/actions-micro/actions_micro_backend.c: what start_encoder leaves, whichever call fails.
use usbdisplay_stack.Common.{ℕ, ◌+◌, ◌≡◌, ◌∙◌, ◌≢◌, ◌⊎◌, true, false, arith, u64, success}
use usbdisplay_stack.Actions.Encoder.{
  close_one, stop_encoder, open_pipes, fork_encoder, attach, start_encoder, Encoder, Pipes,
  EncoderCalls,
}
use usbdisplay_stack.Actions.Encoder.Laws.{
  stop_encoder-IsStopped, open_pipes-IsStarting, fork_encoder-IsStarting,
  close_child_ends-IsStarting, attach-IsStarting, settle_lem, IsHeld, IsStopped,
}
use usbdisplay_stack.Kernel.System.{opened}
use usbdisplay_stack.Uapi.{format_rgb565, format_xrgb8888}

-- An encoder that runs on its two pipes.
pub record IsRunning (e : Encoder) : Type 0 where
  pub held : IsHeld e
  pub process : e.process ≡ true
  pub input : e.input_fd ≡ true
  pub output : e.output_fd ≡ true

-- From an encoder whose descriptors and child are what it names, running or not: a start that succeeds
-- leaves a running one of the format asked for, of the next generation, with the handoff pending; one
-- that fails leaves nothing open, no child and the generation as it was.
pub start_encoder_lem :
    (c : EncoderCalls) (format : ℕ) (e : Encoder)
    → IsHeld e
    → let (e', result) = start_encoder c format e in
      (result ≡ success)
        × IsRunning e'
        × ((format ≡ format_xrgb8888) ⊎ (format ≡ format_rgb565))
        × (e'.format ≡ format)
        × (e'.generation ≡ u64 (e.generation + 1))
        × (e'.encoder_handoff_pending ≡ true)
      ⊎ (result ≢ success) × IsStopped e' × (e'.generation ≡ e.generation)
unfolding start_encoder
start_encoder_lem c format e v =
    let e0 = stop_encoder c.before e in
    let stopped = stop_encoder-IsStopped c.before e v in
    let (e1, p, opened) = open_pipes c format e0 in
    let piped = open_pipes-IsStarting c format e0 stopped.0 in
    let (e2, forked) = fork_encoder c e1 opened in
    let born = fork_encoder-IsStarting c e1 p opened piped.0 piped.2 in
    let e3 = close_one p.output_write (close_one p.input_read e2) in
    let p3 : Pipes = record p { input_read = false; output_write = false } in
    let halved = close_child_ends-IsStarting e2 p born.0 in
    let attached =
      attach-IsStarting c format e3 p3 forked halved.0 (halved.2 ∙ born.2 ∙ piped.3)
        (halved.3 ∙ born.3 ∙ piped.4) in
    let (e4, left, result) = attach c format e3 p3 forked in
    let settled = settle_lem c e4 left result attached.0 attached.1 attached.2 in
    ground
      (arith, stopped.1, piped.1, piped.5, born.1, born.4, halved.1, halved.4, attached.3, settled)
