-- ===== src/Actions/Encoder.antt =====
-- backends/actions-micro/actions_micro_backend.c: the life of the encoder process and of its pipes
-- (close_encoder_descriptors, stop_encoder, start_encoder), as the parent sees it. What the child does
-- behind fork is the encoder's own.
pub mod Laws
mod Examples
pub mod Started
use usbdisplay_stack.Common.{
  ℕ, ◌+◌, ◌-◌, Bool, true, false, ◌||◌, ◌==◌, if◌then◌else◌, u64, Status, success, failure,
  ◌then_try◌, enotsup,
}
use usbdisplay_stack.Kernel.System.{opened}
use usbdisplay_stack.Uapi.{format_invalid, format_rgb565, format_xrgb8888}

-- struct actions_encoder without its buffers, and the handoff flag of struct actions_context. The two
-- counts are what the process holds: descriptors of pipes, and children that were not waited for;
-- `signals` counts the SIGTERMs.
pub record Encoder : Type 0 where
  pub process : Bool
  pub input_fd : Bool
  pub output_fd : Bool
  pub format : ℕ
  pub generation : ℕ
  pub encoder_handoff_pending : Bool
  pub open_descriptors : ℕ
  pub children : ℕ
  pub signals : ℕ

-- What waitpid with WNOHANG answers: the child runs, or it is gone, waited for now or unknown.
pub data Waited : Type 0 where
  still_running gone : Waited

-- The two looks that stop_encoder takes, before and behind the time of grace.
pub record StopCalls : Type 0 where
  pub at_once : Waited
  pub graceful : Waited

abbrev pub close_one : Bool → Encoder → Encoder
close_one is_open e = if is_open then record e { open_descriptors = e.open_descriptors - 1 } else e

unfoldable pub close_encoder_descriptors : Encoder → Encoder
close_encoder_descriptors e =
    let e1 = close_one e.output_fd e in
    let e2 = close_one e1.input_fd e1 in record e2 { input_fd = false; output_fd = false }

-- The child that is waited for is gone; one that runs behind the time of grace gets a SIGTERM, and the
-- last waitpid returns only when it is gone.
unfoldable pub reap : StopCalls → Encoder → Encoder
reap c e =
    let waited = record e { process = false; children = e.children - 1 } in
    elim c.at_once [
      | gone ↦ waited
      | still_running ↦ elim c.graceful [
        | gone ↦ waited
        | still_running ↦ record waited { signals = e.signals + 1 }
      ]
    ]

unfoldable pub stop_encoder : StopCalls → Encoder → Encoder
unfolding close_encoder_descriptors reap
stop_encoder c e =
    let closed = close_encoder_descriptors e in
    let stopped = if closed.process then reap c closed else closed in
    record stopped { format = format_invalid }

-- The ends of the two pipes that start_encoder has to close itself.
pub record Pipes : Type 0 where
  pub input_read : Bool
  pub input_write : Bool
  pub output_read : Bool
  pub output_write : Bool

-- What the calls of start_encoder answer: pipe, twice; fcntl for the two close-on-exec flags; fork; and
-- fcntl for the flags of the output.
pub record EncoderCalls : Type 0 where
  pub before : StopCalls
  pub input_pipe : Status
  pub output_pipe : Status
  pub input_cloexec : Status
  pub output_cloexec : Status
  pub forked : Status
  pub nonblocking : Status
  pub behind : StopCalls

unfoldable pub open_pipes : EncoderCalls → ℕ → Encoder → Encoder × Pipes × Status
open_pipes c format e =
    let closed : Pipes = record {
      input_read = false;
      input_write = false;
      output_read = false;
      output_write = false;
    } in
    let supported : Status =
      if format == format_xrgb8888 || format == format_rgb565 then success else failure enotsup in
    let input = record closed { input_read = true; input_write = true } in
    let both = record input { output_read = true; output_write = true } in
    elim (supported then_try c.input_pipe) [
      | failure x ↦ (e, closed, failure x)
      | success ↦ elim c.output_pipe [
        | failure x ↦ (record e { open_descriptors = e.open_descriptors + 2 }, input, failure x)
        | success ↦ (
          record e { open_descriptors = e.open_descriptors + 4 },
          both,
          c.input_cloexec then_try c.output_cloexec,
        )
      ]
    ]

unfoldable pub fork_encoder : EncoderCalls → Encoder → Status → Encoder × Status
fork_encoder c e (failure x) = (e, failure x)
fork_encoder c e success = elim c.forked [
  | failure x ↦ (record e { process = false }, failure x)
  | success ↦ (record e { process = true; children = e.children + 1 }, success)
]

-- The parent's ends go to the encoder.
unfoldable pub attach : EncoderCalls → ℕ → Encoder → Pipes → Status → Encoder × Pipes × Status
attach c format e p (failure x) = (e, p, failure x)
attach c format e p success =
    let held = record e { input_fd = p.input_write; output_fd = p.output_read } in
    let left = record p { input_write = false; output_read = false } in
    elim c.nonblocking [
      | failure x ↦ (held, left, failure x)
      | success ↦ (
        record held {
          format = format;
          generation = u64 (e.generation + 1);
          encoder_handoff_pending = true;
        },
        left,
        success,
      )
    ]

-- The end of start_encoder behind the attaching: what is left of the pipes, and the encoder if a call
-- failed.
unfoldable pub settle : EncoderCalls → Encoder → Pipes → Status → Encoder
unfolding close_encoder_descriptors stop_encoder
settle c e p result =
    let e1 = close_one p.input_write e in
    let e2 = close_one p.output_read e1 in
    elim result [ success ↦ e2 | failure x ↦ stop_encoder c.behind (close_encoder_descriptors e2) ]

unfoldable pub start_encoder : EncoderCalls → ℕ → Encoder → Encoder × Status
unfolding stop_encoder open_pipes fork_encoder attach settle
start_encoder c format e =
    let (e1, p, opened) = open_pipes c format (stop_encoder c.before e) in
    let (e2, forked) = fork_encoder c e1 opened in
    let e3 = close_one p.output_write (close_one p.input_read e2) in
    let mine = record p { input_read = false; output_write = false } in
    let (e4, left, result) = attach c format e3 mine forked in (settle c e4 left result, result)
