-- ===== src/Actions/Encoder/Examples.antt =====
-- backends/actions-micro/actions_micro_backend.c: an encoder that is started in place of a running one.
use usbdisplay_stack.Common.{◌≡◌, refl, ◌≢◌, ◌⊎◌, true, false, success}
use usbdisplay_stack.Actions.Encoder.{start_encoder, Encoder, EncoderCalls, still_running, gone}
use usbdisplay_stack.Actions.Encoder.Laws.{IsHeld, IsStopped}
use usbdisplay_stack.Actions.Encoder.Started.{start_encoder_lem, IsRunning}
use usbdisplay_stack.Uapi.{format_rgb565, format_xrgb8888}

abbrev running : Encoder
running = record {
  process = true;
  input_fd = true;
  output_fd = true;
  format = format_rgb565;
  generation = 3;
  encoder_handoff_pending = false;
  open_descriptors = 2;
  children = 1;
  signals = 0;
}

abbrev restart : EncoderCalls
restart = record {
  before = record { at_once = still_running; graceful = gone };
  input_pipe = success;
  output_pipe = success;
  input_cloexec = success;
  output_cloexec = success;
  forked = success;
  nonblocking = success;
  behind = record { at_once = gone; graceful = gone };
}

running-IsHeld : IsHeld running
running-IsHeld = record { descriptors = refl; waiting = refl }

start_encoder_lem_example :
    let (e', result) = start_encoder restart format_xrgb8888 running in
    (result ≡ success)
      × IsRunning e'
      × ((format_xrgb8888 ≡ format_xrgb8888) ⊎ (format_xrgb8888 ≡ format_rgb565))
      × (e'.format ≡ format_xrgb8888)
      × (e'.generation ≡ 4)
      × (e'.encoder_handoff_pending ≡ true)
    ⊎ (result ≢ success) × IsStopped e' × (e'.generation ≡ 3)
start_encoder_lem_example = start_encoder_lem restart format_xrgb8888 running running-IsHeld
