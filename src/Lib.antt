-- ===== src/Lib.antt =====
-- USBDisplayStack: a virtual display whose frames a daemon hands to a USB display adapter.
--
-- Parts, and the files that model them:
--
-- - include/usbdisplay/uapi.h: Uapi. The records DeviceInfo and Update have the fields of the C
--   structures, and the enumerations are numbers.
-- - kernel/usbdisplay_drv.c: Kernel. Kernel.Device is struct usbdisplay_device and struct
--   usbdisplay_file; Kernel.Damage is usbdisplay_set_damage, Kernel.Slots usbdisplay_select_slot,
--   Kernel.Publish usbdisplay_publish, Kernel.Stream the file operations usbdisplay_stream_*,
--   Kernel.Fbdev the usbdisplay_fbdev_* callbacks, and Kernel.Probe the geometry and first frame of
--   usbdisplay_probe. Kernel.System runs producers and consumers in any order.
-- - backends/actions-micro/actions_micro_backend.c: Actions. Actions.Wire is read_le16 to
--   rewrite_report_session, Actions.Session consume_sync_report, Actions.Transport send_report,
--   advance_transport_state and send_sync_report, Actions.Video send_video_message, whose loop
--   over the fragments runs as many rounds as there are fragments, Actions.AccessUnit
--   reserve_buffer to split_access_unit, whose loop runs at most once for each byte, and
--   Actions.Heartbeat the heartbeat schedule and the watchdog. The doubling of reserve_buffer
--   runs on fuel, as many rounds as bytes are required, which is enough for a maximum of at most
--   2^63 bytes; above that the capacity can wrap to 0, where the code would not return and the
--   model answers E2BIG. Actions.Input is poll_hid_inputs and negotiate_session, whose rounds are
--   the attempts of the code; a script of rounds says what the clock, poll and read answer.
--   Actions.Template is load_template, with one round for each record that the file announces,
--   Actions.Bootstrap the sending of the captured reports and the sequence numbers that outlive a
--   reset, Actions.Encoder start_encoder and stop_encoder, and Actions.Packing pack_frame. Each
--   of them works on the fields of struct actions_context that it names.
-- - userspace/usb-displayd.c: Daemon. Daemon.Loop is validate_update and the loop of run_loop: a
--   pass is one round, its record holds what poll, read, the clock and the backend answer, and a
--   list of passes is a run that ends when a stop is requested. Daemon.Files is the ready file and
--   the sleeps, Daemon.Main is main, where a list of attempts is the rounds of its loop.
--   Daemon.Contract relates the daemon to the kernel module.
-- - userspace/splash.c: Splash. Splash.Surface is the surface and its rectangles, Splash.Line the
--   lines and circles, Splash.Text the letters, Splash.Page the page. The pixels are the list of the
--   writes. The loop of splash_line runs on fuel, the sum of the deltas and one, which is enough for
--   every line.
--
-- How the code is rendered. A function that changes a structure returns the new record beside its
-- result. An int that is 0 or -errno is a Status, and a value or -errno a Result. Unsigned numbers
-- are natural numbers with the wrap written out (u8, u16, u32, u64); a size_t has 64 bits, but in
-- usbdisplay_splash_bytes, which takes SIZE_MAX. A pointer is the memory behind it, a list of bytes.
-- What a system call, a kernel function or an allocation answers is an argument of the function that
-- makes the call. A critical section is one step. The int coordinates of the splash are below a
-- thousand, so they are integers without a limit. An int that is a descriptor is a Boolean, open or
-- not, beside a count of what the process holds.
--
-- Not modelled: the DRM helpers, memory barriers, the devm clean-up list and module registration of
-- the kernel module; the arguments of the daemon; of the Actions Micro backend the options, the
-- search for the USB device and its reset, reading from the encoder, and the functions open, close,
-- tick and submit that join the parts; the null and PPM backends; logging; tools, scripts,
-- packaging, tests and examples of the repository.
pub mod Common
pub mod Uapi
pub mod Kernel
pub mod Actions
pub mod Daemon
pub mod Splash
