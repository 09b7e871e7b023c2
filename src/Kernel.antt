-- ===== src/Kernel.antt =====
-- kernel/usbdisplay_drv.c: the DRM and fbdev producers, the three-slot snapshot ring, and the
-- /dev/usbdisplay0 stream that one consumer reads.
pub mod Device
pub mod Damage
pub mod Slots
pub mod Publish
pub mod Stream
pub mod System
pub mod Probe
pub mod Fbdev
pub mod Examples
