-- ===== src/Daemon.antt =====
-- userspace/usb-displayd.c: the daemon between the kernel's frame stream and a backend.
mod Examples
pub mod Loop
pub mod Contract
pub mod Files
pub mod Main
