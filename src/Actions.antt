-- ===== src/Actions.antt =====
-- backends/actions-micro/actions_micro_backend.c: the HID protocol of the USB display adapter.
mod Examples
pub mod Wire
pub mod Session
pub mod Transport
pub mod Video
pub mod AccessUnit
pub mod Heartbeat
pub mod Input
pub mod Template
pub mod Bootstrap
pub mod Encoder
pub mod Packing
