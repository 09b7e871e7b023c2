-- ===== src/Splash.antt =====
-- userspace/splash.c: the page that the daemon shows until an application draws.
pub mod Surface
pub mod Line
pub mod Text
pub mod Page
mod Examples
