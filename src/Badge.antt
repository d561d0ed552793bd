-- ===== src/Badge.antt =====
-- badge/app: the emulator's side of the link on the badge, and its display.
mod Tests
pub mod Link
pub mod UsbHost
pub mod Send
pub mod Startup
pub mod Oled
