-- ===== src/Launchpad.antt =====
-- src/modules/launchpad/launchpad.service.ts: the projects that are listed, and subscriptions.
pub mod Modes
pub mod Subscribe
pub mod Subscribed
mod Tests
