-- ===== src/User.antt =====
-- src/modules/user/user.service.ts: following, and the profile.
pub mod Follow
pub mod Counts
pub mod Followers
pub mod Toggles
pub mod Listing
pub mod Shown
pub mod Profile
pub mod Unique
pub mod Email
pub mod Verify
pub mod Verified
mod Tests
