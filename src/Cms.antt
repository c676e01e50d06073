-- ===== src/Cms.antt =====
-- The back office (src/modules/cms).
pub mod Rounds
pub mod RoundRows
pub mod RoundSteps
pub mod Requests
pub mod Collections
pub mod Accounts
pub mod AccountSteps
pub mod AccountRequests
pub mod Projects
pub mod ProjectSteps
pub mod ProjectLocks
pub mod Active
pub mod Hidden
mod Tests
