-- ===== src/Workspaces.antt =====
-- src/modules/workspaces: members, invitations, storage and teams.
pub mod Store
pub mod Repository
pub mod Storage
pub mod Invitations
pub mod Teams
pub mod Leaving
mod Examples
mod Tests
