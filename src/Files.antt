-- ===== src/Files.antt =====
-- src/modules/file: the versions that files keep of their earlier contents.
pub mod Status
pub mod Store
pub mod Versions
pub mod Retention
pub mod Create
pub mod Restore
pub mod Delete
pub mod Undo
pub mod Unversioned
pub mod Drive
pub mod Handlers
pub mod Names
mod Tests
