-- ===== src/Workspaces/Tests.antt =====
-- The theorems about workspaces at the workspace of Examples.
mod Storage
mod Joining
mod Leaving
mod Teams
