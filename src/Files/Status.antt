-- ===== src/Files/Status.antt =====
-- `FileStatus` of src/modules/file/file.domain.ts.
use drive_server_wip.Prelude.{Bool, true, false}

pub data FileStatus : Type 0 where
  exists trashed deleted : FileStatus

abbrev pub is_status_exists : FileStatus → Bool
is_status_exists exists = true
is_status_exists trashed = false
is_status_exists deleted = false

abbrev pub is_status_trashed : FileStatus → Bool
is_status_trashed exists = false
is_status_trashed trashed = true
is_status_trashed deleted = false

abbrev pub is_status_deleted : FileStatus → Bool
is_status_deleted exists = false
is_status_deleted trashed = false
is_status_deleted deleted = true
