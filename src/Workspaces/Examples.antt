-- ===== src/Workspaces/Examples.antt =====
-- A small workspace, and services that work and that fail, for the tests.
use drive_server_wip.Prelude.{ℕ, ◌/◌, String, true, false, none, some, [], ◌∷◌}
use drive_server_wip.Prelude.Int.{ℤ, pos, negsuc}
use drive_server_wip.Prelude.Outcome.{ok, err, internal_error, pure, throw}
use drive_server_wip.Workspaces.Store.{
  Workspace, WorkspaceUser, User, Store, Services, ItemType, exists,
}
use drive_server_wip.Workspaces.Invitations.{CreateInvite}

abbrev share : ℤ → ℕ → ℤ
share (pos a) n = pos (a / n)
share (negsuc a) n = negsuc (a / n)

-- The network grants 100 bytes.
abbrev pub working : Services
working = record {
  World = Unit {0};
  divide = share;
  floor_divide = share;
  get_limit = λ w b u. ok (pos 100);
  set_storage = λ e l. pure tt;
  create_folder = λ u p. pure 700;
  send_invitation = λ e i. pure tt;
  send_external_invitation = λ e i. pure tt;
  is_personal_root_empty = λ w u i r. ok false;
  move_folder = λ u f d. pure f;
  rename_folder = λ f u i. pure tt;
  member_deletion_error = none;
  team_user_deletion_error = none;
}

abbrev pub failing : Services
failing = record working {
  get_limit = λ w b u. err (internal_error "Network unavailable");
  send_external_invitation = λ e i. throw (internal_error "Mailer unavailable");
}

abbrev pub acme : Workspace
acme = record {
  id = 1;
  owner_id = 10;
  root_folder_id = 100;
  default_team_id = 50;
  workspace_user_id = 90;
  setup_completed = true;
  number_of_seats = 3;
}

abbrev row : ℕ → ℕ → ℤ → WorkspaceUser
row id member limit = record {
  id = id;
  member_id = member;
  key = "key";
  workspace_id = 1;
  space_limit = limit;
  drive_usage = pos 0;
  backups_usage = pos 0;
  root_folder_id = 200;
  deactivated = false;
  last_usage_sync_at = none;
}

abbrev pub user : ℕ → String → User
user id name = record {
  uuid = id;
  email = name;
  username = name;
  bridge_user = name;
  user_id = name;
}

-- The owner 10 with 70 bytes, the member 11 with 30 and a file of 5, and an invitation of the user 12.
abbrev pub store : Store (Unit {0})
store = record {
  workspaces = acme ∷ [];
  members = row 1000 10 (pos 70) ∷ row 1001 11 (pos 30) ∷ [];
  invites =
      record {
        id = 500;
        workspace_id = 1;
        invited_user = 12;
        encryption_algorithm = "hybrid";
        encryption_key = "key";
        space_limit = pos 20;
      }
      ∷ [];
  teams =
      record { id = 50; workspace_id = 1; manager_id = 10; name = "All" }
      ∷ record { id = 51; workspace_id = 1; manager_id = 11; name = "Design" }
      ∷ [];
  team_users =
      record { id = 2000; team_id = 50; member_id = 10 }
      ∷ record { id = 2001; team_id = 51; member_id = 11 }
      ∷ [];
  items =
      record { item_id = 300; workspace_id = 1; item_type = ItemType.file; created_by = 11 } ∷ [];
  files = record { uuid = 300; size = 5; status = exists } ∷ [];
  users =
      user 10 "owner@acme.com"
      ∷ user 11 "member@acme.com"
      ∷ user 12 "guest@acme.com"
      ∷ user 90 "acme-workspace@internxt.com"
      ∷ [];
  pre_created_users = user 13 "new@acme.com" ∷ [];
  next_uuid = 9000;
  now = 5;
  world = tt;
}

abbrev pub invitation_of : String → CreateInvite
invitation_of name = record {
  invited_user = name;
  space_limit = some (pos 10);
  encryption_algorithm = "hybrid";
  encryption_key = "key";
}
