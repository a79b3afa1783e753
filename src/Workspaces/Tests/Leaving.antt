-- ===== src/Workspaces/Tests/Leaving.antt =====
-- Leaving at the workspace of Examples.
use drive_server_wip.Prelude.{ℕ, ◌≡◌, ◌≢◌, refl}
use drive_server_wip.Prelude.Int.{pos, ◌+ℤ◌, ◌-ℤ◌}
use drive_server_wip.Prelude.Table.{count}
use drive_server_wip.Prelude.Outcome.{◌>>=◌}
use drive_server_wip.Workspaces.Store.{Store, is_user_owner}
use drive_server_wip.Workspaces.Repository.{has_member, sum_size_of_files}
use drive_server_wip.Workspaces.Storage.{
  get_workspace_network_limit, adjust_owner_storage, check_adjustment,
}
use drive_server_wip.Workspaces.Storage.Owner.{assigned}
use drive_server_wip.Workspaces.Leaving.{
  hand_over_items, check_transfer, transfer_personal_items_to_workspace_owner, hand_over_teams,
  leave_teams, leave_workspace,
}
use drive_server_wip.Workspaces.Leaving.Leave.{transfer-usage, leave_workspace-assigned}
use drive_server_wip.Workspaces.Examples.{working, user, store}
use drive_server_wip.Workspaces.Tests.Storage.{store-IsKeyed}

abbrev transferred : Store (Unit {0})
transferred =
    (transfer_personal_items_to_workspace_owner working 1 (user 11 "member@acme.com") store).1

transfer-usage_example :
    (◌≢◌ {A = ℕ} 11 10)
    × (sum_size_of_files 10 1 transferred
        ≡ sum_size_of_files 11 1 store +ℤ sum_size_of_files 10 1 store)
    × (sum_size_of_files 11 1 transferred ≡ pos 0)
unfolding transfer_personal_items_to_workspace_owner check_transfer hand_over_items is_user_owner
    ◌>>=◌ ◌+ℤ◌
transfer-usage_example =
    transfer-usage working 1 (user 11 "member@acme.com") store refl refl refl refl

abbrev member_left : Store (Unit {0})
member_left = (leave_workspace working 1 (user 11 "member@acme.com") store).1

leave_workspace-assigned_example :
    (◌≢◌ {A = ℕ} 11 10)
    × (assigned 1 member_left ≡ assigned 1 store)
    × (count (has_member 1 11) member_left.members ≡ 0)
unfolding leave_workspace transfer_personal_items_to_workspace_owner check_transfer hand_over_items
    hand_over_teams leave_teams adjust_owner_storage check_adjustment get_workspace_network_limit
    is_user_owner ◌>>=◌ ◌+ℤ◌ ◌-ℤ◌
leave_workspace-assigned_example =
    leave_workspace-assigned working 1 (user 11 "member@acme.com") store
      store-IsKeyed.one_membership refl refl
