-- ===== src/Workspaces/Storage/Reads.antt =====
-- The methods of Storage that write nothing.
use drive_server_wip.Prelude.Outcome.Reads.{Reads, reads_rules}
use drive_server_wip.Workspaces.Store.{Workspace, Services, Store, has_no_seat_left}
use drive_server_wip.Workspaces.Repository.{get_workspace_users_count}
use drive_server_wip.Prelude.{◌≡◌, refl}
use drive_server_wip.Prelude.Outcome.{ok, ◌>>=◌}
use drive_server_wip.Workspaces.Storage.{
  get_workspace_network_limit, get_owner_available_space, get_assignable_space_in_workspace,
  is_workspace_full, get_workspace_fixed_storage_per_user,
}

module _ (services : Services) (w : Workspace) where
  pub get_workspace_network_limit-Reads : Reads (get_workspace_network_limit services w)
  unfolding get_workspace_network_limit
  get_workspace_network_limit-Reads = search reads_rules

  pub get_owner_available_space-Reads : Reads (get_owner_available_space services w)
  unfolding get_owner_available_space
  get_owner_available_space-Reads = search reads_rules

  pub get_assignable_space_in_workspace-Reads : Reads (get_assignable_space_in_workspace services w)
  unfolding get_assignable_space_in_workspace
  get_assignable_space_in_workspace-Reads = search (reads_rules, get_owner_available_space-Reads)

  pub is_workspace_full-Reads : Reads (is_workspace_full services w)
  unfolding is_workspace_full
  is_workspace_full-Reads = search reads_rules

  pub get_workspace_fixed_storage_per_user-Reads :
      Reads (get_workspace_fixed_storage_per_user services w)
  unfolding get_workspace_fixed_storage_per_user
  get_workspace_fixed_storage_per_user-Reads =
      search (reads_rules, get_workspace_network_limit-Reads)

  pub is_workspace_full-eq :
      {s : Store services.World}
      → is_workspace_full services w s
        ≡ (ok (has_no_seat_left w (get_workspace_users_count w.id s)), s)
  unfolding is_workspace_full ◌>>=◌
  is_workspace_full-eq = refl
