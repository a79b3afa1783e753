-- ===== src/Workspaces/Tests/Teams.antt =====
-- Teams at the workspace of Examples.
use drive_server_wip.Prelude.{ℕ, ◌+◌, ◌≤◌, ◌≡◌, refl, some, ◌==◌, ◌&&◌, if◌then◌else◌}
use drive_server_wip.Prelude.Table.{count}
use drive_server_wip.Prelude.Outcome.{ok, ◌>>=◌}
use drive_server_wip.Workspaces.Store.{
  Uuid, Workspace, WorkspaceUser, WorkspaceTeam, Store, is_default_team, is_user_manager,
}
use drive_server_wip.Workspaces.Repository.{
  has_member, is_team_member, find_workspace, get_team_by_id, get_teams_in_workspace_count,
  find_active_member,
}
use drive_server_wip.Workspaces.Teams.{
  create_team, get_and_validate_non_default_team_workspace, replace_manager, member,
  remove_member_from_team, add_member_to_team, change_team_manager, change_user_role,
  set_new_manager, new_manager,
}
use drive_server_wip.Workspaces.Teams.Rules.{add_member_to_team-adds, add_member_to_team-unbounded}
use drive_server_wip.Workspaces.Teams.Managers.{
  remove_member_from_team-removes, change_team_manager-changes, change_user_role-manager,
  create_team-creates, manager_after,
}
use drive_server_wip.Workspaces.Examples.{acme, store}

abbrev owner_added : Store (Unit {0})
owner_added = (add_member_to_team (Unit {0}) 51 10 store).1

add_member_to_team-adds_example :
    (count (is_team_member 10 51) store.team_users ≡ 0)
    × ((v m : Uuid)
        → count (is_team_member m v) owner_added.team_users
          ≡ count (is_team_member m v) store.team_users + (if 10 == m && 51 == v then 1 else 0))
    × (owner_added.teams ≡ store.teams)
    × (owner_added.members ≡ store.members)
unfolding add_member_to_team get_and_validate_non_default_team_workspace is_default_team ◌>>=◌
add_member_to_team-adds_example = add_member_to_team-adds 51 10 store refl

add_member_to_team-unbounded_example :
    (s' : Store (Unit {0})) × (add_member_to_team (Unit {0}) 51 10 store ≡ (ok tt, s'))
    × (count (λ r. r.team_id == 51) s'.team_users
        ≡ count (λ r. r.team_id == 51) store.team_users + 1)
unfolding is_default_team
add_member_to_team-unbounded_example =
    add_member_to_team-unbounded 51 10 store {workspace = acme} refl refl refl refl refl refl

abbrev manager_removed : Store (Unit {0})
manager_removed = (remove_member_from_team (Unit {0}) 51 11 store).1

remove_member_from_team-removes_example :
    (team : WorkspaceTeam) × (workspace : Workspace) × (get_team_by_id 51 store ≡ some team)
    × (find_workspace team.workspace_id store ≡ some workspace)
    × (1 ≤ count (is_team_member 11 51) store.team_users)
    × (count (is_team_member 11 51) manager_removed.team_users ≡ 0)
    × (get_team_by_id 51 manager_removed
        ≡ some (
            if team.manager_id == 11
            then record team { manager_id = workspace.owner_id }
            else team))
unfolding remove_member_from_team replace_manager get_and_validate_non_default_team_workspace
    is_default_team ◌>>=◌
remove_member_from_team-removes_example = remove_member_from_team-removes 51 11 store refl

abbrev manager_changed : Store (Unit {0})
manager_changed = (change_team_manager (Unit {0}) 51 11 store).1

change_team_manager-changes_example :
    (team : WorkspaceTeam) × (row : WorkspaceUser) × (get_team_by_id 51 store ≡ some team)
    × (find_active_member 11 store ≡ some row)
    × (1 ≤ count (is_team_member 11 51) store.team_users)
    × (get_team_by_id 51 manager_changed ≡ some (record team { manager_id = 11 }))
    × (manager_changed.team_users ≡ store.team_users)
unfolding change_team_manager get_and_validate_non_default_team_workspace is_default_team ◌>>=◌
change_team_manager-changes_example = change_team_manager-changes 51 11 store refl

abbrev manager_demoted : Store (Unit {0})
manager_demoted = (change_user_role (Unit {0}) 1 51 11 member store).1

change_user_role-manager_example :
    (team : WorkspaceTeam) × (get_team_by_id 51 store ≡ some team)
    × (1 ≤ count (is_team_member 11 51) store.team_users)
    × (get_team_by_id 51 manager_demoted
        ≡ some (record team { manager_id = manager_after member 11 team.manager_id 10 }))
    × (manager_demoted.team_users ≡ store.team_users)
unfolding change_user_role set_new_manager new_manager is_user_manager ◌>>=◌
change_user_role-manager_example =
    change_user_role-manager 1 51 11 member store {workspace = acme} refl refl

abbrev team_created : Store (Unit {0})
team_created = (create_team (Unit {0}) 10 1 "Sales" (some 11) store).1

create_team-creates_example :
    (get_teams_in_workspace_count 1 team_created ≤ 10)
    × (get_teams_in_workspace_count 1 team_created ≡ get_teams_in_workspace_count 1 store + 1)
    × (1 ≤ count (has_member 1 11) team_created.members)
    × (1 ≤ count (is_team_member 11 9000) team_created.team_users)
    × (◌≡◌ {A = ℕ} 11 11)
unfolding create_team ◌>>=◌
create_team-creates_example = create_team-creates 10 1 "Sales" (some 11) store refl
