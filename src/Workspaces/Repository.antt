-- ===== src/Workspaces/Repository.antt =====
-- The queries of repositories/workspaces.repository.ts, repositories/team.repository.ts and
-- modules/file/file.repository.ts that the workspace code uses.
use text.Mathlib.Text.{◌==◌ as str_eq}
use drive_server_wip.Prelude.{
  ◌++◌, ℕ, suc, String, Bool, true, false, ◌&&◌, not, Option, List, [], ◌∷◌, ◌==◌,
}
use drive_server_wip.Prelude.Int.{ℤ, pos, ◌+ℤ◌}
use drive_server_wip.Prelude.Table.{find_one, find_all, update, create, destroy, count}
use drive_server_wip.Prelude.Sum.{sum_by}
use drive_server_wip.Prelude.Outcome.{Action, modify, ok}
use drive_server_wip.Workspaces.Store.{
  Uuid, Workspace, WorkspaceUser, WorkspaceInvite, WorkspaceTeam, WorkspaceTeamUser, WorkspaceItem,
  WorkspaceFile, User, Store, exists, trashed, deleted, FileStatus,
}

-- The tests of the `where` clauses.
abbrev pub has_member : Uuid → Uuid → WorkspaceUser → Bool
has_member workspace_id member_id m = m.workspace_id == workspace_id && m.member_id == member_id

abbrev pub is_in_workspace : Uuid → WorkspaceUser → Bool
is_in_workspace workspace_id m = m.workspace_id == workspace_id

abbrev pub has_id : Uuid → WorkspaceUser → Bool
has_id id m = m.id == id

abbrev pub is_active_member : Uuid → WorkspaceUser → Bool
is_active_member member_id m = m.member_id == member_id && not m.deactivated

abbrev pub is_team_member : Uuid → Uuid → WorkspaceTeamUser → Bool
is_team_member member_id team_id t = t.member_id == member_id && t.team_id == team_id

abbrev pub is_invite_to : Uuid → Uuid → WorkspaceInvite → Bool
is_invite_to user workspace_id i = i.invited_user == user && i.workspace_id == workspace_id

abbrev pub is_kept : FileStatus → Bool
is_kept exists = true
is_kept trashed = true
is_kept deleted = false

-- The sum of the sizes of the files behind an item: the inner join of the two tables.
abbrev pub item_size : List WorkspaceFile → WorkspaceItem → ℤ
item_size files item =
    sum_by (λ f. pos f.size) (λ f. f.uuid == item.item_id && is_kept f.status) files

-- The teams of a workspace that rows of team members name.
abbrev pub teams_of_rows : Uuid → List WorkspaceTeam → List WorkspaceTeamUser → List WorkspaceTeam
teams_of_rows workspace_id teams [] = []
teams_of_rows workspace_id teams (r ∷ rs) =
    find_all (λ t. t.id == r.team_id && t.workspace_id == workspace_id) teams
    ++ teams_of_rows workspace_id teams rs

module _ {World : Type 0} where
  -- `findById` and `findOne` of a workspace
  abbrev pub find_workspace : Uuid → Store World → Option Workspace
  find_workspace id s = find_one (λ w. w.id == id) s.workspaces

  abbrev pub find_ready_workspace : Uuid → Store World → Option Workspace
  find_ready_workspace id s = find_one (λ w. w.id == id && w.setup_completed) s.workspaces

  abbrev pub find_user : Uuid → Store World → Option User
  find_user id s = find_one (λ u. u.uuid == id) s.users

  -- `findWorkspaceUser({ workspaceId, memberId })`
  abbrev pub find_workspace_user : Uuid → Uuid → Store World → Option WorkspaceUser
  find_workspace_user workspace_id member_id s =
      find_one (has_member workspace_id member_id) s.members

  -- `findWorkspaceUsers(workspaceId)`
  abbrev pub find_workspace_users : Uuid → Store World → List WorkspaceUser
  find_workspace_users workspace_id s = find_all (is_in_workspace workspace_id) s.members

  abbrev pub get_workspace_users_count : Uuid → Store World → ℕ
  get_workspace_users_count workspace_id s = count (is_in_workspace workspace_id) s.members

  abbrev pub get_total_space_limit_in_workspace_users : Uuid → Store World → ℤ
  get_total_space_limit_in_workspace_users workspace_id s =
      sum_by (λ m. m.space_limit) (is_in_workspace workspace_id) s.members

  abbrev pub get_total_drive_and_backup_usage : Uuid → Store World → ℤ
  get_total_drive_and_backup_usage workspace_id s =
      sum_by (λ m. m.backups_usage) (is_in_workspace workspace_id) s.members
      +ℤ sum_by (λ m. m.drive_usage) (is_in_workspace workspace_id) s.members

  abbrev pub get_space_limit_in_invitations : Uuid → Store World → ℤ
  get_space_limit_in_invitations workspace_id s =
      sum_by (λ i. i.space_limit) (λ i. i.workspace_id == workspace_id) s.invites

  -- `getSumSizeOfFilesInWorkspaceByStatuses(createdBy, workspaceId, [EXISTS, TRASHED])`
  abbrev pub sum_size_of_files : Uuid → Uuid → Store World → ℤ
  sum_size_of_files created_by workspace_id s =
      sum_by (item_size s.files) (λ i. i.created_by == created_by && i.workspace_id == workspace_id)
        s.items

  -- `updateWorkspaceUser(id, row)` with a whole row
  abbrev pub update_workspace_user : Uuid → WorkspaceUser → Action (Store World) (Unit {0})
  update_workspace_user id row =
      modify λ s. record s { members = update (has_id id) (λ _. row) s.members }

  -- `updateWorkspaceUserBy({ workspaceId, memberId }, { spaceLimit })`
  abbrev pub update_space_limit : Uuid → Uuid → ℤ → Action (Store World) (Unit {0})
  update_space_limit workspace_id member_id limit = modify λ s. record s {
    members =
        update (has_member workspace_id member_id) (λ m. record m { space_limit = limit })
          s.members;
  }

  abbrev pub delete_user_from_workspace : Uuid → Uuid → Action (Store World) (Unit {0})
  delete_user_from_workspace member_id workspace_id =
      modify λ s. record s { members = destroy (has_member workspace_id member_id) s.members }

  abbrev pub add_user_to_workspace : WorkspaceUser → Action (Store World) (Unit {0})
  add_user_to_workspace row = modify λ s. record s { members = create row s.members }

  abbrev pub delete_invite_by_id : Uuid → Action (Store World) (Unit {0})
  delete_invite_by_id id = modify λ s. record s { invites = destroy (λ i. i.id == id) s.invites }

  abbrev pub create_invite : WorkspaceInvite → Action (Store World) (Unit {0})
  create_invite row = modify λ s. record s { invites = create row s.invites }

  abbrev pub create_item : WorkspaceItem → Action (Store World) (Unit {0})
  create_item row = modify λ s. record s { items = create row s.items }

  -- `v4()`: an identifier that no row has
  abbrev pub v4 : Action (Store World) Uuid
  v4 s = (ok s.next_uuid, record s { next_uuid = suc s.next_uuid })

  -- A call of a service, which sees and changes only the world.
  abbrev pub call : {A : Type 0} → Action World A → Action (Store World) A
  call m s = let (r, w) = m s.world in (r, record s { world = w })

  -- `getTeamUser(memberId, teamId)` and the writes of team.repository.ts
  abbrev pub get_team_user : Uuid → Uuid → Store World → Option WorkspaceTeamUser
  get_team_user member_id team_id s = find_one (is_team_member member_id team_id) s.team_users

  abbrev pub add_user_to_team : Uuid → Uuid → Action (Store World) (Unit {0})
  add_user_to_team team_id member_id s = (
    ok tt,
    record s {
      team_users =
          create (record { id = s.next_uuid; team_id = team_id; member_id = member_id })
            s.team_users;
      next_uuid = suc s.next_uuid;
    },
  )

  abbrev pub delete_user_from_team : Uuid → Uuid → Action (Store World) (Unit {0})
  delete_user_from_team member_id team_id =
      modify λ s. record s { team_users = destroy (is_team_member member_id team_id) s.team_users }

  abbrev pub update_team_manager : Uuid → Uuid → Action (Store World) (Unit {0})
  update_team_manager team_id manager_id = modify λ s. record s {
    teams = update (λ t. t.id == team_id) (λ t. record t { manager_id = manager_id }) s.teams;
  }

  -- `findByUsername` of the users and of the users created before they sign up
  abbrev pub find_by_email : String → Store World → Option User
  find_by_email email s = find_one (λ u. str_eq u.username email) s.users

  abbrev pub find_pre_created_by_email : String → Store World → Option User
  find_pre_created_by_email email s = find_one (λ u. str_eq u.username email) s.pre_created_users

  -- `findInvite({ id })`, `findInvite({ id, invitedUser })` and `findInvite({ invitedUser, workspaceId })`
  abbrev pub find_invite : Uuid → Store World → Option WorkspaceInvite
  find_invite id s = find_one (λ i. i.id == id) s.invites

  abbrev pub find_invite_for : Uuid → Uuid → Store World → Option WorkspaceInvite
  find_invite_for id user s = find_one (λ i. i.id == id && i.invited_user == user) s.invites

  abbrev pub find_invite_to : Uuid → Uuid → Store World → Option WorkspaceInvite
  find_invite_to user workspace_id s = find_one (is_invite_to user workspace_id) s.invites

  -- `findOne({ id, ownerId, setupCompleted: false })` and `findOne({ ownerId, id })`
  abbrev pub find_pending_workspace : Uuid → Uuid → Store World → Option Workspace
  find_pending_workspace id owner s =
      find_one (λ w. w.id == id && w.owner_id == owner && not w.setup_completed) s.workspaces

  abbrev pub find_owned_workspace : Uuid → Uuid → Store World → Option Workspace
  find_owned_workspace owner id s = find_one (λ w. w.owner_id == owner && w.id == id) s.workspaces

  -- `findWorkspaceUser({ memberId, deactivated: false })`
  abbrev pub find_active_member : Uuid → Store World → Option WorkspaceUser
  find_active_member member_id s = find_one (is_active_member member_id) s.members

  -- `deactivateWorkspaceUser` and `updateWorkspaceUser(id, { deactivated: false })`
  abbrev pub set_deactivated : (WorkspaceUser → Bool) → Bool → Action (Store World) (Unit {0})
  set_deactivated p b =
      modify λ s. record s { members = update p (λ m. record m { deactivated = b }) s.members }

  abbrev pub get_team_by_id : Uuid → Store World → Option WorkspaceTeam
  get_team_by_id id s = find_one (λ t. t.id == id) s.teams

  -- `getTeamMembersCount`: the test is on the identifier of the row, not on its team
  abbrev pub get_team_members_count : Uuid → Store World → ℕ
  get_team_members_count team_id s = count (λ t. t.id == team_id) s.team_users

  abbrev pub get_teams_in_workspace_count : Uuid → Store World → ℕ
  get_teams_in_workspace_count workspace_id s = count (λ t. t.workspace_id == workspace_id) s.teams

  abbrev pub create_team_row : WorkspaceTeam → Action (Store World) (Unit {0})
  create_team_row team = modify λ s. record s { teams = create team s.teams }

  abbrev pub update_team_name : Uuid → String → Action (Store World) (Unit {0})
  update_team_name team_id name = modify λ s. record s {
    teams = update (λ t. t.id == team_id) (λ t. record t { name = name }) s.teams;
  }

  -- The foreign key of the members of teams deletes with the team.
  abbrev pub delete_team_by_id : Uuid → Action (Store World) (Unit {0})
  delete_team_by_id team_id = modify λ s. record s {
    teams = destroy (λ t. t.id == team_id) s.teams;
    team_users = destroy (λ r. r.team_id == team_id) s.team_users;
  }

  -- `getTeamsWhereUserIsManagerByWorkspaceId`
  abbrev pub get_managed_teams : Uuid → Uuid → Store World → List WorkspaceTeam
  get_managed_teams workspace_id user s =
      find_all (λ t. t.workspace_id == workspace_id && t.manager_id == user) s.teams

  -- `getTeamsUserBelongsTo`: the rows of the user joined with the teams of the workspace
  abbrev pub get_teams_user_belongs_to : Uuid → Uuid → Store World → List WorkspaceTeam
  get_teams_user_belongs_to member_id workspace_id s =
      teams_of_rows workspace_id s.teams (find_all (λ r. r.member_id == member_id) s.team_users)

  -- `updateItemBy({ createdBy, workspaceId }, { createdBy })`
  abbrev pub update_items_creator : Uuid → Uuid → Uuid → Action (Store World) (Unit {0})
  update_items_creator created_by workspace_id creator = modify λ s. record s {
    items =
        update (λ i. i.created_by == created_by && i.workspace_id == workspace_id)
          (λ i. record i { created_by = creator }) s.items;
  }
