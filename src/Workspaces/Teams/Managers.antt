-- ===== src/Workspaces/Teams/Managers.antt =====
-- The managers of the teams.
use drive_server_wip.Prelude.{
  ◌+◌, ◌≤◌, ◌≡◌, ap, refl, Bool, true, false, Option, some, none, arith, ==_self, ==_iff, ◌==◌,
  if◌then◌else◌, String,
}
use drive_server_wip.Prelude.Table.{
  find_one, count_of_found, update, count, count-create, count-destroy_self, find_one-passes,
  find_one-update,
}
use drive_server_wip.Prelude.Outcome.{Result, ok}
use drive_server_wip.Prelude.Outcome.Steps.{
  value-of_eq, state-of_eq, bind-then, returns-then, known-then, gets-then, or_throw-then,
  throw_if-then,
}
use drive_server_wip.Workspaces.Store.{
  Uuid, Workspace, WorkspaceUser, WorkspaceTeam, User, Store, is_user_manager,
}
use drive_server_wip.Workspaces.Repository.{
  has_member, is_team_member, find_workspace, find_active_member, get_team_by_id,
  get_teams_in_workspace_count,
}
use drive_server_wip.Workspaces.Teams.{
  create_team, replace_manager, remove_member_from_team, change_team_manager, owner, member,
  manager, WorkspaceRole, new_manager, NewManager, change_user_role, set_new_manager,
}
use drive_server_wip.Workspaces.Teams.Rules.{validate-then}

-- Who manages a team after a change of role: a manager who becomes a member gives way to the owner
-- of the workspace in the request, a user who becomes a manager manages it, and no other request
-- changes it.
abbrev pub manager_after : WorkspaceRole → Uuid → Uuid → Uuid → Uuid
manager_after member user old owner_id = if user == old then owner_id else old
manager_after manager user old owner_id = user
manager_after owner user old owner_id = old

abbrev managed_by : NewManager → Uuid → Uuid → Uuid → Uuid
managed_by NewManager.unchanged user old owner_id = old
managed_by NewManager.owner_of_workspace user old owner_id = owner_id
managed_by NewManager.the_user user old owner_id = user

managed_by-new_manager :
    (role : WorkspaceRole) (team : WorkspaceTeam) (user owner_id : Uuid)
    → managed_by (new_manager role (is_user_manager team user)) user team.manager_id owner_id
      ≡ manager_after role user team.manager_id owner_id
unfolding new_manager is_user_manager
managed_by-new_manager role team user owner_id = ground arith

module _ {World : Type 0} where
  -- The row of a team after its manager is written.
  get_team-update :
      (t x m : Uuid) (s : Store World) {team : WorkspaceTeam}
      → get_team_by_id t s ≡ some team
      → x ≡ t
      → find_one
          (λ r. r.id == t)
          (update (λ r. r.id == x) (λ r. record r { manager_id = m }) s.teams)
        ≡ some (record team { manager_id = m })
  get_team-update t x m s {team} found same =
      let passes = find_one-passes _ s.teams found in
      let hit : (team.id == x) ≡ true = ground (arith, passes) in
      rw hit at (
        find_one-update (λ r. r.id == t) (λ r. r.id == x) (λ r. record r { manager_id = m }) s.teams
          (λ r. refl) found)

  replace_manager-manager :
      (t : Uuid) (s : Store World) (team : WorkspaceTeam) (workspace : Workspace) (b : Bool)
      (s1 : Store World)
      → get_team_by_id t s ≡ some team
      → find_workspace team.workspace_id s ≡ some workspace
      → team.id ≡ t
      → replace_manager World team b s ≡ (ok tt, s1)
      → (s1.team_users ≡ s.team_users)
        × (get_team_by_id t s1
            ≡ some (if b then record team { manager_id = workspace.owner_id } else team))
  unfolding replace_manager
  replace_manager-manager t s team workspace true s1 found_team found same e = gets-then _ _ e λ e.
      known-then _ _ _ found e λ e. (
        rw (← (ap (λ (o : Result (Unit {0}) × Store World). o.1.team_users) e)),
        rw (← (ap (λ (o : Result (Unit {0}) × Store World). o.1.teams) e))
            (get_team-update t team.id workspace.owner_id s found_team same),
      )
  replace_manager-manager t s team workspace false s1 found_team found same e = (
    rw (← (ap (λ (o : Result (Unit {0}) × Store World). o.1.team_users) e)),
    rw (← (ap (λ (o : Result (Unit {0}) × Store World). o.1.teams) e)) found_team,
  )

  -- A user who is removed from a team has no row in it any more, and if they managed it the owner of
  -- the workspace does.
  pub remove_member_from_team-removes :
      (t u : Uuid) (s : Store World) {s' : Store World}
      → remove_member_from_team World t u s ≡ (ok tt, s')
      → (team : WorkspaceTeam) × (workspace : Workspace) × (get_team_by_id t s ≡ some team)
        × (find_workspace team.workspace_id s ≡ some workspace)
        × (1 ≤ count (is_team_member u t) s.team_users)
        × (count (is_team_member u t) s'.team_users ≡ 0)
        × (get_team_by_id t s'
            ≡ some (
                if team.manager_id == u
                then record team { manager_id = workspace.owner_id }
                else team))
  unfolding remove_member_from_team
  remove_member_from_team-removes t u s {s'} e =
      validate-then t _ s e λ team workspace found_team found other same e. gets-then _ _ e λ e.
        or_throw-then _ _ _ e λ row there e. bind-then _ _ e λ done s1 replaced e.
          let (users, managed) =
            replace_manager-manager t s team workspace (team.manager_id == u) s1 found_team found
              same replaced in
          (
            team,
            workspace,
            found_team,
            found,
            rw same at (
                count_of_found (is_team_member u team.id) (is_team_member u team.id) s.team_users
                  there (find_one-passes _ s.team_users there)),
            rw (← (ap (λ (o : Result (Unit {0}) × Store World). o.1.team_users) e))
                (count-destroy_self (is_team_member u t) s1.team_users),
            rw (← (ap (λ (o : Result (Unit {0}) × Store World). o.1.teams) e)) managed,
          )

  -- If a change of a team's manager returns, the new manager was in the team before, is an active
  -- member of some workspace, and manages the team afterwards; the members of the teams stay.
  pub change_team_manager-changes :
      (t u : Uuid) (s : Store World) {s' : Store World}
      → change_team_manager World t u s ≡ (ok tt, s')
      → (team : WorkspaceTeam) × (row : WorkspaceUser) × (get_team_by_id t s ≡ some team)
        × (find_active_member u s ≡ some row)
        × (1 ≤ count (is_team_member u t) s.team_users)
        × (get_team_by_id t s' ≡ some (record team { manager_id = u }))
        × (s'.team_users ≡ s.team_users)
  unfolding change_team_manager
  change_team_manager-changes t u s {s'} e =
      validate-then t _ s e λ team workspace found_team found other same e. gets-then _ _ e λ e.
        or_throw-then _ _ _ e λ row active e. gets-then _ _ e λ e.
          or_throw-then _ _ _ e λ team_user there e. (
            team,
            row,
            found_team,
            active,
            rw same at (
                count_of_found (is_team_member u team.id) (is_team_member u team.id) s.team_users
                  there (find_one-passes _ s.team_users there)),
            rw (← (ap (λ (o : Result (Unit {0}) × Store World). o.1.teams) e))
                (get_team-update t team.id u s found_team same),
            rw (← (ap (λ (o : Result (Unit {0}) × Store World). o.1.team_users) e)),
          )

  set_new_manager-manager :
      (t w : Uuid) (s : Store World) (team : WorkspaceTeam) (user : User) (n : NewManager)
      {workspace : Workspace} {s' : Store World}
      → get_team_by_id t s ≡ some team
      → find_workspace w s ≡ some workspace
      → team.id ≡ t
      → set_new_manager World team user w n s ≡ (ok tt, s')
      → (get_team_by_id t s'
          ≡ some (record team {
            manager_id = managed_by n user.uuid team.manager_id workspace.owner_id;
          }))
        × (s'.team_users ≡ s.team_users)
  unfolding set_new_manager
  set_new_manager-manager t w s team user NewManager.unchanged found_team found same e =
      rw (← (state-of_eq e)) (found_team, refl)
  set_new_manager-manager t w s team user NewManager.owner_of_workspace {workspace} found_team found
        same e =
      gets-then _ _ e λ e. known-then _ _ _ found e λ e.
        rw (← (state-of_eq e))
          (get_team-update t team.id workspace.owner_id s found_team same, refl)
  set_new_manager-manager t w s team user NewManager.the_user found_team found same e =
      rw (← (state-of_eq e)) (get_team-update t team.id user.uuid s found_team same, refl)

  -- After a change of role the team has the manager of `manager_after`, and its members stay.
  pub change_user_role-manager :
      (w t u : Uuid) (role : WorkspaceRole) (s : Store World) {workspace : Workspace}
      {s' : Store World}
      → find_workspace w s ≡ some workspace
      → change_user_role World w t u role s ≡ (ok tt, s')
      → (team : WorkspaceTeam) × (get_team_by_id t s ≡ some team)
        × (1 ≤ count (is_team_member u t) s.team_users)
        × (get_team_by_id t s'
            ≡ some (record team {
              manager_id = manager_after role u team.manager_id workspace.owner_id;
            }))
        × (s'.team_users ≡ s.team_users)
  unfolding change_user_role
  change_user_role-manager w t u role s {workspace} {s'} found e = gets-then _ _ e λ e.
      gets-then _ _ e λ e. or_throw-then _ _ _ e λ team found_team e.
        or_throw-then _ _ _ e λ team_user there e. gets-then _ _ e λ e.
          or_throw-then _ _ _ e λ user found_user e.
            let of_user = find_one-passes _ s.users found_user in
            let of_team_user = find_one-passes _ s.team_users there in
            let same_user : user.uuid ≡ u = ground (arith, of_user, of_team_user) in
            let same : team.id ≡ t = (==_iff _ _).0 (find_one-passes _ s.teams found_team) in
            let (managed, users) =
              set_new_manager-manager t w s team user _ found_team found same e in
            (
              team,
              found_team,
              count_of_found (is_team_member u t) (is_team_member u t) s.team_users there
                  of_team_user,
              rw same_user at
                  (rw (managed_by-new_manager role team user.uuid workspace.owner_id) at managed),
              users,
            )

  -- A new team has at most nine others beside it in its workspace; its manager is a member of that
  -- workspace, and the first member of the team.
  pub create_team-creates :
      (u w : Uuid) (name : String) (chosen : Option Uuid) (s : Store World) {team : WorkspaceTeam}
      {s' : Store World}
      → create_team World u w name chosen s ≡ (ok team, s')
      → (get_teams_in_workspace_count w s' ≤ 10)
        × (get_teams_in_workspace_count w s' ≡ get_teams_in_workspace_count w s + 1)
        × (1 ≤ count (has_member w team.manager_id) s'.members)
        × (1 ≤ count (is_team_member team.manager_id team.id) s'.team_users)
        × (team.manager_id ≡ elim chosen [ none ↦ u | some m ↦ m ])
  unfolding create_team
  create_team-creates u w name chosen s {team} {s'} e = gets-then _ _ e λ e.
      or_throw-then _ _ _ e λ workspace found e. gets-then _ _ e λ e.
        throw_if-then _ _ _ e λ room e. gets-then _ _ e λ e. or_throw-then _ _ _ e λ row there e.
          returns-then _ _ refl e λ e. returns-then _ _ refl e λ e. returns-then _ _ refl e λ e.
            let passes = find_one-passes _ s.workspaces found in
            let at_w : workspace.id ≡ w = ground (arith, passes) in
            rw (← (value-of_eq e), ← (state-of_eq e))
              (
                rw (count-create (λ t. t.workspace_id == w) _ s.teams, ==_self w)
                    (ground (arith, room)),
                rw (count-create (λ t. t.workspace_id == w) _ s.teams, ==_self w),
                rw at_w at (
                    count_of_found (has_member workspace.id _) (has_member workspace.id _) s.members
                      there (find_one-passes _ s.members there)),
                rw
                    (
                      count-create (is_team_member _ s.next_uuid) _ s.team_users,
                      ==_self s.next_uuid,
                      ==_self (elim chosen [ none ↦ u | some m ↦ m ]),
                    )
                    (omega arith),
                refl,
              )
