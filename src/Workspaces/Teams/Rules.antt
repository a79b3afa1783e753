-- ===== src/Workspaces/Teams/Rules.antt =====
-- What the team operations do to the teams and to their members.
use drive_server_wip.Prelude.{
  suc, ◌+◌, ◌≡◌, ◌∙◌, ap, false, ◌&&◌, some, none, arith, ==_self, ==_iff, ◌==◌, if◌then◌else◌,
}
use drive_server_wip.Prelude.Table.{
  create, count, count-create, count_of_find_none, find_one-passes,
}
use drive_server_wip.Prelude.Outcome.{Result, ok, ◌>>=◌}
use drive_server_wip.Prelude.Outcome.Steps.{
  bind-of_ok, bind-then, gets-then, or_throw-then, throw_if-then,
}
use drive_server_wip.Workspaces.Store.{
  Uuid, Workspace, WorkspaceUser, WorkspaceTeam, Store, is_default_team,
}
use drive_server_wip.Workspaces.Repository.{
  is_team_member, find_workspace, find_active_member, get_team_by_id, get_team_user,
}
use drive_server_wip.Workspaces.Teams.{
  get_and_validate_non_default_team_workspace, add_member_to_team,
}

module _ {World : Type 0} where
  -- The check that a team is not the default one passes.
  validate-returns :
      (t : Uuid) (s : Store World) {team : WorkspaceTeam} {workspace : Workspace}
      → get_team_by_id t s ≡ some team
      → find_workspace team.workspace_id s ≡ some workspace
      → is_default_team workspace team ≡ false
      → get_and_validate_non_default_team_workspace World t s ≡ (ok (team, workspace), s)
  unfolding get_and_validate_non_default_team_workspace ◌>>=◌
  validate-returns t s found_team found other = ground arith

  pub validate-then :
      {A C : Type 0} (t : Uuid)
      (f : WorkspaceTeam × Workspace → Store World → Result A × Store World) (s : Store World)
      {a : A} {s' : Store World}
      → (get_and_validate_non_default_team_workspace World t >>= f) s ≡ (ok a, s')
      → ((team : WorkspaceTeam) (workspace : Workspace)
          → get_team_by_id t s ≡ some team
          → find_workspace team.workspace_id s ≡ some workspace
          → is_default_team workspace team ≡ false
          → team.id ≡ t
          → f (team, workspace) s ≡ (ok a, s')
          → C)
      → C
  unfolding get_and_validate_non_default_team_workspace
  validate-then t f s e k = bind-then _ _ e λ (team, workspace) s1 validated e.
      gets-then _ _ validated λ v. or_throw-then _ _ _ v λ team' found_team v. gets-then _ _ v λ v.
        or_throw-then _ _ _ v λ workspace' found v. throw_if-then _ _ _ v λ other v.
          k team' workspace' found_team found other
            ((==_iff _ _).0 (find_one-passes _ s.teams found_team)) (ground arith)

  -- A user who is added to a team was not in it, and is in it once; no other team changes, and none
  -- loses a member.
  pub add_member_to_team-adds :
      (t u : Uuid) (s : Store World) {s' : Store World}
      → add_member_to_team World t u s ≡ (ok tt, s')
      → (count (is_team_member u t) s.team_users ≡ 0)
        × ((v m : Uuid)
            → count (is_team_member m v) s'.team_users
              ≡ count (is_team_member m v) s.team_users + (if u == m && t == v then 1 else 0))
        × (s'.teams ≡ s.teams)
        × (s'.members ≡ s.members)
  unfolding add_member_to_team
  add_member_to_team-adds t u s {s'} e =
      validate-then t _ s e λ team workspace found_team found other same e. gets-then _ _ e λ e.
        or_throw-then _ _ _ e λ member active e. gets-then _ _ e λ e.
          throw_if-then _ _ _ e λ absent e. gets-then _ _ e λ e. throw_if-then _ _ _ e λ room e.
            let none_there : get_team_user u team.id s ≡ none = ground (arith, absent) in
            (
              count_of_find_none (is_team_member u t) s.team_users (rw same at none_there),
              (λ v m.
                  rw (← (ap (λ (o : Result (Unit {0}) × Store World). o.1.team_users) e))
                    (count-create (is_team_member m v) _ s.team_users)),
              rw (← (ap (λ (o : Result (Unit {0}) × Store World). o.1.teams) e)),
              rw (← (ap (λ (o : Result (Unit {0}) × Store World). o.1.members) e)),
            )

  -- The limit on the members of a team is not applied, and the membership may be in another workspace:
  -- whatever the number of its members, a user who is active in some workspace and is not in the team
  -- is added to it, if no row of a team member has the team's identifier for its own.
  pub add_member_to_team-unbounded :
      (t u : Uuid) (s : Store World) {team : WorkspaceTeam} {workspace : Workspace}
      {row : WorkspaceUser}
      → get_team_by_id t s ≡ some team
      → find_workspace team.workspace_id s ≡ some workspace
      → is_default_team workspace team ≡ false
      → find_active_member u s ≡ some row
      → get_team_user u t s ≡ none
      → count (λ r. r.id == t) s.team_users ≡ 0
      → (s' : Store World) × (add_member_to_team World t u s ≡ (ok tt, s'))
        × (count (λ r. r.team_id == t) s'.team_users ≡ count (λ r. r.team_id == t) s.team_users + 1)
  unfolding add_member_to_team
  add_member_to_team-unbounded t u s {team} {workspace} {row} found_team found other active absent
        unlimited =
      let same : team.id ≡ t = (==_iff _ _).0 (find_one-passes _ s.teams found_team) in
      let outside : get_team_user u team.id s ≡ none = rw same absent in
      (
        record s {
          team_users =
              create (record { id = s.next_uuid; team_id = t; member_id = u }) s.team_users;
          next_uuid = suc s.next_uuid;
        },
        bind-of_ok _ _ (validate-returns t s found_team found other)
            ∙ unfold ◌>>=◌ in rw (active, outside, unlimited),
        rw (
          count-create (λ r. r.team_id == t)
              (record { id = s.next_uuid; team_id = t; member_id = u }) s.team_users,
          ==_self t,
        ),
      )
