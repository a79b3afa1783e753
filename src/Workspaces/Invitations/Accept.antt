-- ===== src/Workspaces/Invitations/Accept.antt =====
-- `acceptWorkspaceInvite`: the new member's space comes out of the owner's.
use drive_server_wip.Prelude.{
  ◌+◌, ◌≤◌, ◌<◌, inl, inr, ◌≡◌, ◌∙◌, ap, refl, true, some, none, arith, ==_self, ◌==◌,
}
use drive_server_wip.Prelude.Int.{◌+ℤ◌, ◌-ℤ◌, +ℤ_cancel}
use drive_server_wip.Prelude.Table.{
  create, destroy, count, count-create, count-destroy_self, count_of_find_none, find_one-passes,
}
use drive_server_wip.Prelude.Sum.{sum_by, sum-create}
use drive_server_wip.Prelude.Outcome.{ok}
use drive_server_wip.Prelude.Outcome.Steps.{
  gets-run, known-run, bind-then, returns-then, gets-then, throw-ne-ok, or_throw-then,
  throw_if-then, catch-eq-ok,
}
use drive_server_wip.Prelude.Outcome.Reads.{Reads-then}
use drive_server_wip.Workspaces.Store.{
  Uuid, Workspace, WorkspaceUser, WorkspaceInvite, User, Store, Services, has_no_seat_left,
}
use drive_server_wip.Workspaces.Repository.{
  has_member, is_in_workspace, find_ready_workspace, find_workspace_user, find_invite_for,
  get_workspace_users_count,
}
use drive_server_wip.Workspaces.Storage.{deduct, adjust_owner_storage}
use drive_server_wip.Workspaces.Storage.Reads.{
  is_workspace_full-eq, get_owner_available_space-Reads,
}
use drive_server_wip.Workspaces.Storage.Owner.{
  OneMembership, OneMembership-create, assigned, adjust_owner_storage-keeps,
  adjust_owner_storage-assigned,
}
use drive_server_wip.Workspaces.Invitations.{
  initiate_workspace_personal_root_folder, admit, join_workspace, accept_invite_of,
  accept_workspace_invite,
}

module _ (services : Services) where
  open services use {World}

  initiate_workspace_personal_root_folder-world :
      (u r : Uuid) (s : Store World) {folder : Uuid} {s' : Store World}
      → initiate_workspace_personal_root_folder services u r s ≡ (ok folder, s')
      → s' ≡ record s { world = s'.world }
  unfolding initiate_workspace_personal_root_folder
  initiate_workspace_personal_root_folder-world u r s e =
      gets-then _ _ e λ e. or_throw-then _ _ _ e λ network_user found e. ground arith

  -- What `admit` has written when it adjusts the owner's storage.
  admit-steps :
      (user : User) (invite : WorkspaceInvite) (workspace : Workspace) (s : Store World)
      {row : WorkspaceUser} {s' : Store World}
      → admit services user invite workspace s ≡ (ok row, s')
      → (s1 : Store World) × (adjust_owner_storage services workspace.id invite.space_limit deduct
            s1
          ≡ (ok tt, s'))
        × (s1.members ≡ create row s.members)
        × (s1.invites ≡ destroy (λ i. i.id == invite.id) s.invites)
        × (row.space_limit ≡ invite.space_limit)
        × (row.workspace_id ≡ invite.workspace_id)
        × (row.member_id ≡ invite.invited_user)
  unfolding admit
  admit-steps user invite workspace s {row} {s'} e = bind-then _ _ e λ folder s1 initiated e.
      returns-then _ _ refl e λ e. returns-then _ _ refl e λ e. returns-then _ _ refl e λ e.
        returns-then _ _ refl e λ e. returns-then _ _ refl e λ e.
          bind-then _ _ e λ done s2 adjusted e.
            let world : s1 ≡ record s { world = s1.world } =
              initiate_workspace_personal_root_folder-world _ _ s initiated in
            let final : s2 ≡ s' = ground arith in
            (
              _,
              rw final at adjusted,
              ground (arith, world),
              ground (arith, world),
              ground arith,
              ground arith,
              ground arith,
            )

  -- A user who joins found a seat and space for them.
  join_workspace-steps :
      (user : User) (invite : WorkspaceInvite) (workspace : Workspace) (s : Store World)
      {row : WorkspaceUser} {s' : Store World}
      → join_workspace services user invite workspace s ≡ (ok row, s')
      → (get_workspace_users_count workspace.id s < workspace.number_of_seats)
        × (admit services user invite workspace s ≡ (ok row, s'))
  unfolding join_workspace has_no_seat_left
  join_workspace-steps user invite workspace s {row} {s'} e =
      returns-then _ _ (is_workspace_full-eq services workspace) e λ e.
        throw_if-then _ _ _ e λ seat e.
          Reads-then _ _ (get_owner_available_space-Reads services workspace) e λ left read e.
            throw_if-then _ _ _ e λ space e. elim (catch-eq-ok _ _ {s = s} e) [
              | inl admitted ↦ (ground arith, admitted)
              | inr (x, s1, failed, handled) ↦ absurd (throw-ne-ok _ _ s1 handled)
            ]

  -- The rows after the new member's limit has been taken from the owner's.
  admit-assigned :
      (user : User) (invite : WorkspaceInvite) (workspace : Workspace) (s : Store World)
      {row : WorkspaceUser} {s' : Store World}
      → OneMembership s
      → invite.workspace_id ≡ workspace.id
      → invite.invited_user ≡ user.uuid
      → count (has_member workspace.id user.uuid) s.members ≡ 0
      → admit services user invite workspace s ≡ (ok row, s')
      → (assigned workspace.id s' ≡ assigned workspace.id s)
        × (row.space_limit ≡ invite.space_limit)
        × (get_workspace_users_count workspace.id s' ≡ get_workspace_users_count workspace.id s + 1)
        × (count (has_member workspace.id user.uuid) s'.members ≡ 1)
        × (count (λ i. i.id == invite.id) s'.invites ≡ 0)
  admit-assigned user invite workspace s {row} {s'} one at_w at_u absent e =
      let (s1, adjust, members, invites, space, row_w, row_u) =
        admit-steps user invite workspace s e in
      let in_w : row.workspace_id ≡ workspace.id = row_w ∙ at_w in
      let in_u : row.member_id ≡ user.uuid = row_u ∙ at_u in
      let one1 : OneMembership s1 =
        λ w m. rw members (OneMembership-create row s.members one (rw (in_w, in_u) absent) w m) in
      let (same_members, same_users, same_invites, rest) =
        adjust_owner_storage-keeps services workspace.id _ deduct s1 adjust in
      let moved =
        adjust_owner_storage-assigned services workspace.id invite.space_limit deduct s1 one1
          adjust in
      let inside : is_in_workspace workspace.id row ≡ true = rw in_w (==_self workspace.id) in
      let here : has_member workspace.id user.uuid row ≡ true =
        rw (in_w, in_u, ==_self workspace.id, ==_self user.uuid) in
      let sums =
        sum-create (λ m. m.space_limit) (is_in_workspace workspace.id) row s.members inside in
      (
        moved
            ∙ ap (λ a. a -ℤ invite.space_limit)
                (ap (sum_by (λ m. m.space_limit) (is_in_workspace workspace.id)) members
                  ∙ sums
                  ∙ ap (λ a. assigned workspace.id s +ℤ a) space)
            ∙ +ℤ_cancel _ _,
        space,
        rw (same_users, members, count-create (is_in_workspace workspace.id) row s.members, inside),
        rw (
          same_members,
          members,
          count-create (has_member workspace.id user.uuid) row s.members,
          here,
          absent,
        ),
        rw (same_invites, invites) (count-destroy_self _ s.invites),
      )

  -- For a user who is not a member, accepting an invitation is joining.
  pub accept_workspace_invite-joins :
      (user : User) (id : Uuid) (s : Store World) {invite : WorkspaceInvite} {workspace : Workspace}
      → find_invite_for id user.uuid s ≡ some invite
      → find_ready_workspace invite.workspace_id s ≡ some workspace
      → find_workspace_user workspace.id user.uuid s ≡ none
      → accept_workspace_invite services user id s ≡ join_workspace services user invite workspace s
  unfolding accept_workspace_invite accept_invite_of
  accept_workspace_invite-joins user id s found_invite found absent =
      gets-run _ _ s
      ∙ known-run _ _ _ s found_invite
      ∙ gets-run _ _ s
      ∙ known-run _ _ _ s found
      ∙ gets-run _ _ s
      ∙ rw absent

  -- If no user has two memberships, and a user who is not a member accepts an invitation with
  -- success, the sum of the members' limits stays what it was, the user's row has the space of the
  -- invitation, the members are one more and no more than the seats, the user is a member once, and
  -- no invitation with that identifier is left.
  pub accept_workspace_invite-assigned :
      (user : User) (id : Uuid) (s : Store World) {invite : WorkspaceInvite} {workspace : Workspace}
      {row : WorkspaceUser} {s' : Store World}
      → OneMembership s
      → find_invite_for id user.uuid s ≡ some invite
      → find_ready_workspace invite.workspace_id s ≡ some workspace
      → find_workspace_user workspace.id user.uuid s ≡ none
      → accept_workspace_invite services user id s ≡ (ok row, s')
      → (assigned workspace.id s' ≡ assigned workspace.id s)
        × (row.space_limit ≡ invite.space_limit)
        × (get_workspace_users_count workspace.id s' ≡ get_workspace_users_count workspace.id s + 1)
        × (get_workspace_users_count workspace.id s' ≤ workspace.number_of_seats)
        × (count (has_member workspace.id user.uuid) s'.members ≡ 1)
        × (count (λ i. i.id == id) s'.invites ≡ 0)
  accept_workspace_invite-assigned user id s {invite} {workspace} {row} {s'} one found_invite found
        absent e =
      let joined = rw (accept_workspace_invite-joins user id s found_invite found absent) at e in
      let (seat, admitted) = join_workspace-steps user invite workspace s joined in
      let of_invite = find_one-passes _ s.invites found_invite in
      let of_workspace = find_one-passes _ s.workspaces found in
      let same_id : invite.id ≡ id = ground (arith, of_invite) in
      let (same, space, users, one_member, gone) =
        admit-assigned user invite workspace s one (ground (arith, of_workspace))
          (ground (arith, of_invite)) (count_of_find_none _ s.members absent) admitted in
      (same, space, users, omega (arith, users), one_member, rw same_id at gone)
