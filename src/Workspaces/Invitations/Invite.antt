-- ===== src/Workspaces/Invitations/Invite.antt =====
-- `inviteUserToWorkspace`: one invitation for each user, within the seats and the owner's space.
use drive_server_wip.Prelude.{
  ◌<◌, inl, inr, ◌≡◌, sym, ap, refl, Bool, true, false, Option, some, none, arith, ==_self, ◌==◌,
}
use drive_server_wip.Prelude.Int.{ℤ}
use drive_server_wip.Prelude.Table.{create, destroy, count, count-create, count_of_find_none}
use drive_server_wip.Prelude.Outcome.{Exception, ok, err}
use drive_server_wip.Prelude.Outcome.Steps.{
  value-of_eq, state-of_eq, bind-then, returns-then, gets-then, throw-ne-ok, or_throw-then,
  throw_if-then, catch-eq-ok,
}
use drive_server_wip.Prelude.Outcome.Reads.{Reads-then}
use drive_server_wip.Workspaces.Store.{
  Uuid, WorkspaceInvite, Workspace, User, Store, Services, has_no_seat_left,
}
use drive_server_wip.Workspaces.Repository.{
  find_workspace, find_invite_to, get_workspace_users_count,
}
use drive_server_wip.Workspaces.Storage.Reads.{
  is_workspace_full-Reads, is_workspace_full-eq, get_owner_available_space-Reads,
}
use drive_server_wip.Prelude.Table.{destroy-create}
use drive_server_wip.Prelude.Outcome.Reads.{Reads, reads_rules}
use drive_server_wip.Prelude.Outcome.Atomic.{bind-err, Reads-err, returns-err, catch-err}
use drive_server_wip.Prelude.Int.{◌≤ℤ◌, ltb_ℤ}
use drive_server_wip.Prelude.Outcome.Reads.{Reads}
use drive_server_wip.Workspaces.Repository.{is_invite_to}
use drive_server_wip.Workspaces.Storage.{get_owner_available_space}
use drive_server_wip.Workspaces.Storage.Reads.{get_workspace_fixed_storage_per_user-Reads}
use drive_server_wip.Workspaces.Invitations.{
  CreateInvite, notify, check_invitation, space_to_assign, invite_user_to_workspace,
}

module _ (services : Services) where
  open services use {World}

  space_to_assign-Reads : (w : Workspace) (o : Option ℤ) → Reads (space_to_assign services w o)
  unfolding space_to_assign
  space_to_assign-Reads w none = get_workspace_fixed_storage_per_user-Reads services w
  space_to_assign-Reads w (some x) = search reads_rules

  notify-keeps :
      (b : Bool) (user : User) (id : Uuid) (s : Store World) {s' : Store World}
      → notify services b user id s ≡ (ok tt, s')
      → s' ≡ record s { world = s'.world }
  unfolding notify
  notify-keeps true user id s e = elim (catch-eq-ok _ _ {s = s} e) [
    | inl sent ↦ ground arith
    | inr (x, s1, failed, handled) ↦ absurd (throw-ne-ok _ _ s1 handled)
  ]
  notify-keeps false user id s e = elim (catch-eq-ok _ _ {s = s} e) [
    | inl sent ↦ ground arith
    | inr (x, s1, failed, handled) ↦ ground arith
  ]

  check_invitation-Reads : (w : Uuid) (dto : CreateInvite) → Reads (check_invitation services w dto)
  unfolding check_invitation
  check_invitation-Reads w dto =
      search
        (
          reads_rules,
          is_workspace_full-Reads services,
          get_owner_available_space-Reads services,
          space_to_assign-Reads,
        )
        depth 24

  -- What an invitation was checked against.
  check_invitation-checks :
      (w : Uuid) (dto : CreateInvite) (s : Store World) {user : User} {b : Bool} {space : ℤ}
      {s' : Store World}
      → check_invitation services w dto s ≡ (ok (user, b, space), s')
      → (workspace : Workspace) × (left : ℤ) × (s' ≡ s)
        × (find_workspace w s ≡ some workspace)
        × (count (is_invite_to user.uuid w) s.invites ≡ 0)
        × (get_workspace_users_count workspace.id s < workspace.number_of_seats)
        × (get_owner_available_space services workspace s ≡ (ok left, s))
        × (space ≤ℤ left)
  unfolding check_invitation has_no_seat_left
  check_invitation-checks w dto s {user} {b} {space} {s'} e = gets-then _ _ e λ e.
      or_throw-then _ _ _ e λ workspace found e. gets-then _ _ e λ e. gets-then _ _ e λ e.
        or_throw-then _ _ _ e λ joining found_user e. gets-then _ _ e λ e.
          throw_if-then _ _ _ e λ outside e. gets-then _ _ e λ e.
            throw_if-then _ _ _ e λ uninvited e.
              returns-then _ _ (is_workspace_full-eq services workspace) e λ e.
                throw_if-then _ _ _ e λ seat e.
                  Reads-then _ _ (get_owner_available_space-Reads services workspace) e
                    λ left read e.
                      Reads-then _ _ (space_to_assign-Reads workspace dto.space_limit) e
                        λ asked read_space e. throw_if-then _ _ _ e λ fits e.
                          let absent : find_invite_to joining.uuid w s ≡ none =
                            ground (arith, uninvited) in
                          let same : joining ≡ user =
                            ap (λ (r : User × Bool × ℤ). r.0) (value-of_eq e) in
                          let same_space : asked ≡ space =
                            ap (λ (r : User × Bool × ℤ). r.2) (value-of_eq e) in
                          (
                            workspace,
                            left,
                            sym (state-of_eq e),
                            found,
                            rw same at
                                (count_of_find_none (is_invite_to joining.uuid w) s.invites absent),
                            ground (arith, seat),
                            read,
                            rw same_space at (within asked left fits),
                          )
    where
      within : (a l : ℤ) → ltb_ℤ l a ≡ false → a ≤ℤ l
      within a l h = ground arith

  -- An invitation that is made is the only one of its user to the workspace; a seat and enough of the
  -- owner's space were there for it, and the members and the other invitations are as they were.
  pub invite_user_to_workspace-invites :
      (w : Uuid) (dto : CreateInvite) (s : Store World) {invite : WorkspaceInvite}
      {s' : Store World}
      → invite_user_to_workspace services w dto s ≡ (ok invite, s')
      → (workspace : Workspace) × (left : ℤ) × (find_workspace w s ≡ some workspace)
        × (get_workspace_users_count workspace.id s < workspace.number_of_seats)
        × (get_owner_available_space services workspace s ≡ (ok left, s))
        × (invite.space_limit ≤ℤ left)
        × (count (is_invite_to invite.invited_user w) s'.invites ≡ 1)
        × (s'.invites ≡ create invite s.invites)
        × (s'.members ≡ s.members)
  unfolding invite_user_to_workspace
  invite_user_to_workspace-invites w dto s {invite} {s'} e =
      bind-then _ _ e λ (user, b, space) s1 checked e.
        let (workspace, left, same, found, uninvited, seat, read, fits) =
          check_invitation-checks w dto s checked in
        returns-then _ _ refl e λ e. returns-then _ _ refl e λ e.
          bind-then _ _ e λ done s2 notified e.
            let kept = notify-keeps b user _ _ notified in
            let after : s'.invites ≡ create invite s.invites =
              rw (← (value-of_eq e), ← (state-of_eq e), kept, same) refl in
            (
              workspace,
              left,
              found,
              seat,
              read,
              rw (← (value-of_eq e)) fits,
              rw (
                after,
                ← (value-of_eq e),
                count-create (is_invite_to user.uuid w) _ s.invites,
                uninvited,
                ==_self user.uuid,
                ==_self w,
              ),
              after,
              rw (← (state-of_eq e), kept, same),
            )

  -- A call of the mailer that fails.
  notify-fails :
      (b : Bool) (user : User) (id : Uuid) (s : Store World) {x : Exception} {s' : Store World}
      → notify services b user id s ≡ (err x, s')
      → (b ≡ true) × (s'.invites ≡ destroy (λ i. i.id == id) s.invites) × (s'.members ≡ s.members)
  unfolding notify
  notify-fails true user id s e = catch-err _ _ {s = s} e λ y s1 failed handled.
      returns-err _ _ refl handled
        λ e. rw (← (state-of_eq e)) (refl, rw (← (state-of_eq failed)), rw (← (state-of_eq failed)))
  notify-fails false user id s e = catch-err _ _ {s = s} e λ y s1 failed handled. absurd (cc)

  -- An invitation that cannot be made leaves the invitations and the members as they were, also when
  -- it had been written before the mail failed.
  pub invite_user_to_workspace-withdrawn :
      (w : Uuid) (dto : CreateInvite) (s : Store World) {x : Exception} {s' : Store World}
      → count (λ i. i.id == s.next_uuid) s.invites ≡ 0
      → invite_user_to_workspace services w dto s ≡ (err x, s')
      → (s'.invites ≡ s.invites) × (s'.members ≡ s.members)
  unfolding invite_user_to_workspace
  invite_user_to_workspace-withdrawn w dto s {x} {s'} fresh e =
      Reads-err _ _ (check_invitation-Reads w dto) e (λ same. rw same (refl, refl))
        λ (user, b, space) checked e. returns-err _ _ refl e λ e. returns-err _ _ refl e λ e.
          bind-err _ _ e
            (λ failed.
              let (external, withdrawn, kept) = notify-fails b user _ _ failed in
              (rw withdrawn (destroy-create _ _ s.invites fresh (==_self s.next_uuid)), kept))
            λ done s2 notified e. absurd (cc)
