-- ===== src/Workspaces/Storage.antt =====
-- The storage of a workspace: src/modules/workspaces/workspaces.usecase.ts, the methods that read
-- and move the space limits of its members.
pub mod Reads
pub mod Owner
pub mod Limits
pub mod Change
pub mod Assign
use drive_server_wip.Prelude.{
  ℕ, suc, ◌+◌, ◌-◌, String, Bool, true, false, not, ◌&&◌, Option, none, some, List, [], ◌∷◌, ltb,
  leb, ◌==◌, if◌then◌else◌,
}
use drive_server_wip.Prelude.Int.{ℤ, pos, negsuc, ◌+ℤ◌, ◌-ℤ◌, ◌*ℤ◌, ltb_ℤ, abs}
use drive_server_wip.Prelude.Table.{update}
use drive_server_wip.Prelude.Outcome.{
  Action, Result, ok, err, bad_request, not_found, type_error, pure, throw, gets, or_throw, lift,
  throw_if, modify, ◌>>=◌, ◌>>◌,
}
use drive_server_wip.Workspaces.Store.{
  Uuid, Workspace, WorkspaceUser, User, Store, Services, has_no_seat_left, get_used_space,
}
use drive_server_wip.Workspaces.Repository.{
  find_workspace, find_user, find_workspace_user, find_workspace_users, get_workspace_users_count,
  get_total_space_limit_in_workspace_users, get_total_drive_and_backup_usage,
  get_space_limit_in_invitations, sum_size_of_files, update_workspace_user, update_space_limit,
  call,
}

pub data Behavior : Type 0 where
  deduct add : Behavior

-- The two guards of `adjustOwnerStorage`; only the second reads the owner's row.
unfoldable pub check_adjustment : Behavior → ℤ → ℤ → ℤ → Option WorkspaceUser → Result (Unit {0})
check_adjustment deduct size available limit owner =
    if ltb_ℤ available size
    then err (bad_request "Not enough space available to perform this operation")
    else ok tt
check_adjustment add size available limit none = err type_error
check_adjustment add size available limit (some owner) =
    if ltb_ℤ limit (owner.space_limit +ℤ size)
    then err (bad_request "Not enough space available to perform this operation")
    else ok tt

abbrev pub adjusted : Behavior → ℤ → ℤ → ℤ
adjusted deduct limit size = limit -ℤ size
adjusted add limit size = limit +ℤ size

-- `limitDifference > 0 ? 'DEDUCT' : 'ADD'`
unfoldable pub direction : ℤ → Behavior
direction difference = if ltb_ℤ (pos 0) difference then deduct else add

-- `option ?? fallback`
abbrev pub or_else {ℓ} : {A : Type ℓ} → Option A → A → A
or_else none b = b
or_else (some a) b = a

module _ (services : Services) where
  open services use {World, divide, floor_divide, get_limit, set_storage}

  abbrev Handler : Type 0 → Type 0
  Handler A = Action (Store World) A

  unfoldable pub get_workspace_network_limit : Workspace → Handler ℤ
  get_workspace_network_limit w = do
    user ← gets (find_user w.workspace_user_id)
    u ← or_throw user type_error
    s ← gets (λ s. s)
    lift (get_limit s.world u.bridge_user u.user_id)

  unfoldable pub get_owner_available_space : Workspace → Handler ℤ
  get_owner_available_space w = do
    owner_used_space ← gets (sum_size_of_files w.owner_id w.id)
    found ← gets (find_workspace_user w.id w.owner_id)
    owner ← or_throw found type_error
    pure (owner.space_limit -ℤ owner_used_space)

  unfoldable pub get_assignable_space_in_workspace : Workspace → Handler ℤ
  get_assignable_space_in_workspace w = do
    owner_available_space ← get_owner_available_space w
    total_in_invites ← gets (get_space_limit_in_invitations w.id)
    pure (owner_available_space -ℤ total_in_invites)

  -- `getWorkspaceUsage`: the total, what is assigned, and what is used
  unfoldable pub get_workspace_usage : Workspace → Handler (ℤ × ℤ × ℤ)
  unfolding get_workspace_network_limit
  get_workspace_usage w = do
    space_limit ← get_workspace_network_limit w
    space_assigned ← gets (get_total_space_limit_in_workspace_users w.id)
    space_used ← gets (get_total_drive_and_backup_usage w.id)
    pure (space_limit, space_assigned, space_used)

  unfoldable pub is_workspace_full : Workspace → Handler Bool
  unfolding has_no_seat_left
  is_workspace_full w = do
    workspace_users_count ← gets (get_workspace_users_count w.id)
    pure (has_no_seat_left w workspace_users_count)

  unfoldable pub get_workspace_fixed_storage_per_user : Workspace → Handler ℤ
  unfolding get_workspace_network_limit
  get_workspace_fixed_storage_per_user w = do
    total ← get_workspace_network_limit w
    pure (floor_divide total w.number_of_seats)

  unfoldable pub adjust_owner_storage : Uuid → ℤ → Behavior → Handler (Unit {0})
  unfolding check_adjustment get_workspace_network_limit
  adjust_owner_storage workspace_id size behavior = do
    found ← gets (find_workspace workspace_id)
    workspace ← or_throw found (not_found "Workspace not found")
    found_owner ← gets (find_workspace_user workspace_id workspace.owner_id)
    limit ← get_workspace_network_limit workspace
    owner_usage ← gets (sum_size_of_files workspace.owner_id workspace.id)
    lift (check_adjustment behavior size (limit -ℤ owner_usage) limit found_owner)
    owner ← or_throw found_owner type_error
    update_space_limit workspace_id workspace.owner_id (adjusted behavior owner.space_limit size)

  -- `calculateWorkspaceLimits`: the unused space and the change for each member
  unfoldable pub calculate_workspace_limits : Workspace → ℤ → Option ℕ → Handler (ℤ × ℤ)
  unfolding get_workspace_network_limit
  calculate_workspace_limits w new_limit new_seats = do
    current_limit ← get_workspace_network_limit w
    let current_per_user = divide current_limit w.number_of_seats
    let new_per_user = divide new_limit (or_else new_seats w.number_of_seats)
    let space_difference = new_per_user -ℤ current_per_user
    member_count ← gets (get_workspace_users_count w.id)
    pure (new_limit -ℤ current_limit -ℤ space_difference *ℤ pos member_count, space_difference)

  -- `newNumberOfSeats && newNumberOfSeats < memberCount`: 0 seats pass
  abbrev too_few_seats : Option ℕ → ℕ → Bool
  too_few_seats none member_count = false
  too_few_seats (some n) member_count = ltb 0 n && ltb n member_count

  unfoldable pub validate_storage_for_plan_change : Workspace → ℤ → Option ℕ → Handler (Unit {0})
  validate_storage_for_plan_change w new_limit new_seats = do
    member_count ← gets (get_workspace_users_count w.id)
    throw_if (too_few_seats new_seats member_count) (
        bad_request
          "Number of seats must be equal or superior to the number of users in the workspace")
    owner_available_space ← get_owner_available_space w
    (unused_space, space_difference) ← calculate_workspace_limits w new_limit new_seats
    throw_if (ltb_ℤ (owner_available_space +ℤ unused_space +ℤ space_difference) (pos 0))
        (bad_request "Insufficient space to update workspace")

  -- The loop of `updateWorkspaceLimit` over the members that were read before it.
  unfoldable pub add_to_each : ℤ → List WorkspaceUser → Handler (Unit {0})
  add_to_each difference [] = pure tt
  add_to_each difference (m ∷ ms) = do
    update_workspace_user m.id (record m { space_limit = m.space_limit +ℤ difference })
    add_to_each difference ms

  unfoldable pub update_workspace_limit : Uuid → ℤ → Option ℕ → Handler (Unit {0})
  update_workspace_limit workspace_id new_limit new_seats = do
    found ← gets (find_workspace workspace_id)
    workspace ← or_throw found (not_found "Workspace does not exist")
    found_user ← gets (find_user workspace.workspace_user_id)
    (unused_space, space_difference) ← calculate_workspace_limits workspace new_limit new_seats
    workspace_users ← gets (find_workspace_users workspace_id)
    add_to_each space_difference workspace_users
    user ← or_throw found_user type_error
    call (set_storage user.email new_limit)
    adjust_owner_storage workspace_id unused_space add

  unfoldable pub update_workspace_member_count : Uuid → ℕ → Handler (Unit {0})
  update_workspace_member_count workspace_id new_member_count = do
    throw_if (ltb new_member_count 1) (bad_request "Member count must be at least 1")
    found ← gets (find_workspace workspace_id)
    or_throw found (not_found "Workspace does not exist")
    modify λ s. record s {
      workspaces =
          update (λ w. w.id == workspace_id) (λ w. record w { number_of_seats = new_member_count })
            s.workspaces;
    }

  -- The reads and the checks of `changeUserAssignedSpace`, which give the member's row.
  unfoldable pub check_assigned_space : Uuid → Uuid → ℤ → Handler WorkspaceUser
  unfolding get_used_space
  check_assigned_space workspace_id member_id new_space_limit = do
    found ← gets (find_workspace workspace_id)
    workspace ← or_throw found (not_found "Workspace does not exist")
    found_member ← gets (find_workspace_user workspace_id member_id)
    member ← or_throw found_member (bad_request "Member does not exist in this workspace")
    space_left ← get_assignable_space_in_workspace workspace
    throw_if (ltb_ℤ (space_left +ℤ member.space_limit) new_space_limit) (
        bad_request "Space limit set for the user is superior to the space assignable in workspace")
    throw_if (not (ltb_ℤ (get_used_space member) new_space_limit)) (
        bad_request
          "The space you are trying to assign to the user is less than the user already used space")
    workspace_limit ← get_workspace_network_limit workspace
    throw_if (ltb_ℤ (divide workspace_limit workspace.number_of_seats) new_space_limit) (
        bad_request
          "Space limit set for the user is superior to the space assignable per user in workspace")
    pure member

  unfoldable pub change_user_assigned_space : Uuid → Uuid → ℤ → Handler WorkspaceUser
  change_user_assigned_space workspace_id member_id new_space_limit = do
    member ← check_assigned_space workspace_id member_id new_space_limit
    let limit_difference = new_space_limit -ℤ member.space_limit
    adjust_owner_storage workspace_id (abs limit_difference) (direction limit_difference)
    update_workspace_user member.id (record member { space_limit = new_space_limit })
    pure (record member { space_limit = new_space_limit })

  -- `getUserUsageInWorkspace`: drive usage, backups usage and space limit
  unfoldable pub get_user_usage_in_workspace : Uuid → Uuid → Handler (ℤ × ℤ × ℤ)
  get_user_usage_in_workspace user workspace_id = do
    found ← gets (find_workspace_user workspace_id user)
    member ← or_throw found (bad_request "User not valid")
    sync_started_at ← gets (λ s. s.now)
    total_used_drive ← gets (sum_size_of_files user workspace_id)
    modify λ s. record s {
      members =
          update (λ m. m.id == member.id)
            (λ m. record m {
              drive_usage = total_used_drive;
              last_usage_sync_at = some sync_started_at;
            })
            s.members;
    }
    pure (total_used_drive, member.backups_usage, member.space_limit)
