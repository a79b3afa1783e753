-- ===== src/Workspaces/Tests/Storage.antt =====
-- Storage at the workspace of Examples.
use drive_server_wip.Prelude.{◌≡◌, refl, none, arith}
use drive_server_wip.Prelude.Int.{ℤ, pos, ◌+ℤ◌, ◌-ℤ◌, ◌*ℤ◌, abs}
use drive_server_wip.Prelude.Outcome.{◌>>=◌}
use drive_server_wip.Workspaces.Store.{Store, get_used_space}
use drive_server_wip.Workspaces.Storage.{
  direction, get_workspace_network_limit, get_owner_available_space,
  get_assignable_space_in_workspace, adjust_owner_storage, check_adjustment,
  calculate_workspace_limits, add_to_each, update_workspace_limit, check_assigned_space,
  change_user_assigned_space,
}
use drive_server_wip.Workspaces.Storage.Owner.{IsKeyed, assigned}
use drive_server_wip.Workspaces.Storage.Change.{update_workspace_limit-assigned}
use drive_server_wip.Workspaces.Storage.Assign.{change_user_assigned_space-assigned}
use drive_server_wip.Workspaces.Examples.{working, store}

pub store-IsKeyed : IsKeyed store
store-IsKeyed = record { one_membership = λ w m. ground arith; one_row = λ id. ground arith }

-- A plan of 130 bytes: each of the 3 seats gets 43 in place of 33.
abbrev raised_plan : Store (Unit {0})
raised_plan = (update_workspace_limit working 1 (pos 130) none store).1

update_workspace_limit-assigned_example :
    assigned 1 raised_plan ≡ assigned 1 store +ℤ (pos 130 -ℤ pos 100)
unfolding update_workspace_limit calculate_workspace_limits add_to_each adjust_owner_storage
    check_adjustment get_workspace_network_limit ◌>>=◌ ◌+ℤ◌ ◌-ℤ◌ ◌*ℤ◌
update_workspace_limit-assigned_example =
    update_workspace_limit-assigned working 1 (pos 130) (pos 100) none store store-IsKeyed refl refl
      refl

abbrev less_for_member : Store (Unit {0})
less_for_member = (change_user_assigned_space working 1 11 (pos 25) store).1

change_user_assigned_space-assigned_example :
    (assigned 1 less_for_member ≡ assigned 1 store) × (◌≡◌ {A = ℤ} (pos 25) (pos 25))
unfolding change_user_assigned_space check_assigned_space get_assignable_space_in_workspace
    get_owner_available_space direction abs adjust_owner_storage check_adjustment
    get_workspace_network_limit get_used_space ◌>>=◌ ◌+ℤ◌ ◌-ℤ◌
change_user_assigned_space-assigned_example =
    change_user_assigned_space-assigned working 1 11 (pos 25) store store-IsKeyed refl
      (ground arith) refl
