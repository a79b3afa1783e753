-- ===== src/Workspaces/Storage/Limits.antt =====
-- `updateWorkspaceLimit`: the loop over the members, and the space assigned after a plan change.
use drive_server_wip.Prelude.{
  ℕ, ◌≤◌, ◌≡◌, refl, ap, ◌∙◌, inl, inr, Option, List, [], ◌∷◌, ◌++◌, arith, Option-cases,
  Bool-cases, ==_self,
}
use mathlib.Core.List.{append_assoc}
use drive_server_wip.Prelude.Int.{ℤ, pos, ◌+ℤ◌, ◌-ℤ◌, ◌*ℤ◌}
use drive_server_wip.Prelude.Table.{find_all, count, update, count-append, update-middle}
use drive_server_wip.Prelude.Outcome.{ok, ◌>>=◌, Result-cases}
use drive_server_wip.Workspaces.Store.{Uuid, Workspace, WorkspaceUser, Store, Services}
use drive_server_wip.Workspaces.Repository.{
  has_id, is_in_workspace, find_user, find_workspace_users, get_workspace_users_count,
}
use drive_server_wip.Workspaces.Storage.{
  add_to_each, calculate_workspace_limits, get_workspace_network_limit,
}
use drive_server_wip.Workspaces.Storage.Owner.{IsKeyed}

abbrev pub raised : ℤ → WorkspaceUser → WorkspaceUser
raised d m = record m { space_limit = m.space_limit +ℤ d }

-- The rows after the loop of `updateWorkspaceLimit` over `ms`.
abbrev pub each_raised : ℤ → List WorkspaceUser → List WorkspaceUser → List WorkspaceUser
each_raised d [] xs = xs
each_raised d (m ∷ ms) xs = each_raised d ms (update (has_id m.id) (λ _. raised d m) xs)

-- A row with its identifier leaves no other.
alone :
    (y : WorkspaceUser) (xs ys : List WorkspaceUser)
    → count (has_id y.id) (xs ++ y ∷ ys) ≤ 1
    → (count (has_id y.id) xs ≡ 0) × (count (has_id y.id) ys ≡ 0)
alone y xs ys h = ground (arith, count-append (has_id y.id) xs (y ∷ ys), ==_self y.id)

-- Writing one row with its identifier kept keeps the count of each identifier.
count-raised :
    (d : ℤ) (id : Uuid) (xs : List WorkspaceUser) (y : WorkspaceUser) (ys : List WorkspaceUser)
    → count (has_id id) ((xs ++ raised d y ∷ []) ++ ys) ≡ count (has_id id) (xs ++ y ∷ ys)
count-raised d id xs y ys = rw (append_assoc xs (raised d y ∷ []) ys) (
    omega
      (arith, count-append (has_id id) xs (y ∷ ys), count-append (has_id id) xs (raised d y ∷ ys)))

count-regrouped :
    (id : Uuid) (xs : List WorkspaceUser) (y : WorkspaceUser) (ys : List WorkspaceUser)
    → count (has_id id) ((xs ++ y ∷ []) ++ ys) ≡ count (has_id id) (xs ++ y ∷ ys)
count-regrouped id xs y ys = ap (count (has_id id)) (append_assoc xs (y ∷ []) ys)

-- With distinct identifiers the loop raises each row of the workspace once.
each_raised-append :
    (w : Uuid) (d : ℤ) (xs ys : List WorkspaceUser)
    → ((id : Uuid) → count (has_id id) (xs ++ ys) ≤ 1)
    → each_raised d (find_all (is_in_workspace w) ys) (xs ++ ys)
      ≡ xs ++ update (is_in_workspace w) (raised d) ys
each_raised-append w d xs [] k = refl
each_raised-append w d xs (y ∷ ys) k =
    let (before, after) = alone y xs ys (k y.id) in
    let changed =
      each_raised-append w d (xs ++ raised d y ∷ []) ys
        (λ id. rw (count-raised d id xs y ys) (k id)) in
    let kept =
      each_raised-append w d (xs ++ y ∷ []) ys (λ id. rw (count-regrouped id xs y ys) (k id)) in
    elim (Bool-cases (is_in_workspace w y)) [
      | inl inside ↦ rw (inside) (
          ap (each_raised d (find_all (is_in_workspace w) ys))
            (update-middle (has_id y.id) (λ _. raised d y) xs y ys before (==_self y.id) after)
          ∙ rw
              (
                append_assoc xs (raised d y ∷ []) ys,
                append_assoc xs (raised d y ∷ []) (update (is_in_workspace w) (raised d) ys),
              )
              at changed)
      | inr outside ↦ rw outside (
          rw
            (
              append_assoc xs (y ∷ []) ys,
              append_assoc xs (y ∷ []) (update (is_in_workspace w) (raised d) ys),
            )
            at kept)
    ]

pub find_users-raised :
    {World : Type 0} (w : Uuid) (d : ℤ) (s : Store World)
    → IsKeyed s
    → each_raised d (find_workspace_users w s) s.members
      ≡ update (is_in_workspace w) (raised d) s.members
find_users-raised w d s k = each_raised-append w d [] s.members k.one_row

module _ (services : Services) where
  open services use {World}

  pub add_to_each-eq :
      (d : ℤ) (ms : List WorkspaceUser) (s : Store World)
      → add_to_each services d ms s ≡ (ok tt, record s { members = each_raised d ms s.members })
  unfolding add_to_each ◌>>=◌
  add_to_each-eq d [] s = refl
  add_to_each-eq d (m ∷ ms) s =
      add_to_each-eq d ms (record s { members = update (has_id m.id) (λ _. raised d m) s.members })

  pub calculate_workspace_limits-eq :
      (workspace : Workspace) (limit : ℤ) (seats : Option ℕ) (s : Store World) {s' : Store World}
      {u d : ℤ}
      → calculate_workspace_limits services workspace limit seats s ≡ (ok (u, d), s')
      → (current : ℤ) × (get_workspace_network_limit services workspace s ≡ (ok current, s))
        × (s' ≡ s)
        × (u ≡ limit -ℤ current -ℤ d *ℤ pos (get_workspace_users_count workspace.id s))
  unfolding calculate_workspace_limits get_workspace_network_limit ◌>>=◌
  calculate_workspace_limits-eq workspace limit seats s {s'} {u} {d} e =
      elim (Option-cases (find_user workspace.workspace_user_id s)) [
        | inl missing ↦ absurd (ground arith)
        | inr (user, found) ↦
            elim (Result-cases (services.get_limit s.world user.bridge_user user.user_id)) [
              | inl (x, failed) ↦ absurd (ground arith)
              | inr (current, limited) ↦ (current, ground arith, ground arith, ground arith)
            ]
      ]
