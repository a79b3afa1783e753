-- ===== src/Folders/Orphans.antt =====
-- Folders whose parent is no folder of their user: `deleteOrphansFolders` of
-- src/modules/folder/folder.usecase.ts and the procedure of the database that it calls.
use drive_server_wip.Prelude.{
  ℕ, zero, suc, ◌<◌, ◌≡◌, refl, ap, ◌∙◌, Bool, true, false, ◌&&◌, ◌||◌, not, none, List, [], ◌∷◌,
  ◌==◌, arith, inl, inr, ◌⊎◌, is_some, if◌then◌else◌, length, ltb, Bool-cases,
}
use drive_server_wip.Prelude.Table.{count, destroy}
use drive_server_wip.Prelude.Outcome.{ok, pure, ◌>>=◌}
use drive_server_wip.Prelude.Outcome.Steps.{bind-of_ok}
use drive_server_wip.Folders.Store.{Folder, Store, Handler, with_folders, is_key}

-- `parent_id in (select id from folders where user_id = userid)`
abbrev pub is_parent_of : ℕ → Folder → Folder → Bool
is_parent_of user_id f g = g.user_id == user_id && is_key f.parent_id g.id

abbrev pub has_parent : ℕ → List Folder → Folder → Bool
has_parent user_id [] f = false
has_parent user_id (g ∷ gs) f = is_parent_of user_id f g || has_parent user_id gs f

abbrev pub is_orphan : ℕ → List Folder → Folder → Bool
is_orphan user_id fs f =
    is_some f.parent_id && not (has_parent user_id fs f) && f.user_id == user_id

abbrev pub without_orphans : ℕ → List Folder → List Folder
without_orphans user_id fs = destroy (is_orphan user_id fs) fs

abbrev pub count_orphans : ℕ → List Folder → ℕ
count_orphans user_id fs = count (is_orphan user_id fs) fs

-- `clear_orphan_folders_by_user`
unfoldable pub clear_orphans_folders : ℕ → Handler ℕ
clear_orphans_folders user_id s = (
  ok (count_orphans user_id (without_orphans user_id s.folders)),
  with_folders (without_orphans user_id s.folders) s,
)

-- What the recursion gives: `undefined` after a recursive call, and no result at all without fuel.
pub data Reply : Type 0 where
  number : ℕ → Reply
  undefined no_fuel : Reply

abbrev pub after_call : Reply → Reply
after_call (number n) = undefined
after_call undefined = undefined
after_call no_fuel = no_fuel

unfoldable pub delete_orphans_folders : ℕ → ℕ → Handler Reply
delete_orphans_folders zero user_id = pure no_fuel
delete_orphans_folders (suc fuel) user_id = clear_orphans_folders user_id >>= λ remaining_folders.
    let call = delete_orphans_folders fuel user_id >>= λ reply. pure (after_call reply) in
    if ltb 0 remaining_folders then call else pure (number remaining_folders)

-- A folder in a list.
pub data IsIn (f : Folder) : List Folder → Type 0 where
  first : {fs : List Folder} → IsIn f (f ∷ fs)
  later : {g : Folder} {fs : List Folder} → IsIn f fs → IsIn f (g ∷ fs)

-- A folder from which the user's folders lead up to one without a parent.
pub data IsAnchored (user_id : ℕ) (fs : List Folder) : Folder → Type 0 where
  top : {f : Folder} → IsIn f fs → f.parent_id ≡ none → IsAnchored user_id fs f
  under :
      {f g : Folder}
      → IsIn f fs
      → IsIn g fs
      → is_parent_of user_id f g ≡ true
      → IsAnchored user_id fs g
      → IsAnchored user_id fs f

IsIn-parent :
    (user_id : ℕ) (fs : List Folder) (f : Folder) {g : Folder}
    → IsIn g fs
    → is_parent_of user_id f g ≡ true
    → has_parent user_id fs f ≡ true
IsIn-parent user_id [] f there e = elim there [ ]
IsIn-parent user_id (g ∷ fs) f first e = rw e refl
IsIn-parent user_id (h ∷ fs) f (later there) e = ground (arith, IsIn-parent user_id fs f there e)

IsIn-destroy :
    (p : Folder → Bool) (fs : List Folder) {f : Folder}
    → IsIn f fs
    → p f ≡ false
    → IsIn f (destroy p fs)
IsIn-destroy p [] there e = elim there [ ]
IsIn-destroy p (f ∷ fs) first e = rw e first
IsIn-destroy p (g ∷ fs) (later there) e = elim (Bool-cases (p g)) [
  | inl gone ↦ rw gone (IsIn-destroy p fs there e)
  | inr kept ↦ rw kept (later (IsIn-destroy p fs there e))
]

IsAnchored-IsIn :
    (user_id : ℕ) (fs : List Folder) {f : Folder}
    → IsAnchored user_id fs f
    → IsIn f (without_orphans user_id fs)
IsAnchored-IsIn user_id fs {f} (top there parentless) =
    IsIn-destroy _ fs there
      (ap (λ o. is_some o && not (has_parent user_id fs f) && f.user_id == user_id) parentless)
IsAnchored-IsIn user_id fs {f} (under there parent e above) =
    IsIn-destroy _ fs there (rw (IsIn-parent user_id fs f parent e) (ground arith))

-- A round keeps the way of a folder to the top.
IsAnchored-kept :
    (user_id : ℕ) (fs : List Folder) {f : Folder}
    → IsAnchored user_id fs f
    → IsAnchored user_id (without_orphans user_id fs) f
IsAnchored-kept user_id fs (top there parentless) =
    top (IsAnchored-IsIn user_id fs (top there parentless)) parentless
IsAnchored-kept user_id fs (under there parent e above) =
    under (IsAnchored-IsIn user_id fs (under there parent e above))
      (IsAnchored-IsIn user_id fs above) e (IsAnchored-kept user_id fs above)

-- A round that leaves an orphan has deleted a folder.
length-destroy :
    (p : Folder → Bool) (fs : List Folder)
    → (length (destroy p fs) < length fs) ⊎ ((destroy p fs ≡ fs) × (count p fs ≡ 0))
length-destroy p [] = inr (refl, refl)
length-destroy p (f ∷ fs) = elim (Bool-cases (p f)) [
  | inl gone ↦ elim (length-destroy p fs) [
    | inl less ↦ inl (rw gone (omega arith))
    | inr (same, none_left) ↦ inl (rw (gone, same) (omega arith))
  ]
  | inr kept ↦ elim (length-destroy p fs) [
    | inl less ↦ inl (rw kept (omega arith))
    | inr (same, none_left) ↦ inr (rw (kept, same) refl, rw (kept, none_left) refl)
  ]
]

shorter :
    (user_id : ℕ) (fs : List Folder)
    → 0 < count_orphans user_id (without_orphans user_id fs)
    → length (without_orphans user_id fs) < length fs
shorter user_id fs left = elim (length-destroy (is_orphan user_id fs) fs) [
  | inl less ↦ less
  | inr (same, none_left) ↦ absurd (ground (arith, ap (count_orphans user_id) same))
]

after_call-ended :
    {reply : Reply} → (reply ≡ number 0) ⊎ (reply ≡ undefined) → after_call reply ≡ undefined
after_call-ended (inl e) = rw e refl
after_call-ended (inr e) = rw e refl

-- If there is more fuel than folders, the deletion of a user's orphans ends and leaves no orphan of the
-- user; every folder from which the user's folders lead up to one without a parent is still there; and
-- the reply is 0 or undefined, however many folders were deleted.
pub delete_orphans_folders-ends :
    (fuel user_id : ℕ) (s : Store)
    → length s.folders < fuel
    → (reply : Reply) × (s' : Store) × (delete_orphans_folders fuel user_id s ≡ (ok reply, s'))
      × ((reply ≡ number 0) ⊎ (reply ≡ undefined))
      × (count_orphans user_id s'.folders ≡ 0)
      × ((f : Folder) → IsAnchored user_id s.folders f → IsIn f s'.folders)
unfolding delete_orphans_folders clear_orphans_folders
delete_orphans_folders-ends zero user_id s enough = absurd (omega arith)
delete_orphans_folders-ends (suc fuel) user_id s enough =
    let s1 = with_folders (without_orphans user_id s.folders) s in
    let left = count_orphans user_id s1.folders in
    let clear =
      bind-of_ok (clear_orphans_folders user_id)
        (λ n.
          let call = delete_orphans_folders fuel user_id >>= λ reply. pure (after_call reply) in
          if ltb 0 n then call else pure (number n))
        {s = s} refl in
    elim (Bool-cases (ltb 0 left)) [
      | inl more ↦
          let less = shorter user_id s.folders (ground arith) in
          let (reply, s', run, what, gone, kept) =
            delete_orphans_folders-ends fuel user_id s1 (omega arith) in
          let ended = after_call-ended what in
          (
            undefined,
            s',
            (rw more at clear)
                ∙ bind-of_ok (delete_orphans_folders fuel user_id)
                    (λ reply. pure (after_call reply)) run
                ∙ ap (λ r. (ok r, s')) ended,
            inr refl,
            gone,
            λ f anchored. kept f (IsAnchored-kept user_id s.folders anchored),
          )
      | inr ended ↦
          let zero_left : left ≡ 0 = ground arith in
          (
            number 0,
            s1,
            (rw ended at clear) ∙ ap (λ n. (ok (number n), s1)) zero_left,
            inl refl,
            zero_left,
            λ f anchored. IsAnchored-IsIn user_id s.folders anchored,
          )
    ]
