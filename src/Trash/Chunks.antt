-- ===== src/Trash/Chunks.antt =====
-- The deletion of items in chunks.
use drive_server_wip.Prelude.{
  ℕ, zero, suc, ◌≤◌, ◌≡◌, refl, sym, ap, ◌∙◌, Bool, true, false, ◌&&◌, ◌||◌, List, [], ◌∷◌, ◌++◌,
  ◌==◌, arith, length, take, drop, any, any-append, length-drop, take-append-drop,
}
use drive_server_wip.Prelude.Table.{count, update, update-update_or}
use drive_server_wip.Prelude.Table.Times.{
  Written, Written-none, Written-update, Written-earlier, IsTimed,
}
use drive_server_wip.Prelude.Outcome.{Action, ok, modify}
use drive_server_wip.Prelude.Outcome.Steps.{bind-of_ok}
use drive_server_wip.Folders.Store.{Folder, User}
use drive_server_wip.Files.Store.{File}
use drive_server_wip.Trash.{
  Drive, with_files, beside_files, with_drive_folders, is_file_among, is_folder_among, remove_file,
  remove_folder, in_chunks, delete_files_by_user, delete_folders_by_user, delete_items,
}
use drive_server_wip.Trash.Emptying.{files-IsTimed}

-- A write that marks the rows that belong to a list of items.
module _ {A R : Type 0} (rows : Drive → List R) (put : List R → Drive → Drive)
    (p : List A → R → Bool) (g : R → R) where
  abbrev mark : List A → Action Drive (Unit {0})
  mark xs = modify (λ s. put (update (p xs) g (rows s)) s)

  record IsMarking : Type 0 where
    rows-put : (ys : List R) (s : Drive) → rows (put ys s) ≡ ys
    put-put : (ys zs : List R) (s : Drive) → put ys (put zs s) ≡ put ys s
    none_marked : (s : Drive) → put (update (p []) g (rows s)) s ≡ s
    both_marked : (xs ys : List A) (r : R) → p (xs ++ ys) r ≡ (p xs r || p ys r)
    again : (r : R) → g (g r) ≡ g r

  two_marks :
      IsMarking
      → (xs ys : List A) (s : Drive)
      → put
          (update (p ys) g (rows (put (update (p xs) g (rows s)) s)))
          (put (update (p xs) g (rows s)) s)
        ≡ put (update (p (xs ++ ys)) g (rows s)) s
  two_marks marking xs ys s =
      marking.put-put _ _ s
      ∙ ap (λ rs. put (update (p ys) g rs) s) (marking.rows-put _ s)
      ∙ ap (λ rs. put rs s)
          (update-update_or (p xs) (p ys) (p (xs ++ ys)) g (rows s) marking.again
            (marking.both_marked xs ys))

  in_chunks-marks :
      IsMarking
      → (size : ℕ) → 1 ≤ size
      → (fuel : ℕ) (xs : List A) (s : Drive) → length xs ≤ fuel
      → in_chunks size mark fuel xs s ≡ (ok true, put (update (p xs) g (rows s)) s)
  unfolding in_chunks
  in_chunks-marks marking size some_size fuel [] s enough =
      ap (λ t. (ok true, t)) (sym (marking.none_marked s))
  in_chunks-marks marking size some_size zero (x ∷ xs) s enough = absurd (omega arith)
  in_chunks-marks marking size some_size (suc fuel) (x ∷ xs) s enough =
      let items = x ∷ xs in
      let s1 = put (update (p (take size items)) g (rows s)) s in
      let rest =
        in_chunks-marks marking size some_size fuel (drop size items) s1
          (omega (arith, length-drop size items)) in
      bind-of_ok (mark (take size items)) (λ t. in_chunks size mark fuel (drop size items)) {s = s}
        refl
      ∙ rest
      ∙ ap (λ t. (ok true, t))
          (two_marks marking (take size items) (drop size items) s
            ∙ ap (λ is. put (update (p is) g (rows s)) s) (take-append-drop size items))

count-none : {R : Type 0} (q : R → Bool) (rs : List R) → ((r : R) → q r ≡ false) → count q rs ≡ 0
count-none q [] never = refl
count-none q (r ∷ rs) never = ground (arith, never r, count-none q rs never)

-- The same of a write that puts its time into the rows.
module _ {A R C : Type 0} (rows : Drive → List R) (put : List R → Drive → Drive) (now : Drive → ℕ)
    (rest : Drive → C) (p : List A → R → Bool) (g : ℕ → R → R) where
  abbrev mark_at : List A → Action Drive (Unit {0})
  mark_at xs = modify (λ s. put (update (p xs) (g (now s)) (rows s)) s)

  record IsTimedMarking : Type 0 where
    timed : IsTimed rows put now rest
    none_marked : (r : R) → p [] r ≡ false
    both_marked : (xs ys : List A) (r : R) → p (xs ++ ys) r ≡ (p xs r || p ys r)
    again : (t u : ℕ) (r : R) → g u (g t r) ≡ g u r
    kept : (xs : List A) (t : ℕ) (r : R) → p xs (g t r) ≡ p xs r

  in_chunks-Written :
      IsTimedMarking
      → (size : ℕ) → 1 ≤ size
      → (fuel : ℕ) (xs : List A) (s : Drive) → length xs ≤ fuel
      → (s' : Drive) × (in_chunks size mark_at fuel xs s ≡ (ok true, s'))
        × (now s ≤ now s')
        × Written (p xs) g (now s) (now s') (rows s) (rows s')
        × (rest s' ≡ rest s)
  unfolding in_chunks
  in_chunks-Written marking size some_size fuel [] s enough = (
    s,
    refl,
    omega arith,
    Written-none (p []) g (now s) (now s) (rows s) (count-none (p []) (rows s) marking.none_marked),
    refl,
  )
  in_chunks-Written marking size some_size zero (x ∷ xs) s enough = absurd (omega arith)
  in_chunks-Written marking size some_size (suc fuel) (x ∷ xs) s enough =
      let items = x ∷ xs in
      let s1 = put (update (p (take size items)) (g (now s)) (rows s)) s in
      let tick = marking.timed.now-put (update (p (take size items)) (g (now s)) (rows s)) s in
      let (s', ended, later, written, same) =
        in_chunks-Written marking size some_size fuel (drop size items) s1
          (omega (arith, length-drop size items)) in
      (
        s',
        bind-of_ok (mark_at (take size items)) (λ t. in_chunks size mark_at fuel (drop size items))
              {s = s} refl
            ∙ ended,
        omega (arith, tick, later),
        Written-update (p (take size items)) (p (drop size items)) (p items) g (now s) (now s')
            (now s) (rows s) (rows s') (omega arith) (omega (arith, tick, later))
            (marking.kept (drop size items) (now s)) marking.again
            (λ r.
              ap (λ is. p is r) (sym (take-append-drop size items))
              ∙ marking.both_marked (take size items) (drop size items) r)
            (Written-earlier (p (drop size items)) g (now s) (now s1) (now s') _ (rows s')
              (omega (arith, tick)) (rw (marking.timed.rows-put _ s) at written)),
        same ∙ marking.timed.rest-put _ s,
      )

update-none :
    {R : Type 0} (g : R → R) (q : R → Bool) (rs : List R)
    → ((r : R) → q r ≡ false)
    → update q g rs ≡ rs
update-none g q [] never = refl
update-none g q (r ∷ rs) never = ground (arith, never r, update-none g q rs never)

among-both :
    {A : Type 0} (owned : Bool) (same : A → Bool) (xs ys : List A)
    → (owned && any same (xs ++ ys)) ≡ ((owned && any same xs) || (owned && any same ys))
among-both owned same xs ys = ground (arith, any-append same xs ys)

-- The deletion of items from the trash ends; all files of the user among them are deleted, each with
-- a time between the start and the end, all folders of the user among them too, and nothing else has changed.
pub delete_items-all :
    (user : User) (files : List File) (folders : List Folder) (s : Drive)
    → (s' : Drive) × (delete_items user files folders s ≡ (ok true, s'))
      × Written
          (λ f. f.user_id == user.id && is_file_among files f)
          remove_file
          s.now
          s'.now
          s.files
          s'.files
      × (s'.folders
          ≡ update (λ f. f.user_id == user.id && is_folder_among folders f) remove_folder s.folders)
      × (s'.emitted ≡ s.emitted)
unfolding delete_items delete_files_by_user delete_folders_by_user
delete_items-all user files folders s =
    let of_file : List File → File → Bool = λ xs f. f.user_id == user.id && is_file_among xs f in
    let of_folder : List Folder → Folder → Bool =
      λ xs f. f.user_id == user.id && is_folder_among xs f in
    let (s1, marked_files, later, written, kept) =
      in_chunks-Written (λ s. s.files) with_files (λ s. s.now) beside_files of_file remove_file
        (record {
          timed = files-IsTimed;
          none_marked = λ f. ground arith;
          both_marked = λ xs ys f. among-both (f.user_id == user.id) (λ h. f.uuid == h.uuid) xs ys;
          again = λ t u f. refl;
          kept = λ xs t f. refl;
        })
        10 (omega arith) (length files) files s (omega arith) in
    let marked_folders =
      in_chunks-marks (λ s. s.folders) with_drive_folders of_folder remove_folder
        (record {
          rows-put = λ ys s. refl;
          put-put = λ ys zs s. refl;
          none_marked = λ s.
              ap (λ fs. with_drive_folders fs s)
                (update-none remove_folder (of_folder []) s.folders (λ f. ground arith));
          both_marked = λ xs ys f. among-both (f.user_id == user.id) (λ h. f.id == h.id) xs ys;
          again = λ f. refl;
        })
        10 (omega arith) (length folders) folders s1 (omega arith) in
    (
      with_drive_folders (update (of_folder folders) remove_folder s1.folders) s1,
      bind-of_ok (in_chunks 10 (delete_files_by_user user.id) (length files) files) _ {s = s}
            marked_files
          ∙ bind-of_ok (in_chunks 10 (delete_folders_by_user user.id) (length folders) folders) _
              {s = s1} marked_folders,
      written,
      ap (λ r. update (of_folder folders) remove_folder r.0) kept,
      ap (λ r. r.1) kept,
    )
