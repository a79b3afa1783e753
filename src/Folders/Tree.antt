-- ===== src/Folders/Tree.antt =====
-- Which folders are below which, and whether a folder hangs from a root.
use drive_server_wip.Prelude.{
  ℕ, ◌≤◌, ◌≡◌, refl, sym, ap, ◌∙◌, false, ◌&&◌, Option, none, some, List, ◌==◌, arith, inl, inr,
  Bool-cases, ==_iff, ==_self, ==_cases, String, ◌≢◌,
}
use drive_server_wip.Prelude.Table.{
  find_one, find_one-passes, find_one-update, find_one-other, find_one-untouched, count,
}
use drive_server_wip.Prelude.Outcome.{ok}
use drive_server_wip.Folders.Names.{Ciphers}
use drive_server_wip.Folders.Store.{Uuid, Folder, User, Store, has_id, has_uuid, is_live}
use drive_server_wip.Folders.{move_folder, set_location}
use drive_server_wip.Folders.Move.{IsMovable, IsMoved, move_folder-then, encrypted}

-- The folder `u` is `a` or has `a` among the folders above it.
pub data IsBelow (fs : List Folder) (a : Uuid) : Uuid → Type 0 where
  self : {u : Uuid} → u ≡ a → IsBelow fs a u
  up :
      {u : Uuid} {f : Folder} {p : Uuid}
      → find_one (has_uuid u) fs ≡ some f
      → f.parent_uuid ≡ some p
      → IsBelow fs a p
      → IsBelow fs a u

-- The folders above `u` end in one without a parent.
pub data IsRooted (fs : List Folder) : Uuid → Type 0 where
  root :
      {u : Uuid} {f : Folder}
      → find_one (has_uuid u) fs ≡ some f
      → f.parent_uuid ≡ none
      → IsRooted fs u
  child :
      {u : Uuid} {f : Folder} {p : Uuid}
      → find_one (has_uuid u) fs ≡ some f
      → f.parent_uuid ≡ some p
      → IsRooted fs p
      → IsRooted fs u

-- Rows of which `update` by the identifier of `f` changes the parent of the folder `f.uuid` alone.
pub record IsReparented (fs fs' : List Folder) (f d : Uuid) : Type 0 where
  pub here : (g : Folder) → find_one (has_uuid f) fs' ≡ some g → g.parent_uuid ≡ some d
  pub there : (g : Folder) × (find_one (has_uuid f) fs' ≡ some g)
  pub others : (u : Uuid) → u ≢ f → find_one (has_uuid u) fs' ≡ find_one (has_uuid u) fs

module _ (fs fs' : List Folder) (m d : Uuid) (moved : IsReparented fs fs' m d) where
  cuts : (u : Uuid) → IsBelow fs m d → IsBelow fs m u → IsRooted fs' u → ⊥
  cuts u loop below (root {f = g} found parentless) = elim (==_cases u m) [
    | inl same ↦ ground (arith, moved.here _ (rw same at found))
    | inr differ ↦ elim below [
      | self e ↦ differ e
      | up found' parent rest ↦ ground (arith, moved.others u differ)
    ]
  ]
  cuts u loop below (child {f = g} {p} found parent rooted) = elim (==_cases u m) [
    | inl same ↦
        let to : p ≡ d = ground (arith, moved.here _ (rw same at found)) in
        cuts p loop (rw to loop) rooted
    | inr differ ↦ elim below [
      | self e ↦ absurd (differ e)
      | up {f = g'} {p = p'} found' parent' rest ↦
          let same : p' ≡ p = ground (arith, moved.others u differ) in
          cuts p loop (rw (← same) rest) rooted
    ]
  ]

  -- A folder that is not below the moved one keeps its way to a root.
  keeps : (u : Uuid) → (IsBelow fs m u → ⊥) → IsRooted fs u → IsRooted fs' u
  keeps u apart (root {f = g} found parentless) =
      root (moved.others u (λ e. apart (self e)) ∙ found) parentless
  keeps u apart (child {f = g} {p} found parent rooted) =
      child (moved.others u (λ e. apart (self e)) ∙ found) parent
        (keeps p (λ b. apart (up found parent b)) rooted)

  hangs : (u : Uuid) → (IsBelow fs m d → ⊥) → IsRooted fs d → IsRooted fs u → IsRooted fs' u
  hangs u apart rooted_d (root {f = g} found parentless) = elim (==_cases u m) [
    | inl same ↦
        let (g, there) = moved.there in
        rw same (child there (moved.here g there) (keeps d apart rooted_d))
    | inr differ ↦ root (moved.others u differ ∙ found) parentless
  ]
  hangs u apart rooted_d (child {f = g} {p} found parent rooted) = elim (==_cases u m) [
    | inl same ↦
        let (g, there) = moved.there in
        rw same (child there (moved.here g there) (keeps d apart rooted_d))
    | inr differ ↦ child (moved.others u differ ∙ found) parent (hangs p apart rooted_d rooted)
  ]

-- The identifiers of rows are a primary key.
abbrev pub HasUniqueIds : List Folder → Type 0
HasUniqueIds fs = (id : ℕ) → count (has_id id) fs ≤ 1

abbrev parent_of : Option Folder → Option Uuid
parent_of none = none
parent_of (some f) = f.parent_uuid

abbrev uuid_of : Option Folder → Option Uuid
uuid_of none = none
uuid_of (some f) = some f.uuid

-- Rows with different keys have different identifiers.
other_id :
    (fs : List Folder) (u w : Uuid) {f : Folder}
    → HasUniqueIds fs
    → find_one (has_uuid u) fs ≡ some f
    → w ≢ u
    → (o : Folder) → find_one (has_uuid w) fs ≡ some o
    → has_id f.id o ≡ false
other_id fs u w {f} unique found differ o found_o = elim (Bool-cases (has_id f.id o)) [
  | inl same ↦
      let by_id = find_one-other (has_uuid w) (has_id f.id) fs (unique f.id) found_o same in
      let by_id' =
        find_one-other (has_uuid u) (has_id f.id) fs (unique f.id) found (==_self f.id) in
      let uuids : ◌≡◌ {A = Option Uuid} (some o.uuid) (some f.uuid) =
        ap uuid_of (sym by_id ∙ by_id') in
      let w_is : o.uuid ≡ w = (==_iff _ _).0 (find_one-passes (has_uuid w) fs found_o) in
      let u_is : f.uuid ≡ u = (==_iff _ _).0 (find_one-passes (has_uuid u) fs found) in
      absurd (ground arith)
  | inr other ↦ other
]

IsMoved-IsReparented :
    (ciphers : Ciphers) (user : User) (u d : Uuid) (new_name : Option String) (s s' : Store)
    (r folder destination : Folder)
    → HasUniqueIds s.folders
    → IsMovable user u d s folder destination
    → IsMoved ciphers new_name s s' r folder destination
    → IsReparented s.folders s'.folders u d
IsMoved-IsReparented ciphers user u d new_name s s' r folder destination unique movable moved =
    let g =
      set_location ciphers destination (encrypted ciphers moved.plain_name (some destination.id) s)
        moved.plain_name in
    let to_d : destination.uuid ≡ d = ground (
      arith,
      find_one-passes (λ f. f.uuid == d && is_live f) s.folders {a = destination} movable.to,
    ) in
    let after =
      find_one-update (has_uuid u) (has_id folder.id) g s.folders (λ f. refl) movable.found in
    let after = rw (==_self folder.id) at after in
    rw moved.rows (record {
      here = λ h found. ap parent_of (sym found ∙ after) ∙ ap some to_d;
      there = (g folder, after);
      others = λ w differ.
          find_one-untouched (has_uuid w) (has_id folder.id) g s.folders (λ f. refl)
            (other_id s.folders u w unique movable.found differ);
    })

-- A folder that is moved to itself or to a folder below it, which no check refuses, does not hang from
-- a root any more.
pub move_folder-loops :
    (ciphers : Ciphers) (user : User) (u d : Uuid) (new_name : Option String) (s : Store)
    {r : Folder} {s' : Store}
    → HasUniqueIds s.folders
    → move_folder ciphers user u d new_name s ≡ (ok r, s')
    → IsBelow s.folders u d
    → ¬ IsRooted s'.folders u
move_folder-loops ciphers user u d new_name s {r} {s'} unique e below rooted =
    let (folder, destination, movable, moved) = move_folder-then ciphers user u d new_name s e in
    let reparented =
      IsMoved-IsReparented ciphers user u d new_name s s' r folder destination unique movable
        moved in
    cuts s.folders s'.folders u d reparented u below (self refl) rooted

-- After a move to a folder that hangs from a root and is not below the moved one, every folder that hung
-- from a root still does.
pub move_folder-IsRooted :
    (ciphers : Ciphers) (user : User) (u d : Uuid) (new_name : Option String) (s : Store)
    {r : Folder} {s' : Store}
    → HasUniqueIds s.folders
    → move_folder ciphers user u d new_name s ≡ (ok r, s')
    → ¬ IsBelow s.folders u d
    → IsRooted s.folders d
    → (w : Uuid) → IsRooted s.folders w
    → IsRooted s'.folders w
move_folder-IsRooted ciphers user u d new_name s {r} {s'} unique e apart rooted_d w rooted =
    let (folder, destination, movable, moved) = move_folder-then ciphers user u d new_name s e in
    let reparented =
      IsMoved-IsReparented ciphers user u d new_name s s' r folder destination unique movable
        moved in
    hangs s.folders s'.folders u d reparented w apart rooted_d rooted
