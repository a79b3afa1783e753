-- ===== src/Files/Names.antt =====
-- The names of the files in a folder.
pub mod Quiet
pub mod Steps
pub mod Kept
pub mod Unnamed
mod Tests
use text.Mathlib.Text.{◌==◌ as str_eq}
use text.Mathlib.TextEquality.{eq_iff}
use drive_server_wip.Prelude.{
  ℕ, suc, ◌+◌, ◌≤◌, ◌≡◌, ◌≢◌, refl, sym, ap, ◌∙◌, String, Bool, true, false, ◌&&◌, ◌||◌, not,
  Option, none, some, List, [], ◌∷◌, ◌++◌, ◌==◌, arith, inl, inr, ◌⊎◌, Option-cases, Bool-cases,
  is_some, if◌then◌else◌,
}
use drive_server_wip.Prelude.Table.{
  find_one, update, create, count, count-create, find_one-passes, find_one-other,
  count_of_find_none,
}
use drive_server_wip.Folders.Names.{codes, is_blank, same_text}
use drive_server_wip.Files.Status.{is_status_exists}
use drive_server_wip.Files.Store.{File}
use drive_server_wip.Files.Drive.{is_string_empty, same_type, is_file_named}

-- No two existing files of a user in a folder have the same name and type; files without a type or with
-- an empty one have the same type, which the index of the table does not see.
abbrev pub HasUniqueNames : List File → Type 0
HasUniqueNames fs =
    (user_id : ℕ) (plain_name type : Option String) (folder_id : ℕ)
    → count (is_file_named user_id plain_name type folder_id) fs ≤ 1

-- Whether a row is named as another one.
abbrev pub is_named_as : File → File → Bool
is_named_as g = is_file_named g.user_id g.plain_name g.type g.folder_id

same_text-eq : (a b : Option String) → same_text a b ≡ true → b ≡ a
same_text-eq none b e = absurd (cc)
same_text-eq (some a) none e = absurd (cc)
same_text-eq (some a) (some b) e = ap some (sym ((eq_iff a b).0 e))

empty_text : (a : String) → str_eq a "" ≡ true → is_string_empty (some a) ≡ true
unfolding is_blank
empty_text a e = rw ((eq_iff a "").0 e) refl

-- A type that passes a condition stands for the same types.
same_type-cases :
    (a t : Option String)
    → same_type a t ≡ true
    → (t ≡ a) ⊎ ((is_string_empty t ≡ true) × (is_string_empty a ≡ true))
same_type-cases none t e = inr (e, refl)
same_type-cases (some a) t e = elim (Bool-cases (is_string_empty t)) [
  | inl blank ↦ inr (blank, empty_text a (rw blank at e))
  | inr other ↦ inl (same_text-eq (some a) t (rw other at e))
]

same_type-blank :
    (r a t : Option String)
    → is_string_empty t ≡ true
    → is_string_empty a ≡ true
    → same_type r t ≡ same_type r a
same_type-blank none a t e e' = e ∙ sym e'
same_type-blank (some r) a t e e' = rw (e, e') refl

same_type-same : (r a t : Option String) → same_type a t ≡ true → same_type r t ≡ same_type r a
same_type-same r a t e = elim (same_type-cases a t e) [
  | inl same ↦ ap (same_type r) same
  | inr (blank, blank') ↦ same_type-blank r a t blank blank'
]

named-same :
    (u : ℕ) (n t : Option String) (d : ℕ) (g r : File)
    → is_file_named u n t d g ≡ true
    → is_file_named u n t d r ≡ is_named_as g r
named-same u n t d g r e =
    let type : same_type g.type t ≡ true = ground arith in
    let text : same_text g.plain_name n ≡ true = ground arith in
    let user : u ≡ g.user_id = ground arith in
    let folder : d ≡ g.folder_id = ground arith in
    rw (user, folder, same_text-eq g.plain_name n text, same_type-same r.type g.type t type) refl

count-same :
    {A : Type 0} (p q : A → Bool) (xs : List A) → ((x : A) → p x ≡ q x) → count p xs ≡ count q xs
count-same p q [] same = refl
count-same p q (x ∷ xs) same = ground (arith, same x, count-same p q xs same)

-- Where no row is named as a new one, a condition that the new one passes is passed by no row.
count-free :
    (u : ℕ) (n t : Option String) (d : ℕ) (g : File) (fs : List File)
    → is_file_named u n t d g ≡ true
    → find_one (is_named_as g) fs ≡ none
    → count (is_file_named u n t d) fs ≡ 0
count-free u n t d g fs e free =
    count-same (is_file_named u n t d) (is_named_as g) fs (λ r. named-same u n t d g r e)
    ∙ count_of_find_none (is_named_as g) fs free

pub create-HasUniqueNames :
    (g : File) (fs : List File)
    → HasUniqueNames fs
    → find_one (is_named_as g) fs ≡ none
    → HasUniqueNames (create g fs)
create-HasUniqueNames g fs unique free u n t d =
    let sum = count-create (is_file_named u n t d) g fs in
    elim (Bool-cases (is_file_named u n t d g)) [
      | inl named ↦
          let none_there = count-free u n t d g fs named free in
          let sum = rw named at sum in omega arith
      | inr other ↦ let most = unique u n t d in let sum = rw other at sum in omega arith
    ]

module _ {A : Type 0} (p q : A → Bool) (g : A → A) where
  count-update-most : (xs : List A) → count q (update p g xs) ≤ count q xs + count p xs
  count-update-most [] = omega arith
  count-update-most (x ∷ xs) = ground (arith, count-update-most xs)

  count-update-none :
      (xs : List A)
      → find_one (λ x. p x && q (g x)) xs ≡ none
      → count q (update p g xs) ≤ count q xs
  count-update-none [] e = omega arith
  count-update-none (x ∷ xs) e = ground (arith, count-update-none xs)

pub update-HasUniqueNames :
    (p : File → Bool) (g : File → File) (file : File) (fs : List File)
    → HasUniqueNames fs
    → count p fs ≤ 1
    → find_one p fs ≡ some file
    → find_one (is_named_as (g file)) fs ≡ none
    → HasUniqueNames (update p g fs)
update-HasUniqueNames p g file fs unique once found free u n t d =
    let q = is_file_named u n t d in
    elim (Option-cases (find_one (λ f. p f && q (g f)) fs)) [
      | inl untouched ↦
          let less = count-update-none p q g fs untouched in
          let most = unique u n t d in omega arith
      | inr (f, there) ↦
          let both : (p f && q (g f)) ≡ true = find_one-passes (λ f. p f && q (g f)) fs there in
          let here = find_one-other (λ f. p f && q (g f)) p fs once there (ground arith) in
          let same : ◌≡◌ {A = Option File} (some f) (some file) = sym here ∙ found in
          let named : q (g file) ≡ true = ground arith in
          let none_there = count-free u n t d (g file) fs named free in
          let most = count-update-most p q g fs in omega arith
    ]
