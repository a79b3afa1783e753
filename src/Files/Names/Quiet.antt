-- ===== src/Files/Names/Quiet.antt =====
-- Handlers that write to no file.
use drive_server_wip.Prelude.{
  ℕ, ◌≡◌, refl, sym, ap, ◌∙◌, String, Bool, true, false, Option, none, some, ◌==◌, inl, inr,
  if◌then◌else◌,
}
use drive_server_wip.Prelude.Outcome.{
  Exception, Action, pure, gets, or_throw, throw_if, catch, zoom, ◌>>=◌, Outcome-cases,
}
use drive_server_wip.Prelude.Outcome.Steps.{bind-of_ok, bind-of_err, catch-of_ok, catch-of_err}
use drive_server_wip.Limits.Store.{User}
use drive_server_wip.Limits.Upload.{CacheManager}
use drive_server_wip.Folders.Names.{Ciphers}
use drive_server_wip.Folders.Store as FolderTables
use drive_server_wip.Files.Store.{File}
use drive_server_wip.Files.Drive.{
  WorkspaceOptions, DriveState, files_of, check_empty_files_limit,
  check_workspace_empty_files_limit,
}
use drive_server_wip.Files.Handlers.{
  encrypted_name, enforce_upload_size, check_size_limits, encrypted_if_given, is_given,
}

module _ {C : Type 0} where
  pub record IsQuiet {A : Type 0} (m : Action (DriveState C) A) : Type 0 where
    pub same : (s : DriveState C) → files_of (m s).1 ≡ files_of s

  pub IsQuiet-pure : {A : Type 0} (a : A) → IsQuiet (pure a)
  IsQuiet-pure a = record { same = λ s. refl }

  pub IsQuiet-gets : {A : Type 0} (g : DriveState C → A) → IsQuiet (gets g)
  IsQuiet-gets g = record { same = λ s. refl }

  pub IsQuiet-or_throw : {A : Type 0} (o : Option A) (x : Exception) → IsQuiet (or_throw o x)
  IsQuiet-or_throw none x = record { same = λ s. refl }
  IsQuiet-or_throw (some a) x = record { same = λ s. refl }

  pub IsQuiet-throw_if : (c : Bool) (x : Exception) → IsQuiet (throw_if c x)
  IsQuiet-throw_if c x = record { same = λ s. refl }

  pub IsQuiet-bind :
      {A B : Type 0} (m : Action (DriveState C) A) (f : A → Action (DriveState C) B)
      → IsQuiet m
      → ((a : A) → IsQuiet (f a))
      → IsQuiet (m >>= f)
  IsQuiet-bind m f quiet rest = record {
    same = λ s. elim (Outcome-cases (m s)) [
      | inl (x, s1, e) ↦
          ap (λ o. files_of o.1) (bind-of_err m f e) ∙ ap (λ o. files_of o.1) (sym e) ∙ quiet.same s
      | inr (a, s1, e) ↦
          ap (λ o. files_of o.1) (bind-of_ok m f e)
          ∙ (rest a).same s1
          ∙ ap (λ o. files_of o.1) (sym e)
          ∙ quiet.same s
    ];
  }

  pub IsQuiet-if :
      {A : Type 0} (c : Bool) (m k : Action (DriveState C) A)
      → IsQuiet m
      → IsQuiet k
      → IsQuiet (if c then m else k)
  IsQuiet-if true m k quiet quiet' = quiet
  IsQuiet-if false m k quiet quiet' = quiet'

  pub IsQuiet-zoom_cache :
      {A : Type 0} (m : Action C A)
      → IsQuiet (zoom (λ s. s.cache) (λ c s. record s { cache = c }) m)
  unfolding zoom
  IsQuiet-zoom_cache m = record { same = λ s. refl }

  pub IsQuiet-zoom_folders :
      {A : Type 0} (m : Action FolderTables.Store A)
      → IsQuiet (zoom (λ s. s.folders) (λ t s. record s { folders = t }) m)
  unfolding zoom
  IsQuiet-zoom_folders m = record { same = λ s. refl }

  pub IsQuiet-catch :
      {A : Type 0} (m : Action (DriveState C) A) (a : A)
      → IsQuiet m
      → IsQuiet (catch m (λ e. pure a))
  IsQuiet-catch m a quiet = record {
    same = λ s. elim (Outcome-cases (m s)) [
      | inl (x, s1, e) ↦
          ap (λ o. files_of o.1) (catch-of_err m (λ e. pure a) e)
          ∙ ap (λ o. files_of o.1) (sym e)
          ∙ quiet.same s
      | inr (b, s1, e) ↦
          ap (λ o. files_of o.1) (catch-of_ok m (λ e. pure a) e)
          ∙ ap (λ o. files_of o.1) (sym e)
          ∙ quiet.same s
    ];
  }

  check_empty_files_limit-IsQuiet : (user : User) → IsQuiet (check_empty_files_limit user)
  unfolding check_empty_files_limit
  check_empty_files_limit-IsQuiet user = IsQuiet-bind _ _ (IsQuiet-gets _) λ found.
      IsQuiet-bind _ _ (IsQuiet-gets _) λ n.
        IsQuiet-bind _ _ (IsQuiet-throw_if _ _)
          λ t. IsQuiet-bind _ _ (IsQuiet-or_throw found _) λ limit. IsQuiet-throw_if _ _

  check_workspace_empty_files_limit-IsQuiet :
      (options : WorkspaceOptions) → IsQuiet (check_workspace_empty_files_limit options)
  unfolding check_workspace_empty_files_limit
  check_workspace_empty_files_limit-IsQuiet options = IsQuiet-bind _ _ (IsQuiet-gets _) λ found.
      IsQuiet-bind _ _ (IsQuiet-or_throw found _) λ owner.
        IsQuiet-bind _ _ (IsQuiet-gets _) λ found_limit.
          IsQuiet-bind _ _ (IsQuiet-gets _)
            λ n. IsQuiet-bind _ _ (IsQuiet-or_throw found_limit _) λ limit. IsQuiet-throw_if _ _

module _ (cache_manager : CacheManager)
    (expire_user_usage : ℕ → Action cache_manager.Cache (Unit {0})) (ciphers : Ciphers) where
  pub encrypted_name-IsQuiet :
      (text : String) (id : ℕ)
      → IsQuiet (encrypted_name cache_manager expire_user_usage ciphers text id)
  unfolding encrypted_name
  encrypted_name-IsQuiet text id = IsQuiet-zoom_folders _

  enforce_upload_size-IsQuiet :
      (user : User) (size : ℕ)
      → IsQuiet (enforce_upload_size cache_manager expire_user_usage ciphers user size)
  unfolding enforce_upload_size
  enforce_upload_size-IsQuiet user size =
      IsQuiet-bind _ _ (IsQuiet-gets _) λ limits. IsQuiet-zoom_cache _

  pub check_size_limits-IsQuiet :
      (user : User) (size : ℕ) (options : Option WorkspaceOptions)
      → IsQuiet (check_size_limits cache_manager expire_user_usage ciphers user size options)
  unfolding check_size_limits
  check_size_limits-IsQuiet user size none =
      IsQuiet-if (size == 0) _ _ (check_empty_files_limit-IsQuiet user)
        (enforce_upload_size-IsQuiet user size)
  check_size_limits-IsQuiet user size (some options) =
      IsQuiet-if (size == 0) _ _ (check_workspace_empty_files_limit-IsQuiet options)
        (enforce_upload_size-IsQuiet user size)

  pub encrypted_if_given-IsQuiet :
      (name : Option String) (file : File)
      → IsQuiet (encrypted_if_given cache_manager expire_user_usage ciphers name file)
  unfolding encrypted_if_given
  encrypted_if_given-IsQuiet none file = IsQuiet-pure _
  encrypted_if_given-IsQuiet (some name) file =
      IsQuiet-if (is_given name) _ _ (encrypted_name-IsQuiet name file.folder_id) (IsQuiet-pure _)
