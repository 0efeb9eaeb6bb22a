-- ===== src/Syncx/Specification.antt =====
-- internal/syncx/mutagen.go and controller.go: the request that creates a session.
use devcontainer_manager.Config.{SyncEntry, SyncDefaults, PermissionConfig}
use devcontainer_manager.Model.{Session}
use devcontainer_manager.Syncx.Daemon.{Library, Configuration, CreationSpecification, Daemon}
use mathlib.Core.Option.{get_or}
use devcontainer_manager.Base.{
  ◌>>◌, ◌>>=◌, if◌then◌else◌, Str, lit, is_empty, ◌==◌, Result, ok, err, ℕ, Bool, true, false, not,
  ◌&&◌, ◌||◌, ◌++◌,
}

-- `mutagenMode`
unfoldable pub mutagen_mode : Str → Bool → Str
mutagen_mode mode replica =
    if mode == lit "push" || mode == lit "pull"
    then (if replica then lit "one-way-replica" else lit "one-way-safe")
    else if mode == lit "two-way" && replica
    then lit "two-way-resolved"
    else lit "two-way-safe"

-- `fmt.Errorf(text + ": %w", err)`
abbrev pub wrap {ℓ} : {A : Type ℓ} → Str → Result A → Result A
wrap text (ok a) = ok a
wrap text (err e) = err (text ++ (lit ": " ++ e))

-- `permissions := defaults.Permissions`, and the fields of the entry that are set over it.
unfoldable pub merge_permissions : PermissionConfig → PermissionConfig → PermissionConfig
merge_permissions defaults entry = record {
  default_file_mode =
      if not (is_empty entry.default_file_mode)
      then entry.default_file_mode
      else defaults.default_file_mode;
  default_directory_mode =
      if not (is_empty entry.default_directory_mode)
      then entry.default_directory_mode
      else defaults.default_directory_mode;
}

module _ (L : Library) (D : Daemon L) where
  -- `synchronizationMode`
  unfoldable pub synchronization_mode : Str → Bool → Result L.Mode
  synchronization_mode mode replica = L.parse_mode (mutagen_mode mode replica)

  -- `parseFilesystemMode`
  unfoldable pub parse_filesystem_mode : Str → Result ℕ
  parse_filesystem_mode value = if is_empty value then ok 0 else L.parse_file_mode value

  unfoldable pub creation_specification :
      Session → SyncEntry → SyncDefaults → Result (CreationSpecification L)
  unfolding synchronization_mode parse_filesystem_mode merge_permissions
  creation_specification session sync_entry defaults = do
    alpha ← wrap (lit "unable to parse alpha URL") (L.parse_url session.alpha true)
    beta ← wrap (lit "unable to parse beta URL") (L.parse_url session.beta false)
    mode ← synchronization_mode session.mode sync_entry.replica
    let ignore_vcs = get_or sync_entry.ignore_vcs defaults.ignore_vcs
    let permissions = merge_permissions defaults.permissions sync_entry.permissions
    file_mode ←
        wrap (lit "invalid default file mode") (parse_filesystem_mode permissions.default_file_mode)
    directory_mode ←
        wrap (lit "invalid default directory mode")
          (parse_filesystem_mode permissions.default_directory_mode)
    let configuration : Configuration L = record {
      mode = mode;
      ignores = defaults.ignores ++ sync_entry.ignores;
      ignore_vcs = ignore_vcs;
      default_file_mode = file_mode;
      default_directory_mode = directory_mode;
    }
    wrap (lit "invalid synchronization configuration") (D.ensure_valid configuration)
    ok (record {
      alpha = alpha;
      beta = beta;
      configuration = configuration;
      name = session.name;
      labels = session.labels;
    })
