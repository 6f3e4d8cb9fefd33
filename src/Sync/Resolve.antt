-- ===== src/Sync/Resolve.antt =====
-- The three ways to resolve a conflict, frontend/src/sync/reconcile.ts.
pub mod Single
pub mod Both
use file_space.Base.{String, Bool}
use file_space.Base.Dict
use file_space.Base.Dict.{Dict}
use file_space.Base.Effect.{throw, attempt, try_catch, pure, ◌>>=◌, ◌>>◌}
use file_space.Sync.Actions.{write_file, entry_from_file, read_file}
use file_space.Sync.CopyName.{LocalDate, conflict_copy_name}
use file_space.Sync.Env.{Call, Env, Sync, call}
use file_space.Sync.Passes.{delete_remote, upload}
use file_space.Sync.Progress.{SyncConflict}
use file_space.Sync.Storage.{SyncedFileEntry}

abbrev pub Entries : Type 0
Entries = Dict SyncedFileEntry

module _ (env : Env) where
  unfoldable pub resolve_keep_local : SyncConflict → Entries → Sync Entries
  unfolding entry_from_file
  resolve_keep_local conflict entries = do
    call (Call.get_file_handle conflict.name Bool.false)
        (λ h. env.get_file_handle h conflict.name Bool.false)
    delete_remote env conflict.remote_id
    f ← call (Call.get_file conflict.name) (λ h. env.get_file h conflict.name)
    created ← upload env f
    entry ← entry_from_file env f created.id
    pure (Dict.insert conflict.name entry entries)

  unfoldable pub resolve_keep_remote : SyncConflict → Entries → Sync Entries
  unfolding write_file entry_from_file read_file
  resolve_keep_remote conflict entries = do
    blob ←
        call (Call.download_file conflict.remote_id) (λ h. env.download_file h conflict.remote_id)
    write_file env conflict.name blob
    written ← read_file env conflict.name
    entry ← entry_from_file env written conflict.remote_id
    pure (Dict.insert conflict.name entry entries)

  -- The body of the `try` block.
  unfoldable pub keep_both_body : String → SyncConflict → Entries → Sync Entries
  unfolding write_file entry_from_file read_file
  keep_both_body copy_name conflict entries = do
    original ← read_file env conflict.name
    write_file env copy_name original.content
    copy_file ← read_file env copy_name
    uploaded_copy ← upload env copy_file
    copy_entry ← entry_from_file env copy_file uploaded_copy.id
    remote_blob ←
        call (Call.download_file conflict.remote_id) (λ h. env.download_file h conflict.remote_id)
    write_file env conflict.name remote_blob
    overwritten ← read_file env conflict.name
    original_entry ← entry_from_file env overwritten conflict.remote_id
    pure (Dict.insert conflict.name original_entry (Dict.insert copy_name copy_entry entries))

  -- `today` is the browser's date at the call.
  unfoldable pub resolve_keep_both : LocalDate → SyncConflict → Entries → Sync Entries
  unfolding keep_both_body conflict_copy_name
  resolve_keep_both today conflict entries =
      let copy_name = conflict_copy_name conflict.name today in
      try_catch (keep_both_body copy_name conflict entries) (λ e.
        attempt (call (Call.remove_entry copy_name) (λ h. env.remove_entry h copy_name)) >> throw e)
