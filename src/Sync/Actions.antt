-- ===== src/Sync/Actions.antt =====
-- The server's actions, applied: the first loop of `reconcile` in frontend/src/sync/reconcile.ts,
-- with `writeFile` and `entryFromFile`.
pub mod Steps
pub mod Files
pub mod Calls
use file_space.Api.Types.{
  ApiFileRecord, SyncActionKind, download, delete_local, conflict, SyncConflictDetails, SyncAction,
}
use file_space.Base.{ℕ, String, Bool, Option, none, some, ◌<>◌, add, string_eq}
use file_space.Base.Dict
use file_space.Base.Effect.{of_result, pure, attempt, ◌>>=◌, ◌>>◌}
use file_space.Sync.Env.{Bytes, File, size, Call, Env, Sync, call}
use file_space.Sync.Hash.{sha256_hex}
use file_space.Sync.Progress.{
  SyncConflict, Progress, Locals, Remotes, put_conflict, known_id, say, set_entry,
}
use file_space.Sync.Scanner.{LocalFileEntry}
use file_space.Sync.Storage.{SyncedFileEntry}

abbrev record_conflict : SyncConflict → Progress → Progress
record_conflict c p = say (c.name <> " changed on both sides — needs your decision") (record p {
  conflicts = put_conflict c p.conflicts;
  conflicted_names = add p.conflicted_names c.name;
})

-- The progress behind a download.
abbrev pub downloaded : String → SyncedFileEntry → Progress → Progress
downloaded name entry p =
    say ("Downloaded " <> name)
      (record (set_entry name entry p) { downloaded_names = add p.downloaded_names name })

-- The progress behind a removal from the folder.
abbrev pub removed : String → Progress → Progress
removed name p = say ("Removed local " <> (name <> " (deleted remotely)")) (record p {
  entries = Dict.erase name p.entries;
  deleted_by_server_names = add p.deleted_by_server_names name;
})

-- The branch of a conflict, which calls nothing.
unfoldable pub apply_conflict :
    String → Option SyncConflictDetails → Option LocalFileEntry → Option ℕ → Progress → Progress
unfolding put_conflict
apply_conflict name none local id p = p
apply_conflict name (some details) none id p = p
apply_conflict name (some details) (some local) none p = p
apply_conflict name (some details) (some local) (some id) p =
    record_conflict
      (record {
        name = name;
        remote_id = id;
        local_size = local.size;
        local_mtime = local.mtime;
        remote_size = details.remote_size;
        remote_modified_at = details.remote_modified_at;
        remote_edited_by = details.remote_edited_by;
      })
      p

module _ (env : Env) where
  unfoldable pub write_file : String → Bytes → Sync (Unit {0})
  write_file name content = do
    call (Call.get_file_handle name Bool.true) (λ h. env.get_file_handle h name Bool.true)
    call (Call.create_writable name) (λ h. env.create_writable h name)
    call (Call.write name content) (λ h. env.write h name content)
    call (Call.close name) (λ h. env.close h name)

  unfoldable pub entry_from_file : File → ℕ → Sync SyncedFileEntry
  unfolding sha256_hex
  entry_from_file f remote_id = do
    buffer ← call (Call.array_buffer f) (λ h. env.array_buffer h f)
    sha256 ← of_result (sha256_hex env buffer)
    pure (record { remote_id = remote_id; size = size f; mtime = f.last_modified; sha256 = sha256 })

  -- `(await directoryHandle.getFileHandle(name)).getFile()`
  unfoldable pub read_file : String → Sync File
  read_file name = do
    call (Call.get_file_handle name Bool.false) (λ h. env.get_file_handle h name Bool.false)
    call (Call.get_file name) (λ h. env.get_file h name)

  unfoldable pub apply_download : String → Option ApiFileRecord → Progress → Sync Progress
  unfolding write_file entry_from_file read_file
  apply_download name none p = pure p
  apply_download name (some remote) p = do
    blob ← call (Call.download_file remote.id) (λ h. env.download_file h remote.id)
    write_file name blob
    written ← read_file name
    entry ← entry_from_file written remote.id
    pure (downloaded name entry p)

  unfoldable pub apply_delete_local : String → Progress → Sync Progress
  apply_delete_local name p = do
    attempt (call (Call.remove_entry name) (λ h. env.remove_entry h name))
    pure (removed name p)

  module _ (locals : Locals) (remotes : Remotes) where
    abbrev pub dispatch : SyncActionKind → SyncAction → Progress → Sync Progress
    dispatch download a p = apply_download a.name (Dict.lookup a.name remotes) p
    dispatch delete_local a p = apply_delete_local a.name p
    dispatch conflict a p = pure (
        apply_conflict a.name a.conflict (Dict.lookup a.name locals)
          (known_id (Dict.lookup a.name remotes) (Dict.lookup a.name p.entries)) p)

    -- One round of the loop.
    unfoldable pub apply_action : SyncAction → Progress → Sync Progress
    unfolding apply_download apply_delete_local apply_conflict
    apply_action a p = dispatch a.action a p
