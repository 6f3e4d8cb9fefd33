-- ===== src/Sync/Passes.antt =====
-- Uploads and remote deletions: the second and third loop of `reconcile` in
-- frontend/src/sync/reconcile.ts.
pub mod Removals
pub mod Rounds
pub mod Uploads
pub mod Quiet
use file_space.Api.Types.{ApiFileRecord}
use file_space.Base.{
  ℕ, String, Bool, ◌&&◌, ◌||◌, not, Option, none, some, List, ◌<>◌, if◌then◌else◌, ◌==◌, string_eq,
  nat_eq, contains, filter,
}
use file_space.Base.Dict
use file_space.Base.Dict.{has}
use file_space.Base.Effect.{pure, attempt, for_each, ◌>>=◌, ◌>>◌}
use file_space.Sync.Env.{File, Call, Env, Sync, call}
use file_space.Sync.Progress.{Progress, Locals, Remotes, say, set_entry, synced_entry}
use file_space.Sync.Scanner.{LocalFileEntry}
use file_space.Sync.Storage.{SyncedFileEntry}

-- `known.size === local.size && known.sha256 === local.sha256`
abbrev pub is_unchanged : SyncedFileEntry → LocalFileEntry → Bool
is_unchanged known local = known.size == local.size && known.sha256 == local.sha256

-- The filter in front of the last loop.
unfoldable pub is_removed_locally : Locals → List String → Progress → String → Bool
is_removed_locally locals unreadable_names p name =
    not (has name locals)
    && (not (contains unreadable_names name)
        && (not (contains p.conflicted_names name) && not (contains p.downloaded_names name)))

unfoldable pub removed_locally : Locals → List String → Progress → List String
unfolding is_removed_locally
removed_locally locals unreadable_names p =
    filter (is_removed_locally locals unreadable_names p) (Dict.keys p.entries)

abbrev forgotten : String → Progress → Progress
forgotten name p =
    say ("Deleted remote " <> (name <> " (removed locally)"))
      (record p { entries = Dict.erase name p.entries })

module _ (env : Env) where
  -- `try { await api.deleteFile(id) } catch {}`
  abbrev pub delete_remote : ℕ → Sync (Unit {0})
  delete_remote id = attempt (call (Call.delete_file id) (λ h. env.delete_file h id))

  abbrev pub upload : File → Sync ApiFileRecord
  upload f = call (Call.upload_file_in_chunks f) (λ h. env.upload_file_in_chunks h f)

  -- The lines that the two branches of the second loop share.
  unfoldable pub upload_local : String → LocalFileEntry → String → Progress → Sync Progress
  upload_local name local line p = do
    f ← call (Call.get_file local.handle) (λ h. env.get_file h local.handle)
    created ← upload f
    pure (say line (set_entry name (synced_entry created.id local) p))

  abbrev pub reupload : SyncedFileEntry → String → LocalFileEntry → Progress → Sync Progress
  reupload known name local p = do
    delete_remote known.remote_id
    upload_local name local ("Re-uploaded changed file " <> name) p

  module _ (remotes : Remotes) where
    abbrev pub upload_known :
        Option SyncedFileEntry → String → LocalFileEntry → Progress → Sync Progress
    upload_known (some known) name local p =
        if is_unchanged known local then pure p else reupload known name local p
    upload_known none name local p =
        if has name remotes
        then pure p
        else upload_local name local ("Uploaded new file " <> name) p

    -- One round of the second loop.
    unfoldable pub upload_one : String × LocalFileEntry → Progress → Sync Progress
    unfolding upload_local
    upload_one (name, local) p =
        if contains p.conflicted_names name || contains p.deleted_by_server_names name
        then pure p
        else upload_known (Dict.lookup name p.entries) name local p

    abbrev pub upload_all : Locals → Progress → Sync Progress
    upload_all locals p = for_each locals upload_one p

  abbrev pub forget : String → Option SyncedFileEntry → Progress → Sync Progress
  forget name none p = pure p
  forget name (some known) p = do delete_remote known.remote_id; pure (forgotten name p)

  -- One round of the third loop.
  unfoldable pub remove_one : String → Progress → Sync Progress
  remove_one name p = forget name (Dict.lookup name p.entries) p

  abbrev pub remove_all : List String → Progress → Sync Progress
  remove_all names p = for_each names remove_one p
