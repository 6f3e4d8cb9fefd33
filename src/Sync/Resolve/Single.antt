-- ===== src/Sync/Resolve/Single.antt =====
-- What `resolveKeepLocal` and `resolveKeepRemote` of frontend/src/sync/reconcile.ts call and return.
use file_space.Api.Types.{ApiFileRecord}
use file_space.Base.{ℕ, String, false, some, ◌∷◌, ◌≡◌, refl, if◌then◌else◌, ◌==◌, string_eq}
use file_space.Base.Dict
use file_space.Base.Dict.{Dict, lookup-insert}
use file_space.Base.Effect.{ok}
use file_space.Base.Effect.Logic.{here, next, bind_result-eq-ok, ok-gives}
use file_space.Sync.Actions.{write_file, read_file, entry_from_file}
use file_space.Sync.Actions.Files.{
  write_file-Grows, read_file-Grows, entry_from_file-Grows, IsEntryOf, entry_from_file-IsEntryOf,
  read_file-eq-ok,
}
use file_space.Sync.Env.{File, Call, History, Env}
use file_space.Sync.Env.Trace.{Makes, bind_result-Grows}
use file_space.Sync.Progress.{SyncConflict}
use file_space.Sync.Resolve.{Entries, resolve_keep_local, resolve_keep_remote}
use file_space.Sync.Storage.{SyncedFileEntry}

module _ (env : Env) where
  -- `after` is `before` with an entry for the file `f` under a name and a remote id.
  pub record IsEntered (name : String) (id : ℕ) (f : File) (before after : Entries) : Type 0 where
    pub entry : SyncedFileEntry
    pub of_file : IsEntryOf env f id entry
    pub look :
        (n : String)
        → Dict.lookup n after ≡ (if n == name then some entry else Dict.lookup n before)

  insert-IsEntered :
      (name : String) (id : ℕ) (f : File) (before : Entries) (entry : SyncedFileEntry)
      → IsEntryOf env f id entry
      → IsEntered name id f before (Dict.insert name entry before)
  insert-IsEntered name id f before entry i = record {
    entry = entry;
    of_file = i;
    look = λ n. lookup-insert n name entry before;
  }

  module _ (c : SyncConflict) (entries : Entries) where
    -- The calls of `resolveKeepLocal`: it opens and reads the file in conflict, deletes the remote
    -- file in conflict, and uploads what it has just read.
    abbrev pub IsLocalCall : History → Call → Type 0
    IsLocalCall h (Call.get_file_handle name create) = (name ≡ c.name) × (create ≡ false)
    IsLocalCall h (Call.delete_file id) = id ≡ c.remote_id
    IsLocalCall h (Call.get_file name) = name ≡ c.name
    IsLocalCall (Call.get_file name ∷ h) (Call.upload_file_in_chunks f) =
        (name ≡ c.name) × (env.get_file h name ≡ ok f)
    IsLocalCall h (Call.array_buffer f) = Unit
    IsLocalCall h call = ⊥

    -- The name in conflict has an entry for the uploaded file, with the id that the server gave it.
    abbrev pub IsKeptLocal : Entries → Type 0
    IsKeptLocal after =
        (g : History) × (f : File) × (created : ApiFileRecord) × (env.get_file g c.name ≡ ok f)
        × (env.upload_file_in_chunks (Call.get_file c.name ∷ g) f ≡ ok created)
        × IsEntered c.name created.id f entries after

    -- Keeping the local file: whatever the calls reply, the only remote file that is deleted is
    -- the one in conflict, what is uploaded is what was just read from the name in conflict, and
    -- nothing is written or removed in the folder. If it returns, the name has an entry with the id
    -- of the upload and the size, time and hash of the uploaded file, and all other names keep
    -- theirs.
    pub resolve_keep_local-Makes : Makes IsLocalCall IsKeptLocal (resolve_keep_local env c entries)
    unfolding resolve_keep_local
    resolve_keep_local-Makes = record {
      leads = λ h.
          bind_result-Grows IsLocalCall (env.get_file_handle h c.name false) _
            (next here (refl, refl))
            λ u e.
              bind_result-Grows IsLocalCall (env.get_file _ c.name) _ (next (next here refl) refl)
                λ f read.
                  bind_result-Grows IsLocalCall (env.upload_file_in_chunks _ f) _
                    (next here (refl, read))
                    λ created sent.
                      bind_result-Grows IsLocalCall (entry_from_file env f created.id _).0 _
                        (entry_from_file-Grows IsLocalCall env f created.id _ tt) λ entry e. here;
      gives = λ h q e.
          let (u, opened, e1) = bind_result-eq-ok (env.get_file_handle h c.name false) _ _ e in
          let (f, read, e2) = bind_result-eq-ok (env.get_file _ c.name) _ _ e1 in
          let (created, sent, e3) = bind_result-eq-ok (env.upload_file_in_chunks _ f) _ _ e2 in
          let (entry, hashed, e4) =
            bind_result-eq-ok (entry_from_file env f created.id _).0 _ _ e3 in
          (
            _,
            f,
            created,
            read,
            sent,
            ok-gives (IsEntered c.name created.id f entries)
                (insert-IsEntered c.name created.id f entries entry
                  (entry_from_file-IsEntryOf env f created.id _ hashed))
                e4,
          );
    }

    -- The calls of `resolveKeepRemote`: it downloads the remote file in conflict, writes just that
    -- to the name in conflict, and reads it again.
    abbrev pub IsRemoteCall : History → Call → Type 0
    IsRemoteCall h (Call.download_file id) = id ≡ c.remote_id
    IsRemoteCall h (Call.get_file_handle name create) = name ≡ c.name
    IsRemoteCall h (Call.create_writable name) = name ≡ c.name
    IsRemoteCall
          (Call.create_writable n ∷ Call.get_file_handle m create ∷ Call.download_file id ∷ h)
          (Call.write name content) =
        (name ≡ c.name) × (id ≡ c.remote_id) × (env.download_file h id ≡ ok content)
    IsRemoteCall h (Call.close name) = name ≡ c.name
    IsRemoteCall h (Call.get_file name) = name ≡ c.name
    IsRemoteCall h (Call.array_buffer f) = Unit
    IsRemoteCall h call = ⊥

    abbrev pub IsKeptRemote : Entries → Type 0
    IsKeptRemote after =
        (g : History) × (f : File) × (env.get_file g c.name ≡ ok f)
        × IsEntered c.name c.remote_id f entries after

    -- Keeping the remote file: whatever the calls reply, nothing is uploaded, deleted remotely or
    -- removed, and only the name in conflict is written, with the content just downloaded by the
    -- id of the conflict. If it returns, the name has an entry with that id and the size, time and
    -- hash of the file then read there, and all other names keep theirs.
    pub resolve_keep_remote-Makes :
        Makes IsRemoteCall IsKeptRemote (resolve_keep_remote env c entries)
    unfolding resolve_keep_remote
    resolve_keep_remote-Makes = record {
      leads = λ h.
          bind_result-Grows IsRemoteCall (env.download_file h c.remote_id) _ (next here refl)
            λ blob got.
              bind_result-Grows IsRemoteCall (write_file env c.name blob _).0 _
                (write_file-Grows IsRemoteCall env c.name blob _ refl refl (refl, refl, got) refl)
                λ u e.
                  bind_result-Grows IsRemoteCall (read_file env c.name _).0 _
                    (read_file-Grows IsRemoteCall env c.name _ refl refl)
                    λ written e.
                      bind_result-Grows IsRemoteCall (entry_from_file env written c.remote_id _).0 _
                        (entry_from_file-Grows IsRemoteCall env written c.remote_id _ tt)
                        λ entry e. here;
      gives = λ h q e.
          let (blob, got, e1) = bind_result-eq-ok (env.download_file h c.remote_id) _ _ e in
          let (u, wrote, e2) = bind_result-eq-ok (write_file env c.name blob _).0 _ _ e1 in
          let (written, read, e3) = bind_result-eq-ok (read_file env c.name _).0 _ _ e2 in
          let (entry, hashed, e4) =
            bind_result-eq-ok (entry_from_file env written c.remote_id _).0 _ _ e3 in
          let was_read = read_file-eq-ok env c.name _ read in
          (
            _,
            written,
            was_read,
            ok-gives (IsEntered c.name c.remote_id written entries)
                (insert-IsEntered c.name c.remote_id written entries entry
                  (entry_from_file-IsEntryOf env written c.remote_id _ hashed))
                e4,
          );
    }
