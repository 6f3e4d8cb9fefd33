-- ===== src/Sync/Reconcile/Total.antt =====
-- When a cycle returns.
use file_space.Api.Types.{
  ApiFileRecord, SyncActionKind, download, delete_local, conflict, SyncAction,
}
use file_space.Base.{
  ℕ, String, Bool, true, false, Option, none, some, List, ◌∷◌, ◌<>◌, ◌≡◌, refl, inl, inr, string_eq,
  Bool-cases,
}
use file_space.Base.Dict
use file_space.Base.Dict.{has}
use file_space.Base.Effect.{ok, for_each}
use file_space.Base.Effect.Logic.{for_each_total}
use file_space.Sync.Actions.{
  write_file, read_file, entry_from_file, apply_download, apply_delete_local, apply_action,
  dispatch, downloaded, removed,
}
use file_space.Sync.Env.{Bytes, File, size, Call, History, Env}
use file_space.Sync.Hash.{sha256_hex, hex}
use file_space.Sync.Passes.{
  is_unchanged, removed_locally, upload_local, upload_known, upload_one, remove_one, forget,
}
use file_space.Sync.Passes.Rounds.{is_blocked}
use file_space.Sync.Progress.{
  SyncConflict, ReconcileResult, Progress, Locals, Remotes, remote_by_name, say, set_entry,
  synced_entry,
}
use file_space.Sync.Reconcile.{run_passes, result_of, reconcile}
use file_space.Sync.Reconcile.Cycle.{Learned, first}
use file_space.Sync.Scanner.{LocalFileEntry, ScanResult, scan}
use file_space.Sync.Storage.{SyncedFileEntry, SyncState}

-- The folder can be read and written, and the server sends and takes files. Nothing is said of
-- removals and remote deletions.
pub record IsAnswering (env : Env) : Type 0 where
  pub get_file_handle :
      (h : History) (name : String) (create : Bool) → env.get_file_handle h name create ≡ ok tt
  pub get_file : (h : History) (name : String) → (f : File) × (env.get_file h name ≡ ok f)
  pub array_buffer : (h : History) (f : File) → (b : Bytes) × (env.array_buffer h f ≡ ok b)
  pub create_writable : (h : History) (name : String) → env.create_writable h name ≡ ok tt
  pub write : (h : History) (name : String) (b : Bytes) → env.write h name b ≡ ok tt
  pub close : (h : History) (name : String) → env.close h name ≡ ok tt
  pub download_file : (h : History) (id : ℕ) → (b : Bytes) × (env.download_file h id ≡ ok b)
  pub upload_file_in_chunks :
      (h : History) (f : File) → (r : ApiFileRecord) × (env.upload_file_in_chunks h f ≡ ok r)
  pub digest : (b : Bytes) → (d : Bytes) × (env.digest b ≡ ok d)

module _ (env : Env) (a : IsAnswering env) where
  write_file_total :
      (name : String) (content : Bytes) (h : History) → (write_file env name content h).0 ≡ ok tt
  unfolding write_file
  write_file_total name content h =
      rw
        (
          a.get_file_handle h name true,
          a.create_writable _ name,
          a.write _ name content,
          a.close _ name,
        )
        refl

  read_file_total : (name : String) (h : History) → (f : File) × ((read_file env name h).0 ≡ ok f)
  unfolding read_file
  read_file_total name h =
      let (f, e) = a.get_file (Call.get_file_handle name false ∷ h) name in
      (f, rw (a.get_file_handle h name false, e) refl)

  entry_from_file_total :
      (f : File) (id : ℕ) (h : History)
      → (entry : SyncedFileEntry) × ((entry_from_file env f id h).0 ≡ ok entry)
  unfolding entry_from_file sha256_hex
  entry_from_file_total f id h =
      let (b, e) = a.array_buffer h f in
      let (d, e') = a.digest b in
      (
        record { remote_id = id; size = size f; mtime = f.last_modified; sha256 = hex d },
        rw (e, e') refl,
      )

  apply_download_total :
      (name : String) (r : Option ApiFileRecord) (p : Progress) (h : History)
      → (q : Progress) × ((apply_download env name r p h).0 ≡ ok q)
  unfolding apply_download
  apply_download_total name none p h = (p, refl)
  apply_download_total name (some r) p h =
      let (blob, e) = a.download_file h r.id in
      let wrote = write_file_total name blob (Call.download_file r.id ∷ h) in
      let (f, read) =
        read_file_total name (write_file env name blob (Call.download_file r.id ∷ h)).1 in
      let (entry, made) =
        entry_from_file_total f r.id
          (read_file env name (write_file env name blob (Call.download_file r.id ∷ h)).1).1 in
      (downloaded name entry p, rw (e, wrote, read, made) refl)

  apply_action_total :
      (locals : Locals) (remotes : Remotes) (x : SyncAction) (p : Progress) (h : History)
      → (q : Progress) × ((apply_action env locals remotes x p h).0 ≡ ok q)
  unfolding apply_action apply_delete_local
  apply_action_total locals remotes x p h = dispatched x.action
    where
      dispatched :
          (kind : SyncActionKind)
          → (q : Progress) × ((dispatch env locals remotes kind x p h).0 ≡ ok q)
      dispatched download = apply_download_total x.name (Dict.lookup x.name remotes) p h
      dispatched delete_local = (removed x.name p, refl)
      dispatched conflict = (_, refl)

  upload_local_total :
      (name : String) (local : LocalFileEntry) (line : String) (p : Progress) (h : History)
      → (q : Progress) × ((upload_local env name local line p h).0 ≡ ok q)
  unfolding upload_local
  upload_local_total name local line p h =
      let (f, e) = a.get_file h local.handle in
      let (r, e') = a.upload_file_in_chunks (Call.get_file local.handle ∷ h) f in
      (say line (set_entry name (synced_entry r.id local) p), rw (e, e') refl)

  upload_known_total :
      (remotes : Remotes) (entry : Option SyncedFileEntry) (name : String) (local : LocalFileEntry)
      (p : Progress) (h : History)
      → (q : Progress) × ((upload_known env remotes entry name local p h).0 ≡ ok q)
  upload_known_total remotes (some known) name local p h =
      elim (Bool-cases (is_unchanged known local)) [
        | inl same ↦ (p, rw same refl)
        | inr differs ↦
            let (q, e) =
              upload_local_total name local ("Re-uploaded changed file " <> name) p
                (Call.delete_file known.remote_id ∷ h) in
            (q, rw differs e)
      ]
  upload_known_total remotes none name local p h = elim (Bool-cases (has name remotes)) [
    | inl listed ↦ (p, rw listed refl)
    | inr absent ↦
        let (q, e) = upload_local_total name local ("Uploaded new file " <> name) p h in
        (q, rw absent e)
  ]

  upload_one_total :
      (remotes : Remotes) (x : String × LocalFileEntry) (p : Progress) (h : History)
      → (q : Progress) × ((upload_one env remotes x p h).0 ≡ ok q)
  unfolding upload_one
  upload_one_total remotes (name, local) p h = elim (Bool-cases (is_blocked p name)) [
    | inl blocked ↦ (p, rw blocked refl)
    | inr free ↦
        let (q, e) = upload_known_total remotes (Dict.lookup name p.entries) name local p h in
        (q, rw free e)
  ]

  remove_one_total :
      (name : String) (p : Progress) (h : History)
      → (q : Progress) × ((remove_one env name p h).0 ≡ ok q)
  unfolding remove_one
  remove_one_total name p h = forgot (Dict.lookup name p.entries)
    where
      forgot :
          (entry : Option SyncedFileEntry) → (q : Progress) × ((forget env name entry p h).0 ≡ ok q)
      forgot none = (p, refl)
      forgot (some known) = (_, refl)

  run_passes_total :
      (scanned : ScanResult) (remotes : Remotes) (actions : List SyncAction) (p : Progress)
      (h : History)
      → (q : Progress) × ((run_passes env scanned remotes actions p h).0 ≡ ok q)
  unfolding run_passes
  run_passes_total scanned remotes actions p h =
      let (acted, e) =
        for_each_total (apply_action env scanned.entries remotes)
          (apply_action_total scanned.entries remotes) actions p h in
      let (uploaded, e') =
        for_each_total (upload_one env remotes) (upload_one_total remotes) scanned.entries acted
          (for_each actions (apply_action env scanned.entries remotes) p h).1 in
      let (done, e'') =
        for_each_total (remove_one env) remove_one_total
          (removed_locally scanned.entries scanned.unreadable_names uploaded) uploaded
          (for_each scanned.entries (upload_one env remotes) acted
            (for_each actions (apply_action env scanned.entries remotes) p h).1).1 in
      (done, rw (e, e', e'') refl)

  -- A cycle that has scanned, and has got the server's list and difference, returns, if the folder
  -- can be read and written and the server sends and takes files. Removals from the folder and remote
  -- deletions may fail: they do not end a cycle.
  pub reconcile_total :
      (state : SyncState) (current : List SyncConflict) (h : History)
      → (l : Learned env state current h)
      → (r : ReconcileResult) × ((reconcile env state current h).0 ≡ ok r)
        × (r.last_synced_version ≡ l.diff.new_version)
  unfolding reconcile
  reconcile_total state current h l =
      let (done, e) =
        run_passes_total l.scanned (remote_by_name l.listed.files) l.diff.actions
          (first env state current h l)
          (Call.sync_diff state.last_synced_version l.manifest
            ∷ Call.list_files 1000
            ∷ (scan env h).1) in
      (
        result_of l.diff.new_version done,
        rw (l.was_scanned, l.was_built, l.was_listed, l.was_compared, e) refl,
        refl,
      )
