-- ===== src/Sync/Resolve/Both.antt =====
-- What `resolveKeepBoth` of frontend/src/sync/reconcile.ts calls and returns.
use file_space.Api.Types.{ApiFileRecord}
use file_space.Base.{String, some, ◌∷◌, ◌≡◌, ◌⊎◌, if◌then◌else◌, ◌==◌, string_eq}
use file_space.Base.Dict
use file_space.Base.Dict.{Dict}
use file_space.Base.Effect.{ok}
use file_space.Sync.Actions.Files.{IsEntryOf}
use file_space.Sync.CopyName.{LocalDate, conflict_copy_name}
use file_space.Sync.Env.{File, Call, History, Env, call}
use file_space.Sync.Progress.{SyncConflict}
use file_space.Sync.Resolve.{Entries}
use file_space.Sync.Storage.{SyncedFileEntry}

module _ (env : Env) (copy : String) (c : SyncConflict) (entries : Entries) where
  abbrev IsEither : String → Type 0
  IsEither name = (name ≡ c.name) ⊎ (name ≡ copy)

  -- The file at the copy's name was read and uploaded.
  abbrev IsCopied : History → Type 0
  IsCopied (Call.upload_file_in_chunks f ∷ Call.get_file name ∷ h) =
      (name ≡ copy)
      × (env.get_file h name ≡ ok f)
      × ((created : ApiFileRecord) × (env.upload_file_in_chunks (Call.get_file name ∷ h) f
            ≡ ok created))
  IsCopied h = ⊥

  -- The calls of `resolveKeepBoth`: what is written to the copy's name is the content just read
  -- from the name in conflict; what is written to the name in conflict is the content downloaded by
  -- the conflict's id, and only once the copy has been uploaded; what is uploaded is what was just
  -- read from the copy's name; and only the copy's name may be removed.
  abbrev pub IsBothCall : History → Call → Type 0
  IsBothCall h (Call.get_file_handle name create) = IsEither name
  IsBothCall h (Call.get_file name) = IsEither name
  IsBothCall h (Call.create_writable name) = IsEither name
  IsBothCall (Call.create_writable n ∷ Call.get_file_handle m create ∷ Call.get_file o ∷ h)
        (Call.write name content) =
      (name ≡ copy)
      × (o ≡ c.name)
      × ((f : File) × (env.get_file h o ≡ ok f) × (f.content ≡ content))
  IsBothCall
        (Call.create_writable n
          ∷ Call.get_file_handle m create
          ∷ Call.download_file id
          ∷ Call.array_buffer f
          ∷ h)
        (Call.write name content) =
      (name ≡ c.name)
      × (id ≡ c.remote_id)
      × (env.download_file (Call.array_buffer f ∷ h) id ≡ ok content)
      × IsCopied h
  IsBothCall h (Call.close name) = IsEither name
  IsBothCall (Call.get_file name ∷ h) (Call.upload_file_in_chunks f) =
      (name ≡ copy) × (env.get_file h name ≡ ok f)
  IsBothCall h (Call.array_buffer f) = Unit
  IsBothCall h (Call.download_file id) = id ≡ c.remote_id
  IsBothCall h (Call.remove_entry name) = name ≡ copy
  IsBothCall h call = ⊥

  -- Both names have entries for the files then read there: the name in conflict with the id of the
  -- conflict, the copy with the id that the server gave the upload. All other names keep theirs.
  pub record IsKeptBoth (after : Entries) : Type 0 where
    pub overwritten : File
    pub original_entry : SyncedFileEntry
    pub of_original : IsEntryOf env overwritten c.remote_id original_entry
    pub copy_file : File
    pub created : ApiFileRecord
    pub sent_at : History
    pub was_sent : env.upload_file_in_chunks sent_at copy_file ≡ ok created
    pub copy_entry : SyncedFileEntry
    pub of_copy : IsEntryOf env copy_file created.id copy_entry
    pub look :
        (n : String)
        → Dict.lookup n after ≡ (
            if n == c.name
            then some original_entry
            else (if n == copy then some copy_entry else Dict.lookup n entries))

module _ (env : Env) (today : LocalDate) (c : SyncConflict) (entries : Entries) where
  abbrev copy_name : String
  copy_name = conflict_copy_name c.name today
