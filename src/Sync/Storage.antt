-- ===== src/Sync/Storage.antt =====
-- The persisted sync state, frontend/src/sync/storage.ts.
pub mod Folder
pub mod IndexedDb
use file_space.Base.{ℕ, String, Bool, false, Option, none, some, [], if◌then◌else◌}
use file_space.Base.Dict
use file_space.Base.Dict.{Dict}
use file_space.Base.Effect.{Result, M, ok, of_result, pure, ◌>>=◌, ◌>>◌}

pub record SyncedFileEntry : Type 0 where
  pub remote_id : ℕ
  pub size : ℕ
  pub mtime : ℕ
  pub sha256 : String

pub record SyncState : Type 0 where
  pub last_synced_version : ℕ
  pub entries : Dict SyncedFileEntry

unfoldable pub empty_sync_state : SyncState
empty_sync_state = record { last_synced_version = 0; entries = [] }

-- What the store holds, with `D` for the directory handles.
pub data Value (D : Type 0) : Type 0 where
  sync_state : SyncState → Value D
  directory_handle : D → Value D

-- `KvStore`, over the state `S` of an implementation
pub record KvStore (S D : Type 0) : Type 0 where
  pub get : String → M S (Option (Value D))
  pub set : String → Value D → M S (Unit {0})
  pub delete : String → M S (Unit {0})

-- `createMemoryKVStore`
unfoldable pub create_memory_kv_store : {D : Type 0} → KvStore (Dict (Value D)) D
create_memory_kv_store = record {
  get = λ key map. (ok (Dict.lookup key map), map);
  set = λ key value map. (ok tt, Dict.insert key value map);
  delete = λ key map. (ok tt, Dict.erase key map);
}

abbrev pub sync_state_key : String
sync_state_key = "syncState"

abbrev pub directory_handle_key : String
directory_handle_key = "directoryHandle"

module _ {D : Type 0} where
  -- The casts of `get<T>` are unchecked. A value of the other kind, which no code stores under
  -- these keys, is read as absent.
  abbrev pub as_sync_state : Option (Value D) → Option SyncState
  as_sync_state none = none
  as_sync_state (some (sync_state s)) = some s
  as_sync_state (some (directory_handle d)) = none

  abbrev pub as_directory_handle : Option (Value D) → Option D
  as_directory_handle none = none
  as_directory_handle (some (sync_state s)) = none
  as_directory_handle (some (directory_handle d)) = some d

abbrev pub or_empty : Option SyncState → SyncState
or_empty none = empty_sync_state
or_empty (some s) = s

-- `previous ? await previous.isSameEntry(handle) : false`
abbrev pub same_folder : {D : Type 0} → (D → D → Result Bool) → Option D → D → Result Bool
same_folder is_same_entry none handle = ok false
same_folder is_same_entry (some previous) handle = is_same_entry previous handle

module _ {S D : Type 0} (store : KvStore S D) where
  unfoldable pub load_sync_state : M S SyncState
  load_sync_state = do value ← store.get sync_state_key; pure (or_empty (as_sync_state value))

  unfoldable pub save_sync_state : SyncState → M S (Unit {0})
  save_sync_state state = store.set sync_state_key (sync_state state)

  unfoldable pub load_directory_handle : M S (Option D)
  load_directory_handle = do
    value ← store.get directory_handle_key
    pure (as_directory_handle value)

  unfoldable pub save_directory_handle : D → M S (Unit {0})
  save_directory_handle handle = store.set directory_handle_key (directory_handle handle)

  abbrev start_fresh : M S SyncState
  start_fresh = do save_sync_state empty_sync_state; pure empty_sync_state

  module _ (is_same_entry : D → D → Result Bool) where
    unfoldable pub select_directory : D → M S SyncState
    unfolding load_directory_handle save_directory_handle load_sync_state save_sync_state
    select_directory handle = do
      previous ← load_directory_handle
      is_same_folder ← of_result (same_folder is_same_entry previous handle)
      save_directory_handle handle
      if is_same_folder then load_sync_state else start_fresh
