-- ===== src/Sync/Storage/Folder.antt =====
-- `saveSyncState`, `loadSyncState` and `selectDirectory` of frontend/src/sync/storage.ts, over the
-- memory store.
use file_space.Base.{Bool, true, false, Option, some, ◌≡◌, refl}
use file_space.Base.Dict
use file_space.Base.Dict.{Dict}
use file_space.Base.Effect.{Result, ok, err}
use file_space.Sync.Storage.{
  SyncState, empty_sync_state, Value, sync_state_key, directory_handle_key, create_memory_kv_store,
  as_sync_state, as_directory_handle, or_empty, load_sync_state, select_directory,
}

module _ {D : Type 0} where
  -- What the store says of the sync state and of the folder.
  abbrev pub stored_state : Dict (Value D) → SyncState
  stored_state map = or_empty (as_sync_state (Dict.lookup sync_state_key map))

  abbrev pub stored_handle : Dict (Value D) → Option D
  stored_handle map = as_directory_handle (Dict.lookup directory_handle_key map)

  abbrev load : Dict (Value D) → Result SyncState × Dict (Value D)
  load = load_sync_state create_memory_kv_store

  load_lem : (map : Dict (Value D)) → load map ≡ (ok (stored_state map), map)
  unfolding load_sync_state create_memory_kv_store
  load_lem map = refl

  module _ (is_same_entry : D → D → Result Bool) where
    abbrev pub select : D → Dict (Value D) → Result SyncState × Dict (Value D)
    select = select_directory create_memory_kv_store is_same_entry

    -- The result of a choice, by what the comparison with the folder before has said.
    abbrev pub IsSelected :
        D → Dict (Value D) → Result Bool → Result SyncState × Dict (Value D) → Type 0
    IsSelected handle map (err e) (r, after) = (r ≡ err e) × (after ≡ map)
    IsSelected handle map (ok true) (r, after) =
        (r ≡ ok (stored_state map))
        × (stored_state after ≡ stored_state map)
        × (stored_handle after ≡ some handle)
    IsSelected handle map (ok false) (r, after) =
        (r ≡ ok empty_sync_state)
        × (stored_state after ≡ empty_sync_state)
        × (stored_handle after ≡ some handle)
