-- ===== src/Sync/Storage/IndexedDb/Reload.antt =====
-- `saveSyncState`, `loadSyncState` and `loadDirectoryHandle` of frontend/src/sync/storage.ts over
-- IndexedDB.
use file_space.Base.{String, Option, some, ◌≡◌, sym, ap, ◌∙◌, string_eq}
use file_space.Base.Dict
use file_space.Base.Dict.{Dict, lookup-insert}
use file_space.Base.Effect.{Result, ok}
use file_space.Base.Effect.Logic.{bind_result-eq-ok, ok_injective}
use file_space.Sync.Storage.{
  SyncState, Value, KvStore, sync_state, sync_state_key, directory_handle_key, as_sync_state,
  as_directory_handle, or_empty, load_sync_state, save_sync_state, load_directory_handle,
  create_memory_kv_store,
}
use file_space.Sync.Storage.IndexedDb.{Database, IsDatabase, IndexedDb, indexed_db_store}
use file_space.Sync.Storage.IndexedDb.Browser.{Browser, database_of}
use file_space.Sync.Storage.IndexedDb.Events.{IsBrowser, database_of-IsDatabase}
use file_space.Sync.Storage.IndexedDb.Refinement.{
  IsRefined, replied, thrown, get-IsRefined, set-IsRefined,
}

module _ {W D : Type 0} (database : Database W D) (contents : W → Dict (Value D))
    (laws : IsDatabase database contents) where
  -- What an operation that has returned says.
  returned :
      {A : Type 0} {before : Dict (Value D)} {memory : Result A × Dict (Value D)}
      (out : Result A × IndexedDb W) (a : A)
      → IsRefined database contents laws before memory out
      → out.0 ≡ ok a
      → memory ≡ (ok a, contents out.1.world)
  returned out a (replied b s e) h = e ∙ ap (λ r. (r, contents s.world)) h
  returned out a (thrown x s e) h = absurd (cc)

module _ {W D : Type 0} (browser : Browser W D) (contents : W → Dict (Value D))
    (laws : IsBrowser browser contents) where
  abbrev is_database : IsDatabase (database_of browser) contents
  is_database = database_of-IsDatabase browser contents laws

  abbrev store : KvStore (IndexedDb W) D
  store = indexed_db_store (database_of browser)

  abbrev saved : SyncState → IndexedDb W → Result (Unit {0}) × IndexedDb W
  saved state s = save_sync_state store state s

  saved-contents :
      (state : SyncState) (s : IndexedDb W)
      → (saved state s).0 ≡ ok tt
      → contents (saved state s).1.world
        ≡ Dict.insert sync_state_key (sync_state state) (contents s.world)
  unfolding save_sync_state create_memory_kv_store
  saved-contents state s e = sym (
      ap (λ (r : Result (Unit {0}) × Dict (Value D)). r.1)
        (returned (database_of browser) contents is_database (saved state s) tt
          (set-IsRefined (database_of browser) contents is_database sync_state_key
            (sync_state state) s)
          e))

  got-lookup :
      (key : String) (s : IndexedDb W) (value : Option (Value D))
      → (store.get key s).0 ≡ ok value
      → Dict.lookup key (contents s.world) ≡ value
  unfolding create_memory_kv_store
  got-lookup key s value e = ok_injective (
      ap (λ (r : Result (Option (Value D)) × Dict (Value D)). r.0)
        (returned (database_of browser) contents is_database (store.get key s) value
          (get-IsRefined (database_of browser) contents is_database key s) e))

  -- Over the IndexedDB store: once a save of the sync state has returned, a load that returns gives
  -- that state, and a load of the folder that returns gives the folder stored before the save. The
  -- browser's transactions change the object store just when they fire `complete`, and fire no
  -- `complete` when they fire `error`.
  pub load-save :
      (state : SyncState) (s : IndexedDb W) (r : SyncState) (d : Option D)
      → (save_sync_state store state s).0 ≡ ok tt
      → (load_sync_state store (save_sync_state store state s).1).0 ≡ ok r
      → (load_directory_handle store (save_sync_state store state s).1).0 ≡ ok d
      → (r ≡ state)
        × (d ≡ as_directory_handle (Dict.lookup directory_handle_key (contents s.world)))
  unfolding load_sync_state load_directory_handle string_eq
  load-save state s r d done loaded found =
      let after = (saved state s).1 in
      let (value, got, e) = bind_result-eq-ok (store.get sync_state_key after).0 _ _ loaded in
      let (item, taken, e') =
        bind_result-eq-ok (store.get directory_handle_key after).0 _ _ found in
      let kept = saved-contents state s done in
      let value_eq : value ≡ some (sync_state state) =
        sym (got-lookup sync_state_key after value got)
        ∙ ap (Dict.lookup sync_state_key) kept
        ∙ lookup-insert sync_state_key sync_state_key (sync_state state) (contents s.world) in
      let item_eq : item ≡ Dict.lookup directory_handle_key (contents s.world) =
        sym (got-lookup directory_handle_key after item taken)
        ∙ ap (Dict.lookup directory_handle_key) kept
        ∙ lookup-insert directory_handle_key sync_state_key (sync_state state) (contents s.world) in
      (
        sym (ok_injective e) ∙ ap (λ v. or_empty (as_sync_state v)) value_eq,
        sym (ok_injective e') ∙ ap as_directory_handle item_eq,
      )
