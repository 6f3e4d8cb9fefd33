-- ===== src/Sync/Storage/IndexedDb/Choice.antt =====
-- `selectDirectory` of frontend/src/sync/storage.ts over IndexedDB, where each store may fail.
use file_space.Base.{Bool, true, false, Option, ◌≡◌, sym, ap, if◌then◌else◌}
use file_space.Base.Dict
use file_space.Base.Dict.{Dict}
use file_space.Base.Effect.{Result, ok, err, Exception, M, bind_result, ◌>>◌}
use file_space.Base.Effect.Logic.{ok_injective}
use file_space.Sync.Storage.{
  SyncState, Value, KvStore, create_memory_kv_store, directory_handle, sync_state,
  directory_handle_key, sync_state_key, select_directory, or_empty, as_sync_state,
  as_directory_handle, same_folder, start_fresh, load_sync_state, save_sync_state,
  load_directory_handle, save_directory_handle, empty_sync_state,
}
use file_space.Sync.Storage.IndexedDb.{Database, IsDatabase, IndexedDb, indexed_db_store}
use file_space.Sync.Storage.IndexedDb.Refinement.{
  IsRefined, replied, thrown, get-IsRefined, set-IsRefined,
}

module _ {W D : Type 0} (database : Database W D) (contents : W → Dict (Value D))
    (laws : IsDatabase database contents) where
  -- The ends of a choice of a folder: that of the store in memory; an exception with the contents as
  -- they were; or an exception with the new folder stored next to the old sync state.
  pub data IsChosen (before : Dict (Value D)) (handle : D)
      (memory : Result SyncState × Dict (Value D)) : Result SyncState × IndexedDb W → Type 0 where
    chosen :
        (r : SyncState) (s : IndexedDb W)
        → memory ≡ (ok r, contents s.world)
        → IsChosen before handle memory (ok r, s)
    unchanged :
        (e : Exception) (s : IndexedDb W)
        → contents s.world ≡ before
        → IsChosen before handle memory (err e, s)
    half_done :
        (e : Exception) (s : IndexedDb W)
        → contents s.world ≡ Dict.insert directory_handle_key (directory_handle handle) before
        → IsChosen before handle memory (err e, s)

  module _ (handle : D) (before : Dict (Value D)) where
    abbrev after_handle : Dict (Value D)
    after_handle = Dict.insert directory_handle_key (directory_handle handle) before

    loaded :
        (out : Result (Option (Value D)) × IndexedDb W)
        → IsRefined database contents laws after_handle
            (ok (Dict.lookup sync_state_key after_handle), after_handle)
            out
        → IsChosen before handle
            (ok (or_empty (as_sync_state (Dict.lookup sync_state_key after_handle))), after_handle)
            (bind_result out.0 (λ value s. (ok (or_empty (as_sync_state value)), s)) out.1)
    loaded out (replied a s e) = chosen (or_empty (as_sync_state a)) s (
        ap
          (λ (r : Result (Option (Value D)) × Dict (Value D)).
            (bind_result r.0 (λ value m. (ok (or_empty (as_sync_state value)), m)) r.1))
          e)
    loaded out (thrown x s e) = half_done x s e

    reset :
        (out : Result (Unit {0}) × IndexedDb W)
        → IsRefined database contents laws after_handle
            (ok tt, Dict.insert sync_state_key (sync_state empty_sync_state) after_handle)
            out
        → IsChosen before handle
            (
              ok empty_sync_state,
              Dict.insert sync_state_key (sync_state empty_sync_state) after_handle,
            )
            (bind_result out.0 (λ u s. (ok empty_sync_state, s)) out.1)
    reset out (replied a s e) =
        chosen empty_sync_state s
          (ap (λ (r : Result (Unit {0}) × Dict (Value D)). (ok empty_sync_state, r.1)) e)
    reset out (thrown x s e) = half_done x s e

    -- What follows the comparison of the folders and the store of the handle.
    abbrev rest : {S : Type 0} → KvStore S D → Bool → M S SyncState
    rest store flag = if flag then load_sync_state store else start_fresh store

    rest-IsChosen :
        (flag : Bool) (s : IndexedDb W)
        → contents s.world ≡ after_handle
        → IsChosen before handle
            (rest create_memory_kv_store flag after_handle)
            (rest (indexed_db_store database) flag s)
    unfolding load_sync_state save_sync_state create_memory_kv_store
    rest-IsChosen true s e =
        loaded ((indexed_db_store database).get sync_state_key s)
          (rw e at (get-IsRefined database contents laws sync_state_key s))
    rest-IsChosen false s e =
        reset ((indexed_db_store database).set sync_state_key (sync_state empty_sync_state) s) (
          rw e at
            (set-IsRefined database contents laws sync_state_key (sync_state empty_sync_state) s))

    placed :
        (flag : Bool) (out : Result (Unit {0}) × IndexedDb W)
        → IsRefined database contents laws before (ok tt, after_handle) out
        → IsChosen before handle
            (rest create_memory_kv_store flag after_handle)
            (bind_result out.0 (λ u. rest (indexed_db_store database) flag) out.1)
    placed flag out (replied a s e) =
        rest-IsChosen flag s (sym (ap (λ (r : Result (Unit {0}) × Dict (Value D)). r.1) e))
    placed flag out (thrown x s e) = unchanged x s e

    abbrev store_handle : {S : Type 0} → KvStore S D → Bool → M S SyncState
    store_handle store flag = save_directory_handle store handle >> rest store flag

    compared :
        (r : Result Bool) (s : IndexedDb W)
        → contents s.world ≡ before
        → IsChosen before handle
            (bind_result r (store_handle create_memory_kv_store) before)
            (bind_result r (store_handle (indexed_db_store database)) s)
    unfolding save_directory_handle create_memory_kv_store
    compared (err x) s e = unchanged x s e
    compared (ok flag) s e =
        placed flag
          ((indexed_db_store database).set directory_handle_key (directory_handle handle) s)
          (rw e at
            (set-IsRefined database contents laws directory_handle_key (directory_handle handle) s))

    module _ (is_same_entry : D → D → Result Bool) where
      read :
          (out : Result (Option (Value D)) × IndexedDb W)
          → IsRefined database contents laws before
              (ok (Dict.lookup directory_handle_key before), before)
              out
          → IsChosen before handle
              (bind_result
                (same_folder is_same_entry
                  (as_directory_handle (Dict.lookup directory_handle_key before))
                  handle)
                (store_handle create_memory_kv_store)
                before)
              (bind_result
                (bind_result out.0 (λ value s. (ok (as_directory_handle value), s)) out.1).0
                (λ previous s.
                  bind_result
                    (same_folder is_same_entry previous handle)
                    (store_handle (indexed_db_store database))
                    s)
                (bind_result out.0 (λ value s. (ok (as_directory_handle value), s)) out.1).1)
      read out (thrown x s e) = unchanged x s e
      read out (replied a s e) =
          rw (ok_injective (ap (λ (r : Result (Option (Value D)) × Dict (Value D)). r.0) e)) (
            compared (same_folder is_same_entry (as_directory_handle a) handle) s
              (sym (ap (λ (r : Result (Option (Value D)) × Dict (Value D)). r.1) e)))

  -- A choice of a folder with the IndexedDB store ends as with the store in memory over the same
  -- contents, or it throws. Then the contents are as before, or the new folder is stored and the
  -- sync state of the folder before it is still there.
  pub select_directory-IsChosen :
      (is_same_entry : D → D → Result Bool) (handle : D) (s : IndexedDb W)
      → IsChosen
          (contents s.world)
          handle
          (select_directory create_memory_kv_store is_same_entry handle (contents s.world))
          (select_directory (indexed_db_store database) is_same_entry handle s)
  unfolding select_directory load_directory_handle create_memory_kv_store
  select_directory-IsChosen is_same_entry handle s =
      read handle (contents s.world) is_same_entry
        ((indexed_db_store database).get directory_handle_key s)
        (get-IsRefined database contents laws directory_handle_key s)
