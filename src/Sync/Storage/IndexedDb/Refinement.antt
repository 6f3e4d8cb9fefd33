-- ===== src/Sync/Storage/IndexedDb/Refinement.antt =====
-- The store over IndexedDB against the store in memory.
use file_space.Sync.Storage.IndexedDb.Browser.{
  Browser, database_of, put_value, store_name, request_success, abort, never_settles,
}
use file_space.Sync.Storage.IndexedDb.Events.{IsBrowser, database_of-IsDatabase}
use file_space.Base.{String, some, [], ◌∷◌, ◌≡◌, refl, sym, ap, inl, inr, Option-cases}
use file_space.Base.Dict
use file_space.Base.Dict.{Dict}
use file_space.Base.Effect.{Result, ok, err, Exception, Result-cases, M, ◌>>◌}
use file_space.Sync.Storage.{Value, KvStore, create_memory_kv_store}
use file_space.Sync.Storage.IndexedDb.{
  Database, IsDatabase, IndexedDb, db, on_world, indexed_db_store,
}

module _ {W D : Type 0} (database : Database W D) (contents : W → Dict (Value D))
    (laws : IsDatabase database contents) where
  -- An operation has replied as in memory and has changed the contents in the same way, or it has
  -- thrown and changed nothing.
  pub data IsRefined {A : Type 0} (before : Dict (Value D)) (memory : Result A × Dict (Value D))
      : Result A × IndexedDb W → Type 0 where
    replied :
        (a : A) (s : IndexedDb W)
        → memory ≡ (ok a, contents s.world)
        → IsRefined before memory (ok a, s)
    thrown :
        (e : Exception) (s : IndexedDb W)
        → contents s.world ≡ before
        → IsRefined before memory (err e, s)

  db-contents : (s : IndexedDb W) → contents (db database s).1.world ≡ contents s.world
  unfolding db
  db-contents s = elim (Option-cases s.db_promise) [
    | inl e ↦ rw e (laws.open_db-contents s.world)
    | inr (r, e) ↦ rw e refl
  ]

  -- An operation runs on the database once it is open.
  after_db :
      {A : Type 0} (m : M W A) (memory : Dict (Value D) → Result A × Dict (Value D))
      → ((s : IndexedDb W)
          → IsRefined (contents s.world) (memory (contents s.world)) (on_world database m s))
      → (s : IndexedDb W)
      → IsRefined
          (contents s.world)
          (memory (contents s.world))
          ((db database >> on_world database m) s)
  after_db m memory refined s = elim (Result-cases (db database s).0) [
    | inr (e, failed) ↦ rw failed (thrown e (db database s).1 (db-contents s))
    | inl (u, opened) ↦ rw (opened, sym (db-contents s)) (refined (db database s).1)
  ]

  pub get-IsRefined :
      (key : String) (s : IndexedDb W)
      → IsRefined
          (contents s.world)
          (create_memory_kv_store.get key (contents s.world))
          ((indexed_db_store database).get key s)
  unfolding create_memory_kv_store indexed_db_store
  get-IsRefined key =
      after_db (database.get key) (λ map. (ok (Dict.lookup key map), map))
        (λ s. elim (Result-cases (database.get key s.world).0) [
          | inl (value, e) ↦ rw e (
              replied value (on_world database (database.get key) s).1 (
                rw (sym (laws.get-lookup key s.world value e), laws.get-contents key s.world) refl))
          | inr (x, e) ↦
              rw e (
                thrown x (on_world database (database.get key) s).1 (laws.get-contents key s.world))
        ])

  pub set-IsRefined :
      (key : String) (value : Value D) (s : IndexedDb W)
      → IsRefined
          (contents s.world)
          (create_memory_kv_store.set key value (contents s.world))
          ((indexed_db_store database).set key value s)
  unfolding create_memory_kv_store indexed_db_store
  set-IsRefined key value =
      after_db (database.put key value) (λ map. (ok tt, Dict.insert key value map))
        (λ s. elim (Result-cases (database.put key value s.world).0) [
          | inl (u, e) ↦ rw e (
              replied u (on_world database (database.put key value) s).1
                (ap (λ map. (ok tt, map)) (sym (laws.put_completed key value s.world e))))
          | inr (x, e) ↦ rw e (
              thrown x (on_world database (database.put key value) s).1
                (laws.put_aborted key value s.world x e))
        ])

  delete-IsRefined :
      (key : String) (s : IndexedDb W)
      → IsRefined
          (contents s.world)
          (create_memory_kv_store.delete key (contents s.world))
          ((indexed_db_store database).delete key s)
  unfolding create_memory_kv_store indexed_db_store
  delete-IsRefined key =
      after_db (database.delete key) (λ map. (ok tt, Dict.erase key map))
        (λ s. elim (Result-cases (database.delete key s.world).0) [
          | inl (u, e) ↦ rw e (
              replied u (on_world database (database.delete key) s).1
                (ap (λ map. (ok tt, map)) (sym (laws.delete_completed key s.world e))))
          | inr (x, e) ↦ rw e (
              thrown x (on_world database (database.delete key) s).1
                (laws.delete_aborted key s.world x e))
        ])

  refined :
      (key : String) (value : Value D) (s : IndexedDb W)
      → let store = indexed_db_store database in
        let memory : KvStore (Dict (Value D)) D = create_memory_kv_store in
        let before = contents s.world in
        IsRefined before (memory.get key before) (store.get key s)
        × IsRefined before (memory.set key value before) (store.set key value s)
        × IsRefined before (memory.delete key before) (store.delete key s)
  refined key value s = (get-IsRefined key s, set-IsRefined key value s, delete-IsRefined key s)

module _ {W D : Type 0} (browser : Browser W D) (contents : W → Dict (Value D))
    (laws : IsBrowser browser contents) where
  abbrev pub IsRefinedBy :
      {A : Type 0} → Dict (Value D) → Result A × Dict (Value D) → Result A × IndexedDb W → Type 0
  IsRefinedBy =
      IsRefined (database_of browser) contents (database_of-IsDatabase browser contents laws)

  -- The IndexedDB store, on a browser whose transactions change the object store just when they fire
  -- `complete`, and fire no `complete` when they fire `error`. Each operation, run at any state of
  -- the database, replies as the store in memory over the same contents does and changes the
  -- contents in the same way, or it throws or never settles, and changes nothing. Once opening the
  -- database has failed, every operation throws that failure again and leaves the store as it is. A
  -- store on an open database whose transaction aborts without an `error` event never settles.
  pub indexed_db_store-IsRefined :
      (key : String) (value : Value D) (s : IndexedDb W)
      → let store = indexed_db_store (database_of browser) in
        let memory : KvStore (Dict (Value D)) D = create_memory_kv_store in
        let before = contents s.world in
        IsRefinedBy before (memory.get key before) (store.get key s)
        × IsRefinedBy before (memory.set key value before) (store.set key value s)
        × IsRefinedBy before (memory.delete key before) (store.delete key s)
        × ((e : Exception)
            → s.db_promise ≡ some (err e)
            → (store.get key s ≡ (err e, s))
              × (store.set key value s ≡ (err e, s))
              × (store.delete key s ≡ (err e, s)))
        × (s.db_promise ≡ some (ok tt)
            → (browser.put store_name key value s.world).0 ≡ request_success ∷ abort ∷ []
            → (store.set key value s).0 ≡ err never_settles)
  unfolding indexed_db_store db put_value
  indexed_db_store-IsRefined key value s =
      let (got, set, deleted) =
        refined (database_of browser) contents (database_of-IsDatabase browser contents laws) key
          value s in
      (
        got,
        set,
        deleted,
        (λ e failed. (rw failed refl, rw failed refl, rw failed refl)),
        (λ opened aborted. rw (opened, aborted) refl),
      )
