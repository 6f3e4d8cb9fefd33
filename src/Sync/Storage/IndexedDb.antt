-- ===== src/Sync/Storage/IndexedDb.antt =====
-- `IndexedDBStore` of frontend/src/sync/storage.ts, over a database of the browser.
pub mod Browser
pub mod Events
pub mod Refinement
pub mod Choice
pub mod Reload
use file_space.Base.{String, Option, none, some, ◌≡◌}
use file_space.Base.Dict
use file_space.Base.Dict.{Dict}
use file_space.Base.Effect.{Result, ok, err, Exception, M, ◌>>◌}
use file_space.Sync.Storage.{Value, KvStore}

-- The promises of `openDB`, `get`, `set` and `delete`, each in its own transaction: Browser has them
-- from the events of the browser.
pub record Database (W D : Type 0) : Type 0 where
  pub open_db : M W (Unit {0})
  pub get : String → M W (Option (Value D))
  pub put : String → Value D → M W (Unit {0})
  pub delete : String → M W (Unit {0})

-- What these promises come to, with `contents` for what the object store holds: Events proves it from
-- the events.
pub record IsDatabase {W D : Type 0} (database : Database W D) (contents : W → Dict (Value D))
    : Type 0 where
  pub open_db-contents : (w : W) → contents (database.open_db w).1 ≡ contents w
  pub get-contents : (key : String) (w : W) → contents (database.get key w).1 ≡ contents w
  pub get-lookup :
      (key : String) (w : W) (value : Option (Value D))
      → (database.get key w).0 ≡ ok value
      → value ≡ Dict.lookup key (contents w)
  pub put_completed :
      (key : String) (value : Value D) (w : W)
      → (database.put key value w).0 ≡ ok tt
      → contents (database.put key value w).1 ≡ Dict.insert key value (contents w)
  pub put_aborted :
      (key : String) (value : Value D) (w : W) (e : Exception)
      → (database.put key value w).0 ≡ err e
      → contents (database.put key value w).1 ≡ contents w
  pub delete_completed :
      (key : String) (w : W)
      → (database.delete key w).0 ≡ ok tt
      → contents (database.delete key w).1 ≡ Dict.erase key (contents w)
  pub delete_aborted :
      (key : String) (w : W) (e : Exception)
      → (database.delete key w).0 ≡ err e
      → contents (database.delete key w).1 ≡ contents w

-- The field `dbPromise` of the class, with what the promise comes to, and the database.
pub record IndexedDb (W : Type 0) : Type 0 where
  pub db_promise : Option (Result (Unit {0}))
  pub world : W

module _ {W D : Type 0} (database : Database W D) where
  abbrev db_of : Option (Result (Unit {0})) → M (IndexedDb W) (Unit {0})
  db_of (some r) s = (r, s)
  db_of none s =
      let opened = database.open_db s.world in
      (opened.0, record { db_promise = some opened.0; world = opened.1 })

  unfoldable pub db : M (IndexedDb W) (Unit {0})
  db s = db_of s.db_promise s

  abbrev pub on_world {ℓ} : {A : Type ℓ} → M W A → M (IndexedDb W) A
  on_world m s = ((m s.world).0, record s { world = (m s.world).1 })

  unfoldable pub indexed_db_store : KvStore (IndexedDb W) D
  unfolding db
  indexed_db_store = record {
    get = λ key. db >> on_world (database.get key);
    set = λ key value. db >> on_world (database.put key value);
    delete = λ key. db >> on_world (database.delete key);
  }
