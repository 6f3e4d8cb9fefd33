-- ===== src/Sync/Storage/IndexedDb/Browser.antt =====
-- `openDB` and the promises of `IndexedDBStore`, frontend/src/sync/storage.ts: what their handlers
-- make of the events that the browser fires. The browser is a parameter.
use file_space.Base.{ℕ, String, Option, none, some, List, [], ◌∷◌, ◌<>◌}
use file_space.Base.Effect.{Result, ok, err, error, Exception, M}
use file_space.Sync.Storage.{Value}
use file_space.Sync.Storage.IndexedDb.{Database}

-- The events of an open request, of another request, and of a transaction with one request.
pub data OpenEvent : Type 0 where
  upgrade_needed : OpenEvent
  open_success : OpenEvent
  open_error : Option Exception → OpenEvent

pub data RequestEvent (A : Type 0) : Type 0 where
  success : A → RequestEvent A
  request_error : Option Exception → RequestEvent A

pub data TransactionEvent : Type 0 where
  request_success : TransactionEvent
  complete : TransactionEvent
  transaction_error : Option Exception → TransactionEvent
  abort : TransactionEvent

-- Each call tells the events that follow it, in their order.
pub record Browser (W D : Type 0) : Type 0 where
  pub open_db : (name : String) (version : ℕ) → W → List OpenEvent × W
  pub create_object_store : (name : String) → W → W
  pub get : (store_name key : String) → W → List (RequestEvent (Option (Value D))) × W
  pub put : (store_name key : String) → Value D → W → List TransactionEvent × W
  pub delete : (store_name key : String) → W → List TransactionEvent × W

pub data Promise (A : Type 0) : Type 0 where
  pending : Promise A
  settled : Result A → Promise A

-- The first call of `resolve` or `reject` counts.
abbrev pub settle : {A : Type 0} → Result A → Promise A → Promise A
settle r pending = settled r
settle r (settled q) = settled q

-- What awaits a promise that never settles does not go on. The last exception of an operation
-- stands for this too; the code between here and its callers catches none.
abbrev pub never_settles : Exception
never_settles = error "the promise never settles"

abbrev pub awaited : {A : Type 0} → Promise A → Result A
awaited pending = err never_settles
awaited (settled r) = r

-- `request.error ?? new Error(message)`
abbrev pub or_error : String → Option Exception → Exception
or_error message none = error message
or_error message (some e) = e

abbrev pub db_name : String
db_name = "filespace-sync"

abbrev pub db_version : ℕ
db_version = 1

abbrev pub store_name : String
store_name = "kv"

-- The handlers of `get`.
abbrev pub on_request : {A : Type 0} → String → List (RequestEvent A) → Promise A → Promise A
on_request message [] p = p
on_request message (success value ∷ events) p = on_request message events (settle (ok value) p)
on_request message (request_error e ∷ events) p =
    on_request message events (settle (err (or_error message e)) p)

-- The handlers of `set` and `delete`: there is none for the success of the request, and none for
-- the abort of the transaction.
abbrev pub on_transaction : String → List TransactionEvent → Promise (Unit {0}) → Promise (Unit {0})
on_transaction message [] p = p
on_transaction message (request_success ∷ events) p = on_transaction message events p
on_transaction message (complete ∷ events) p = on_transaction message events (settle (ok tt) p)
on_transaction message (transaction_error e ∷ events) p =
    on_transaction message events (settle (err (or_error message e)) p)
on_transaction message (abort ∷ events) p = on_transaction message events p

module _ {W D : Type 0} (browser : Browser W D) where
  -- The handlers of `openDB`.
  abbrev pub on_open : List OpenEvent → Promise (Unit {0}) → W → Promise (Unit {0}) × W
  on_open [] p w = (p, w)
  on_open (upgrade_needed ∷ events) p w =
      on_open events p (browser.create_object_store store_name w)
  on_open (open_success ∷ events) p w = on_open events (settle (ok tt) p) w
  on_open (open_error e ∷ events) p w =
      on_open events (settle (err (or_error "failed to open IndexedDB" e)) p) w

  unfoldable pub open_db : M W (Unit {0})
  open_db w =
      let (events, w') = browser.open_db db_name db_version w in
      let (p, w'') = on_open events pending w' in (awaited p, w'')

  unfoldable pub get_value : String → M W (Option (Value D))
  get_value key w =
      let (events, w') = browser.get store_name key w in
      (awaited (on_request ("failed to read " <> key) events pending), w')

  unfoldable pub put_value : String → Value D → M W (Unit {0})
  put_value key value w =
      let (events, w') = browser.put store_name key value w in
      (awaited (on_transaction ("failed to write " <> key) events pending), w')

  unfoldable pub delete_value : String → M W (Unit {0})
  delete_value key w =
      let (events, w') = browser.delete store_name key w in
      (awaited (on_transaction ("failed to delete " <> key) events pending), w')

  abbrev pub database_of : Database W D
  database_of = record {
    open_db = open_db;
    get = get_value;
    put = put_value;
    delete = delete_value;
  }
