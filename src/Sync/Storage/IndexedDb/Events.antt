-- ===== src/Sync/Storage/IndexedDb/Events.antt =====
-- What the promises of `IndexedDBStore` promise, given what IndexedDB documents of its events.
use mathlib.Core.List.{Memᴰ}
use file_space.Base.{String, Option, List, [], ◌∷◌, ◌≡◌, refl, sym, ap, ◌∙◌}
use file_space.Base.Dict
use file_space.Base.Dict.{Dict}
use file_space.Base.Effect.{Result, ok, err, Exception}
use file_space.Base.Effect.Logic.{ok_injective}
use file_space.Sync.Storage.{Value}
use file_space.Sync.Storage.IndexedDb.{IsDatabase}
use file_space.Sync.Storage.IndexedDb.Browser.{
  OpenEvent, upgrade_needed, open_success, open_error, RequestEvent, success, request_error,
  TransactionEvent, request_success, complete, transaction_error, abort, Browser, Promise, pending,
  settled, awaited, on_request, on_transaction, on_open, open_db, get_value, put_value,
  delete_value, database_of, store_name, db_name, db_version,
}

-- A transaction changes the store if it fires `complete`, and only then; one that fires `error` does
-- not fire `complete`. The success of its request says nothing of either.
pub record IsTransaction {D : Type 0} (events : List TransactionEvent)
    (before after target : Dict (Value D)) : Type 0 where
  pub committed : Memᴰ complete events → after ≡ target
  pub uncommitted : ¬ Memᴰ complete events → after ≡ before
  pub failed : (e : Option Exception) → Memᴰ (transaction_error e) events → ¬ Memᴰ complete events

-- The events of IndexedDB, with `contents` for what the object store holds.
pub record IsBrowser {W D : Type 0} (browser : Browser W D) (contents : W → Dict (Value D))
    : Type 0 where
  pub open_db-contents : (w : W) → contents (browser.open_db db_name db_version w).1 ≡ contents w
  pub create-contents : (w : W) → contents (browser.create_object_store store_name w) ≡ contents w
  pub get-contents : (key : String) (w : W) → contents (browser.get store_name key w).1 ≡ contents w
  pub get-lookup :
      (key : String) (w : W) (value : Option (Value D))
      → Memᴰ (success value) (browser.get store_name key w).0
      → value ≡ Dict.lookup key (contents w)
  pub put-IsTransaction :
      (key : String) (value : Value D) (w : W)
      → IsTransaction
          (browser.put store_name key value w).0
          (contents w)
          (contents (browser.put store_name key value w).1)
          (Dict.insert key value (contents w))
  pub delete-IsTransaction :
      (key : String) (w : W)
      → IsTransaction
          (browser.delete store_name key w).0
          (contents w)
          (contents (browser.delete store_name key w).1)
          (Dict.erase key (contents w))

later :
    (event : TransactionEvent) (events : List TransactionEvent)
    → ((e : Option Exception)
        → Memᴰ (transaction_error e) (event ∷ events)
        → ¬ Memᴰ complete (event ∷ events))
    → (e : Option Exception) → Memᴰ (transaction_error e) events
    → ¬ Memᴰ complete events
later event events failed e m c = failed e (Memᴰ.tail m) (Memᴰ.tail c)

module _ (message : String) where
  -- A promise settles once.
  request_settled :
      {A : Type 0} (events : List (RequestEvent A)) (r : Result A)
      → on_request message events (settled r) ≡ settled r
  request_settled [] r = refl
  request_settled (success a ∷ events) r = request_settled events r
  request_settled (request_error e ∷ events) r = request_settled events r

  transaction_settled :
      (events : List TransactionEvent) (r : Result (Unit {0}))
      → on_transaction message events (settled r) ≡ settled r
  transaction_settled [] r = refl
  transaction_settled (request_success ∷ events) r = transaction_settled events r
  transaction_settled (complete ∷ events) r = transaction_settled events r
  transaction_settled (transaction_error e ∷ events) r = transaction_settled events r
  transaction_settled (abort ∷ events) r = transaction_settled events r

  request-success :
      {A : Type 0} (events : List (RequestEvent A)) (value : A)
      → awaited (on_request message events pending) ≡ ok value
      → Memᴰ (success value) events
  request-success [] value e = absurd (cc)
  request-success (success a ∷ events) value e =
      Memᴰ.head
        (ap success (sym (ok_injective (sym (ap awaited (request_settled events (ok a))) ∙ e))))
  request-success (request_error x ∷ events) value e =
      absurd (let same = sym (ap awaited (request_settled events _)) ∙ e in cc)

  transaction-complete :
      (events : List TransactionEvent)
      → awaited (on_transaction message events pending) ≡ ok tt
      → Memᴰ complete events
  transaction-complete [] e = absurd (cc)
  transaction-complete (request_success ∷ events) e = Memᴰ.tail (transaction-complete events e)
  transaction-complete (complete ∷ events) e = Memᴰ.head refl
  transaction-complete (transaction_error x ∷ events) e =
      absurd (let same = sym (ap awaited (transaction_settled events _)) ∙ e in cc)
  transaction-complete (abort ∷ events) e = Memᴰ.tail (transaction-complete events e)

  -- A transaction whose promise does not resolve does not complete.
  transaction-incomplete :
      (events : List TransactionEvent) (x : Exception)
      → ((e : Option Exception) → Memᴰ (transaction_error e) events → ¬ Memᴰ complete events)
      → awaited (on_transaction message events pending) ≡ err x
      → ¬ Memᴰ complete events
  transaction-incomplete [] x failed e m = absurd (elim m [ ])
  transaction-incomplete (request_success ∷ events) x failed e (Memᴰ.head same) = absurd (cc)
  transaction-incomplete (request_success ∷ events) x failed e (Memᴰ.tail m) =
      transaction-incomplete events x (later request_success events failed) e m
  transaction-incomplete (complete ∷ events) x failed e m =
      absurd (let same = sym (ap awaited (transaction_settled events (ok tt))) ∙ e in cc)
  transaction-incomplete (transaction_error y ∷ events) x failed e m = failed y (Memᴰ.head refl) m
  transaction-incomplete (abort ∷ events) x failed e (Memᴰ.head same) = absurd (cc)
  transaction-incomplete (abort ∷ events) x failed e (Memᴰ.tail m) =
      transaction-incomplete events x (later abort events failed) e m

module _ {W D : Type 0} (browser : Browser W D) (contents : W → Dict (Value D))
    (laws : IsBrowser browser contents) where
  on_open-contents :
      (events : List OpenEvent) (p : Promise (Unit {0})) (w : W)
      → contents (on_open browser events p w).1 ≡ contents w
  on_open-contents [] p w = refl
  on_open-contents (upgrade_needed ∷ events) p w =
      on_open-contents events p (browser.create_object_store store_name w) ∙ laws.create-contents w
  on_open-contents (open_success ∷ events) p w = on_open-contents events _ w
  on_open-contents (open_error e ∷ events) p w = on_open-contents events _ w

  -- The promises are those of a database.
  pub database_of-IsDatabase : IsDatabase (database_of browser) contents
  unfolding open_db get_value put_value delete_value
  database_of-IsDatabase = record {
    open_db-contents = λ w.
        on_open-contents (browser.open_db db_name db_version w).0 pending _
        ∙ laws.open_db-contents w;
    get-contents = laws.get-contents;
    get-lookup = λ key w value e. laws.get-lookup key w value (request-success _ _ value e);
    put_completed = λ key value w e.
        (laws.put-IsTransaction key value w).committed (transaction-complete _ _ e);
    put_aborted = λ key value w x e.
        let t = laws.put-IsTransaction key value w in
        t.uncommitted (transaction-incomplete _ _ x t.failed e);
    delete_completed =
        λ key w e. (laws.delete-IsTransaction key w).committed (transaction-complete _ _ e);
    delete_aborted = λ key w x e.
        let t = laws.delete-IsTransaction key w in
        t.uncommitted (transaction-incomplete _ _ x t.failed e);
  }
