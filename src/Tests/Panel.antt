-- ===== src/Tests/Panel.antt =====
-- The IndexedDB store over a small database, and the sync pane at concrete sizes and clicks.
use mathlib.Core.List.{Memᴰ}
use file_space.Base.{
  String, Bool, true, false, Option, List, none, some, [], ◌∷◌, ◌≡◌, refl, sym, ◌↔◌, string_eq,
  nat_eq, contains, Distinct,
}
use file_space.Base.Dict
use file_space.Base.Dict.{Dict}
use file_space.Base.Effect.{Exception, Result, ok, err, error}
use file_space.Base.Effect.Logic.{ok_injective}
use file_space.Sync.Panel.{byte_count, click, shown_log}
use file_space.Sync.Panel.Resolving.{Pane, Reachable, opened, clicked, Reachable-Distinct}
use file_space.Sync.Panel.Sizes.{IsCount, byte_count-IsCount}
use file_space.Sync.Storage.{
  Value, as_directory_handle, sync_state, directory_handle, directory_handle_key, empty_sync_state,
  create_memory_kv_store, select_directory, save_sync_state, load_sync_state, load_directory_handle,
}
use file_space.Sync.Storage.IndexedDb.{Database, IsDatabase, IndexedDb, indexed_db_store}
use file_space.Sync.Storage.IndexedDb.Browser.{
  Browser, database_of, open_db, get_value, put_value, upgrade_needed, open_success, success,
  TransactionEvent, request_success, complete, transaction_error, abort, never_settles,
}
use file_space.Sync.Storage.IndexedDb.Events.{IsTransaction, IsBrowser}
use file_space.Sync.Storage.IndexedDb.Choice.{IsChosen, select_directory-IsChosen}
use file_space.Tests.World.{state}
use file_space.Sync.Storage.IndexedDb.Reload.{load-save}
use file_space.Sync.Storage.IndexedDb.Refinement.{IsRefinedBy, indexed_db_store-IsRefined}

abbrev Items : Type 0
Items = Dict (Value String)

-- A database that refuses to store a sync state.
abbrev put_item : String → Value String → Items → Result (Unit {0}) × Items
put_item key (sync_state s) items = (err (error "quota exceeded"), items)
put_item key (directory_handle d) items = (ok tt, Dict.insert key (directory_handle d) items)

abbrev database : Database Items String
database = record {
  open_db = λ items. (ok tt, items);
  get = λ key items. (ok (Dict.lookup key items), items);
  put = put_item;
  delete = λ key items. (ok tt, Dict.erase key items);
}

abbrev contents : Items → Items
contents items = items

completed :
    (key : String) (value : Value String) (items : Items)
    → (put_item key value items).0 ≡ ok tt
    → (put_item key value items).1 ≡ Dict.insert key value items
completed key (sync_state s) items e = absurd (cc)
completed key (directory_handle d) items e = refl

aborted :
    (key : String) (value : Value String) (items : Items) (x : Exception)
    → (put_item key value items).0 ≡ err x
    → (put_item key value items).1 ≡ items
aborted key (sync_state s) items x e = refl
aborted key (directory_handle d) items x e = absurd (cc)

laws : IsDatabase database contents
laws = record {
  open_db-contents = λ w. refl;
  get-contents = λ key w. refl;
  get-lookup = λ key w value e. sym (ok_injective e);
  put_completed = completed;
  put_aborted = aborted;
  delete_completed = λ key w e. refl;
  delete_aborted = λ key w x e. absurd (cc);
}

abbrev fresh_db : IndexedDb Items
fresh_db = record { db_promise = none; world = [] }

-- A browser that refuses to store a sync state.
abbrev put_events : Value String → List TransactionEvent
put_events (sync_state s) = transaction_error (some (error "quota exceeded")) ∷ abort ∷ []
put_events (directory_handle d) = request_success ∷ complete ∷ []

abbrev put_items : String → Value String → Items → Items
put_items key (sync_state s) items = items
put_items key (directory_handle d) items = Dict.insert key (directory_handle d) items

abbrev browser : Browser Items String
browser = record {
  open_db = λ name version items. (upgrade_needed ∷ open_success ∷ [], items);
  create_object_store = λ name items. items;
  get = λ name key items. (success (Dict.lookup key items) ∷ [], items);
  put = λ name key value items. (put_events value, put_items key value items);
  delete = λ name key items. (request_success ∷ complete ∷ [], Dict.erase key items);
}

looked_up : {a b : Option (Value String)} → Memᴰ (success a) (success b ∷ []) → a ≡ b
looked_up (Memᴰ.head e) = cc
looked_up (Memᴰ.tail m) = absurd (elim m [ ])

is_complete : Memᴰ complete (request_success ∷ complete ∷ [])
is_complete = Memᴰ.tail (Memᴰ.head refl)

no_error : (e : Option Exception) → ¬ Memᴰ (transaction_error e) (request_success ∷ complete ∷ [])
no_error e (Memᴰ.head same) = absurd (cc)
no_error e (Memᴰ.tail (Memᴰ.head same)) = absurd (cc)
no_error e (Memᴰ.tail (Memᴰ.tail m)) = absurd (elim m [ ])

completing :
    {before : Items} (after : Items)
    → IsTransaction (request_success ∷ complete ∷ []) before after after
completing after = record {
  committed = λ m. refl;
  uncommitted = λ n. absurd (n is_complete);
  failed = λ e m. absurd (no_error e m);
}

incomplete : (e : Option Exception) → ¬ Memᴰ complete (transaction_error e ∷ abort ∷ [])
incomplete e (Memᴰ.head same) = absurd (cc)
incomplete e (Memᴰ.tail (Memᴰ.head same)) = absurd (cc)
incomplete e (Memᴰ.tail (Memᴰ.tail m)) = absurd (elim m [ ])

browser_laws : IsBrowser browser contents
browser_laws = record {
  open_db-contents = λ w. refl;
  create-contents = λ w. refl;
  get-contents = λ key w. refl;
  get-lookup = λ key w value m. looked_up m;
  put-IsTransaction = transaction;
  delete-IsTransaction = λ key w. completing (Dict.erase key w);
}
  where
    transaction :
        (key : String) (value : Value String) (w : Items)
        → IsTransaction (put_events value) w (put_items key value w) (Dict.insert key value w)
    transaction key (directory_handle d) w = completing (Dict.insert key (directory_handle d) w)
    transaction key (sync_state s) w = record {
      committed = λ m. absurd (incomplete (some (error "quota exceeded")) m);
      uncommitted = λ n. refl;
      failed = λ e m. incomplete (some (error "quota exceeded"));
    }

indexed_db_store-IsRefined_example :
    IsRefinedBy browser contents browser_laws []
      ((create_memory_kv_store {D = String}).get "syncState" [])
      ((indexed_db_store (database_of browser)).get "syncState" fresh_db)
    × IsRefinedBy browser contents browser_laws []
        (create_memory_kv_store.set "syncState" (sync_state empty_sync_state) [])
        ((indexed_db_store (database_of browser)).set "syncState"
          (sync_state empty_sync_state)
          fresh_db)
    × IsRefinedBy browser contents browser_laws []
        ((create_memory_kv_store {D = String}).delete "syncState" [])
        ((indexed_db_store (database_of browser)).delete "syncState" fresh_db)
    × ((e : Exception)
        → fresh_db.db_promise ≡ some (err e)
        → ((indexed_db_store (database_of browser)).get "syncState" fresh_db ≡ (err e, fresh_db))
          × ((indexed_db_store (database_of browser)).set "syncState"
                (sync_state empty_sync_state)
                fresh_db
              ≡ (err e, fresh_db))
          × ((indexed_db_store (database_of browser)).delete "syncState" fresh_db
              ≡ (err e, fresh_db)))
    × (fresh_db.db_promise ≡ some (ok tt)
        → put_events (sync_state empty_sync_state) ≡ request_success ∷ abort ∷ []
        → ((indexed_db_store (database_of browser)).set "syncState"
            (sync_state empty_sync_state)
            fresh_db).0
          ≡ err never_settles)
indexed_db_store-IsRefined_example =
    indexed_db_store-IsRefined browser contents browser_laws "syncState"
      (sync_state empty_sync_state) fresh_db

-- A browser that stores everything.
abbrev roomy_browser : Browser Items String
roomy_browser = record browser {
  put = λ name key value items. (request_success ∷ complete ∷ [], Dict.insert key value items);
}

roomy_laws : IsBrowser roomy_browser contents
roomy_laws = record {
  open_db-contents = λ w. refl;
  create-contents = λ w. refl;
  get-contents = λ key w. refl;
  get-lookup = λ key w value m. looked_up m;
  put-IsTransaction = λ key value w. completing (Dict.insert key value w);
  delete-IsTransaction = λ key w. completing (Dict.erase key w);
}

abbrev docs_db : IndexedDb Items
docs_db = record { db_promise = none; world = (directory_handle_key, directory_handle "docs") ∷ [] }

saves : (save_sync_state (indexed_db_store (database_of roomy_browser)) state docs_db).0 ≡ ok tt
unfolding save_sync_state indexed_db_store open_db put_value
saves = refl

loads :
    (load_sync_state
      (indexed_db_store (database_of roomy_browser))
      (save_sync_state (indexed_db_store (database_of roomy_browser)) state docs_db).1).0
    ≡ ok state
unfolding load_sync_state save_sync_state indexed_db_store string_eq open_db get_value put_value
    Dict.lookup Dict.insert
loads = refl

finds :
    (load_directory_handle
      (indexed_db_store (database_of roomy_browser))
      (save_sync_state (indexed_db_store (database_of roomy_browser)) state docs_db).1).0
    ≡ ok (some "docs")
unfolding load_directory_handle save_sync_state indexed_db_store string_eq open_db get_value
    put_value Dict.lookup Dict.insert
finds = refl

load-save_example :
    (state ≡ state)
    × (some "docs" ≡ as_directory_handle (Dict.lookup directory_handle_key docs_db.world))
load-save_example =
    load-save roomy_browser contents roomy_laws state docs_db state (some "docs") saves loads finds

abbrev never_same : String → String → Result Bool
never_same d e = ok false

select_directory-IsChosen_example :
    IsChosen database contents laws [] "docs"
      (select_directory create_memory_kv_store never_same "docs" [])
      (select_directory (indexed_db_store database) never_same "docs" fresh_db)
select_directory-IsChosen_example =
    select_directory-IsChosen database contents laws never_same "docs" fresh_db

-- The new folder is stored although the choice has thrown.
half_done_test :
    (select_directory (indexed_db_store database) never_same "docs" fresh_db).1.world
    ≡ (directory_handle_key, directory_handle "docs") ∷ []
unfolding select_directory indexed_db_store string_eq nat_eq Dict.insert Dict.lookup
half_done_test = refl

count_test : byte_count 1048575 ≡ "1024.0 KB"
unfolding byte_count nat_eq
count_test = refl

byte_count-IsCount_example : IsCount 1536 (byte_count 1536)
byte_count-IsCount_example = byte_count-IsCount 1536

log_test : shown_log ("a" ∷ "b" ∷ []) ≡ "b" ∷ "a" ∷ []
unfolding shown_log
log_test = refl

abbrev one_running : Pane
one_running = record { resolving_names = "a" ∷ []; running = "a" ∷ [] }

first_click : click "a" [] ≡ some ("a" ∷ [])
unfolding click
first_click = refl

resolving : Reachable one_running
resolving =
    clicked (record { resolving_names = []; running = [] }) "a" ("a" ∷ []) opened first_click

Reachable-Distinct_example :
    Distinct one_running.running
    × ((name : String)
        → (contains one_running.running name ≡ true)
          ↔ (click name one_running.resolving_names ≡ none))
Reachable-Distinct_example = Reachable-Distinct one_running resolving
