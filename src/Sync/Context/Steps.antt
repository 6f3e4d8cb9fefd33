-- ===== src/Sync/Context/Steps.antt =====
-- The handlers of the sync pane as steps: what may happen between two `await`s, in any order.
pub mod Invariant
pub mod Conflicts
use file_space.Base.{
  ℕ, suc, String, Bool, true, false, Option, none, some, List, [], ◌∷◌, ◌++◌, ◌≡◌,
}
use file_space.Base.Effect.{Exception, ok}
use file_space.Sync.Context.{
  Ui, Resolution, initial, begin_sync, deny_permission, grant_permission, take_result, finish_sync,
  fail_sync, take_entries, close_conflict, fail_resolution, take_folder, fail_choice,
  restore_folder, restore_permission,
}
use file_space.Sync.Env.{History, Env}
use file_space.Sync.Progress.{SyncConflict, ReconcileResult}
use file_space.Sync.Reconcile.{reconcile}
use file_space.Sync.Resolve.{Entries}
use file_space.Sync.Storage.{SyncState}

-- A handler that waits for a reply, with the state of the render that it was made in.
pub data Task : Type 0 where
  asking : SyncState → List SyncConflict → Task
  reconciling : SyncState → List SyncConflict → Task
  saving_sync : Task
  resolving : Resolution → SyncConflict → SyncState → Task
  saving_resolution : Resolution → SyncConflict → Task

module _ {D : Type 0} where
  -- A waiting handler gets its reply: the state behind it, and what the handler waits for next.
  pub data Resumes (u : Ui D) : Task → Ui D → List Task → Type 0 where
    denied : (s : SyncState) (c : List SyncConflict) → Resumes u (asking s c) (deny_permission u) []
    granted :
        (s : SyncState) (c : List SyncConflict)
        → Resumes u (asking s c) (grant_permission u) (reconciling s c ∷ [])
    asking_failed :
        (s : SyncState) (c : List SyncConflict) (e : Exception)
        → Resumes u (asking s c) (fail_sync e u) []
    reconciled :
        (s : SyncState) (c : List SyncConflict) (env : Env) (h : History) (r : ReconcileResult)
        → (reconcile env s c h).0 ≡ ok r
        → Resumes u (reconciling s c) (take_result r u) (saving_sync ∷ [])
    reconcile_failed :
        (s : SyncState) (c : List SyncConflict) (e : Exception)
        → Resumes u (reconciling s c) (fail_sync e u) []
    sync_saved : Resumes u saving_sync (finish_sync u) []
    sync_unsaved : (e : Exception) → Resumes u saving_sync (fail_sync e u) []
    resolved :
        (how : Resolution) (c : SyncConflict) (s : SyncState) (new_entries : Entries)
        → Resumes u
            (resolving how c s)
            (take_entries s new_entries u)
            (saving_resolution how c ∷ [])
    resolve_failed :
        (how : Resolution) (c : SyncConflict) (s : SyncState) (e : Exception)
        → Resumes u (resolving how c s) (fail_resolution how c e u) []
    resolution_saved :
        (how : Resolution) (c : SyncConflict)
        → Resumes u (saving_resolution how c) (close_conflict how c u) []
    resolution_unsaved :
        (how : Resolution) (c : SyncConflict) (e : Exception)
        → Resumes u (saving_resolution how c) (fail_resolution how c e u) []

  -- One step of the page, with the handlers that wait.
  pub data Step : Ui D → List Task → Ui D → List Task → Type 0 where
    resume :
        {u v : Ui D} {t : Task} {next : List Task} (before after : List Task)
        → Resumes u t v next
        → Step u (before ++ (t ∷ after)) v (before ++ (next ++ after))
    sync_now :
        {u : Ui D} {tasks : List Task} (handle : D)
        → u.directory_handle ≡ some handle
        → u.is_syncing ≡ false
        → Step u tasks (begin_sync u) (asking u.sync_state u.conflicts ∷ tasks)
    resolve :
        {u : Ui D} {tasks : List Task} (handle : D) (how : Resolution) (c : SyncConflict)
        → u.directory_handle ≡ some handle
        → Step u tasks u (resolving how c u.sync_state ∷ tasks)
    folder_chosen :
        {u : Ui D} {tasks : List Task} (handle : D) (name : String) (next_state : SyncState)
        → Step u tasks (take_folder handle name next_state u) tasks
    choice_failed :
        {u : Ui D} {tasks : List Task} (e : Exception) → Step u tasks (fail_choice e u) tasks
    restored :
        {u : Ui D} {tasks : List Task} (handle : D) (name : String) (state : SyncState)
        → Step u tasks (restore_folder handle name state u) tasks
    permission_known :
        {u : Ui D} {tasks : List Task} (is_granted : Bool)
        → Step u tasks (restore_permission is_granted u) tasks

  -- What the page may come to.
  pub data Reaches : Ui D → List Task → Type 0 where
    opened : Reaches initial []
    step :
        {u v : Ui D} {tasks next : List Task}
        → Reaches u tasks
        → Step u tasks v next
        → Reaches v next
