-- ===== src/Sync/Reconcile.antt =====
-- One sync cycle, `reconcile` of frontend/src/sync/reconcile.ts.
pub mod Outcome
pub mod Cycle
pub mod Results
pub mod Settled
pub mod Total
use file_space.Api.Types.{SyncAction}
use file_space.Base.{ℕ, List}
use file_space.Base.Effect.{of_result, pure, for_each, ◌>>=◌}
use file_space.Sync.Actions.{apply_action}
use file_space.Sync.Env.{Call, Env, Sync, call}
use file_space.Sync.Passes.{removed_locally, upload_one, upload_all, remove_one, remove_all}
use file_space.Sync.Progress.{
  SyncConflict, ReconcileResult, Progress, Locals, Remotes, manifest_of, remote_by_name, start,
}
use file_space.Sync.Scanner.{ScanResult, scan}
use file_space.Sync.Storage.{SyncState}

abbrev result_of : ℕ → Progress → ReconcileResult
result_of new_version done = record {
  entries = done.entries;
  last_synced_version = new_version;
  conflicts = done.conflicts;
  log = done.log;
}

module _ (env : Env) where
  abbrev pub apply_all : Locals → Remotes → List SyncAction → Progress → Sync Progress
  apply_all locals remotes actions p = for_each actions (apply_action env locals remotes) p

  -- The three loops, from the scan, the remote files and the server's actions.
  unfoldable pub run_passes : ScanResult → Remotes → List SyncAction → Progress → Sync Progress
  unfolding apply_action upload_one remove_one removed_locally
  run_passes scanned remotes actions p = do
    acted ← apply_all scanned.entries remotes actions p
    uploaded ← upload_all env remotes scanned.entries acted
    remove_all env (removed_locally scanned.entries scanned.unreadable_names uploaded) uploaded

  unfoldable pub reconcile : SyncState → List SyncConflict → Sync ReconcileResult
  unfolding run_passes start manifest_of remote_by_name scan
  reconcile state conflicts = do
    scanned ← scan env
    manifest ← of_result (manifest_of scanned.entries)
    listed ← call (Call.list_files 1000) (λ h. env.list_files h 1000)
    diff ←
        call (Call.sync_diff state.last_synced_version manifest)
          (λ h. env.sync_diff h state.last_synced_version manifest)
    done ←
        run_passes scanned (remote_by_name listed.files) diff.actions
          (start state conflicts scanned.unreadable_names)
    pure (result_of diff.new_version done)
