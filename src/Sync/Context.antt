-- ===== src/Sync/Context.antt =====
-- The state of the sync pane and what its handlers do to it between two `await`s,
-- frontend/src/sync/SyncContext.tsx. `D` is the type of directory handles.
pub mod Steps
use file_space.Base.{
  ℕ, ◌-◌, String, Bool, true, false, not, Option, none, some, List, [], ◌∷◌, ◌++◌, ◌<>◌, length,
  drop, filter, ltb, if◌then◌else◌, ◌==◌, string_eq,
}
use file_space.Base.Effect.{Exception, dom_exception, message_of}
use file_space.Sync.Progress.{SyncConflict, ReconcileResult}
use file_space.Sync.Resolve.{Entries}
use file_space.Sync.Storage.{SyncState, empty_sync_state}

pub record Ui (D : Type 0) : Type 0 where
  pub directory_handle : Option D
  pub folder_name : Option String
  pub sync_state : SyncState
  pub conflicts : List SyncConflict
  pub log : List String
  pub is_syncing : Bool
  pub permission_needed : Bool
  pub last_error : Option String

-- Which of the three resolutions the user has chosen.
pub data Resolution : Type 0 where
  keep_local keep_remote keep_both : Resolution

abbrev pub max_log_lines : ℕ
max_log_lines = 50

abbrev version_of : Resolution → String
version_of keep_local = "local version"
version_of keep_remote = "remote version"
version_of keep_both = "both versions"

-- The log behind new lines.
unfoldable pub keep_last : List String → List String
keep_last next =
    if ltb max_log_lines (length next) then drop (length next - max_log_lines) next else next

abbrev pub is_dismissed : Exception → Bool
is_dismissed (dom_exception name message) = name == "AbortError"
is_dismissed e = false

abbrev sync_error : Exception → String
sync_error e = "Sync error: " <> message_of "Sync failed" e

abbrev kept_line : Resolution → SyncConflict → String
kept_line how conflict = "Kept " <> (version_of how <> (" of " <> conflict.name))

abbrev failure_line : Resolution → SyncConflict → Exception → String
failure_line how conflict e =
    "Failed to keep "
    <> (version_of how <> (" of " <> (conflict.name <> (": " <> message_of "failed" e))))

module _ {D : Type 0} where
  unfoldable pub initial : Ui D
  initial = record {
    directory_handle = none;
    folder_name = none;
    sync_state = empty_sync_state;
    conflicts = [];
    log = [];
    is_syncing = false;
    permission_needed = false;
    last_error = none;
  }

  unfoldable pub append_log : List String → Ui D → Ui D
  unfolding keep_last
  append_log [] u = u
  append_log (line ∷ lines) u = record u { log = keep_last (u.log ++ (line ∷ lines)) }

  -- `syncNow`: its start, its ends, and the reply of `reconcile`
  unfoldable pub begin_sync : Ui D → Ui D
  begin_sync u = record u { is_syncing = true }

  unfoldable pub deny_permission : Ui D → Ui D
  unfolding append_log
  deny_permission u =
      record (append_log ("Permission needed — click Sync now again" ∷ [])
        (record u { permission_needed = true })) { is_syncing = false }

  unfoldable pub grant_permission : Ui D → Ui D
  grant_permission u = record u { permission_needed = false }

  unfoldable pub take_result : ReconcileResult → Ui D → Ui D
  unfolding append_log
  take_result r u = append_log r.log (record u {
    sync_state = record { last_synced_version = r.last_synced_version; entries = r.entries };
    conflicts = r.conflicts;
  })

  unfoldable pub finish_sync : Ui D → Ui D
  finish_sync u = record u { last_error = none; is_syncing = false }

  unfoldable pub fail_sync : Exception → Ui D → Ui D
  unfolding append_log
  fail_sync e u =
      record (append_log (sync_error e ∷ [])
        (record u { last_error = some (message_of "Sync failed" e) })) { is_syncing = false }

  -- The three resolutions, with the sync state of the render whose button was clicked
  unfoldable pub take_entries : SyncState → Entries → Ui D → Ui D
  take_entries state new_entries u = record u {
    sync_state = record state { entries = new_entries };
  }

  unfoldable pub close_conflict : Resolution → SyncConflict → Ui D → Ui D
  unfolding append_log
  close_conflict how conflict u = append_log (kept_line how conflict ∷ []) (record u {
    conflicts = filter (λ (c : SyncConflict). not (c.name == conflict.name)) u.conflicts;
  })

  unfoldable pub fail_resolution : Resolution → SyncConflict → Exception → Ui D → Ui D
  unfolding append_log
  fail_resolution how conflict e u = append_log (failure_line how conflict e ∷ []) u

  -- `chooseFolder`
  unfoldable pub take_folder : D → String → SyncState → Ui D → Ui D
  take_folder handle name next_state u = record u {
    directory_handle = some handle;
    folder_name = some name;
    sync_state = next_state;
    conflicts = [];
    permission_needed = false;
    last_error = none;
  }

  unfoldable pub fail_choice : Exception → Ui D → Ui D
  fail_choice e u =
      if is_dismissed e
      then u
      else record u { last_error = some (message_of "Failed to choose a folder" e) }

  -- The effect that restores a chosen folder
  unfoldable pub restore_folder : D → String → SyncState → Ui D → Ui D
  restore_folder handle name state u = record u {
    directory_handle = some handle;
    folder_name = some name;
    sync_state = state;
  }

  unfoldable pub restore_permission : Bool → Ui D → Ui D
  restore_permission granted u = record u { permission_needed = not granted }
