-- ===== src/Tests/Pane.antt =====
-- The sync pane at concrete steps.
use mathlib.Core.List.{Memᴰ}
use file_space.Base.{String, true, false, some, List, [], ◌∷◌, ◌≡◌, refl, ◌⊎◌, string_eq, contains}
use file_space.Base.Effect.{dom_exception}
use file_space.Sync.Context.{
  Ui, initial, take_folder, begin_sync, grant_permission, take_result, keep_local, close_conflict,
  fail_choice,
}
use file_space.Sync.Context.Steps.{
  Task, reconciling, Reaches, opened, step, folder_chosen, sync_now, resume, Resumes, granted,
  reconciled,
}
use file_space.Sync.Context.Steps.Conflicts.{IsSound, IsClosing, Step-conflicts}
use file_space.Sync.Context.Steps.Invariant.{IsWell, Reaches-IsWell}
use file_space.Sync.Progress.{conflict_names}
use file_space.Sync.Storage.{SyncState, empty_sync_state}
use file_space.Tests.Cycle.{result, returned, distinct_entries, Distinct-conflicts}
use file_space.Tests.World.{env, state, conflicts, clash}

-- The pane with a folder, known by its name.
abbrev chosen : Ui String
chosen = take_folder "docs" "docs" empty_sync_state initial

has_folder : chosen.directory_handle ≡ some "docs"
unfolding take_folder
has_folder = refl

idle : chosen.is_syncing ≡ false
unfolding take_folder initial
idle = refl

abbrev waiting : List Task
waiting = reconciling chosen.sync_state chosen.conflicts ∷ []

under_way : Reaches (grant_permission (begin_sync chosen)) waiting
under_way =
    step
      (step (step opened (folder_chosen "docs" "docs" empty_sync_state))
        (sync_now "docs" has_folder idle))
      (resume [] [] (granted chosen.sync_state chosen.conflicts))

Reaches-IsWell_example : IsWell (grant_permission (begin_sync chosen)) waiting
Reaches-IsWell_example = Reaches-IsWell under_way

-- The pane with a conflict and a sync that started with it.
abbrev disputed : Ui String
disputed = record chosen { sync_state = state; conflicts = conflicts }

shown : contains (conflict_names disputed.conflicts) "clash" ≡ true
unfolding string_eq
shown = refl

abbrev one_sync : List Task
one_sync = reconciling state conflicts ∷ []

sound : (t : Task) → Memᴰ t one_sync → IsSound t
sound t (Memᴰ.head e) = rw e (distinct_entries, Distinct-conflicts)
sound t (Memᴰ.tail m) = absurd (elim m [ ])

Step-conflicts_example :
    (contains (conflict_names (take_result result disputed).conflicts) "clash" ≡ true)
    ⊎ (((t : Task) × (ts : List Task) × Memᴰ t one_sync
          × Resumes disputed t (take_result result disputed) ts
          × IsClosing t "clash")
        ⊎ ((handle : String) × (name : String) × (s : SyncState) × (take_result result disputed
              ≡ take_folder handle name s disputed)))
Step-conflicts_example =
    Step-conflicts "clash" sound shown
      (resume [] [] (reconciled state conflicts env [] result returned))

closed : (close_conflict keep_local clash disputed).conflicts ≡ []
unfolding close_conflict string_eq
closed = refl

-- A dismissed picker leaves no error.
dismissed : fail_choice (dom_exception "AbortError" "The user aborted a request.") chosen ≡ chosen
unfolding fail_choice string_eq
dismissed = refl
