-- ===== src/Tests/Cycle.antt =====
-- A cycle over the folder of the tests, and the theorems on cycles there.
use mathlib.Core.List.{Memᴰ}
use mathlib.Core.List.Memᴰ
use file_space.Api.Types.{SyncActionKind, download, delete_local, SyncManifestEntry}
use file_space.Base.{
  ℕ, String, true, false, none, List, [], ◌∷◌, ◌≡◌, refl, sym, ◌∙◌, ap, string_eq, nat_eq, contains,
  Distinct, ◌≢◌,
}
use file_space.Base.Dict
use file_space.Base.Dict.{Dict, DistinctKeys, has}
use file_space.Base.Text.{to_iso_string}
use file_space.Base.Effect.{ok}
use file_space.Sync.Actions.Steps.{IsAsked}
use file_space.Sync.Env.{File, History, Call}
use file_space.Sync.Progress.{
  Progress, SyncConflict, ReconcileResult, conflict_names, remote_by_name, manifest_of,
}
use file_space.Sync.Reconcile.{run_passes, reconcile}
use file_space.Sync.Reconcile.Cycle.{Learned, reconcile_calls, IsCycle, first, asked, looped}
use file_space.Sync.Reconcile.Outcome.{IsCycleCall}
use file_space.Sync.Scanner.Laws.{IsScanCall}
use file_space.Sync.Reconcile.Results.{
  reconcile-conflicts, reconcile-in_conflict, reconcile-removed,
}
use file_space.Sync.Reconcile.Settled.{resumed, reconcile-run_passes}
use file_space.Base.Effect.Logic.{Grows}
use file_space.Sync.Scanner.{LocalFileEntry, ScanResult, scan}
use file_space.Tests.World.{
  make_file, make_entry, listing, diff, env, state, entries, conflicts, clash,
}

abbrev local : String → ℕ → String → LocalFileEntry
local name size sha256 = record { handle = name; size = size; mtime = 1000; sha256 = sha256 }

abbrev pub scanned : ScanResult
scanned = record {
  entries =
      ("same", local "same" 1 "07")
      ∷ ("edited", local "edited" 2 "0102")
      ∷ ("new", local "new" 1 "07")
      ∷ ("clash", local "clash" 1 "07")
      ∷ [];
  unreadable_names = "broken" ∷ [];
}

abbrev manifest_entry : String → ℕ → String → SyncManifestEntry
manifest_entry name size sha256 = record {
  name = name;
  size = size;
  mtime = "1970-01-01T00:00:01.000Z";
  sha256 = sha256;
}

abbrev manifest : List SyncManifestEntry
manifest =
    manifest_entry "same" 1 "07"
    ∷ manifest_entry "edited" 2 "0102"
    ∷ manifest_entry "new" 1 "07"
    ∷ manifest_entry "clash" 1 "07"
    ∷ []

abbrev new_clash : SyncConflict
new_clash = record clash { remote_size = 2; remote_modified_at = "t2"; remote_edited_by = "bob" }

abbrev pub result : ReconcileResult
result = record {
  entries =
      ("same", make_entry 1 "07")
      ∷ ("edited", record { remote_id = 12; size = 2; mtime = 1000; sha256 = "0102" })
      ∷ ("clash", make_entry 4 "ff")
      ∷ ("broken", make_entry 5 "07")
      ∷ ("new", make_entry 11 "07")
      ∷ [];
  last_synced_version = 9;
  conflicts = new_clash ∷ [];
  log =
      "Skipping 1 unreadable file(s), left untouched: broken"
      ∷ "clash changed on both sides — needs your decision" ∷ "Re-uploaded changed file edited"
      ∷ "Uploaded new file new" ∷ "Deleted remote gone (removed locally)" ∷ [];
}

abbrev read_calls : File → History → History
read_calls f h = Call.array_buffer f ∷ Call.get_file f.name ∷ h

-- The calls of the scan.
abbrev scan_history : History
scan_history = read_calls (make_file "clash" (7 ∷ [])) (
    Call.get_file "broken"
    ∷ read_calls (make_file "new" (7 ∷ [])) (
        read_calls (make_file "edited" (1 ∷ 2 ∷ []))
          (read_calls (make_file "same" (7 ∷ [])) (Call.values ∷ []))))

abbrev history : History
history =
    Call.delete_file 3
    ∷ Call.upload_file_in_chunks (make_file "new" (7 ∷ []))
    ∷ Call.get_file "new"
    ∷ Call.upload_file_in_chunks (make_file "edited" (1 ∷ 2 ∷ []))
    ∷ Call.get_file "edited"
    ∷ Call.delete_file 2
    ∷ Call.sync_diff 8 manifest
    ∷ Call.list_files 1000
    ∷ scan_history

reconciled : reconcile env state conflicts [] ≡ (ok result, history)
unfolding reconcile string_eq nat_eq Dict.insert Dict.lookup Dict.keys Dict.erase has to_iso_string
reconciled = refl

was_scanned : (scan env []).0 ≡ ok scanned
unfolding scan string_eq nat_eq Dict.insert
was_scanned = refl

was_built : manifest_of scanned.entries ≡ ok manifest
unfolding manifest_of to_iso_string nat_eq
was_built = refl

abbrev learned : Learned env state conflicts []
learned = record {
  scanned = scanned;
  manifest = manifest;
  listed = listing;
  diff = diff;
  was_scanned = was_scanned;
  was_listed = refl;
  was_built = was_built;
  was_compared = refl;
}

pub distinct_entries : DistinctKeys entries
unfolding Dict.keys string_eq
distinct_entries = (refl, (refl, (refl, (refl, (refl, tt)))))

pub Distinct-conflicts : Distinct (conflict_names conflicts)
Distinct-conflicts = (refl, tt)

pub returned : (reconcile env state conflicts []).0 ≡ ok result
returned = ap (λ r. r.0) reconciled

only_conflicts :
    (kind : SyncActionKind)
    → SyncActionKind.conflict ≢ kind
    → (n : String) → ¬ IsAsked diff.actions kind n
only_conflicts kind differs n (a, Memᴰ.head e, k, named) = differs (ap (λ x. x.action) (sym e) ∙ k)
only_conflicts kind differs n (a, Memᴰ.tail m, k, named) = absurd (Memᴰ.not-nil m)

no_download : (n : String) → ¬ IsAsked diff.actions download n
no_download = only_conflicts download (λ e. cc)

no_deletion : (n : String) → ¬ IsAsked diff.actions delete_local n
no_deletion = only_conflicts delete_local (λ e. cc)

reconcile_calls_example :
    IsCycle env state conflicts [] (reconcile env state conflicts [])
    × Grows IsScanCall [] (scan env []).1
    × ((l : Learned env state conflicts [])
        → Grows
            (IsCycleCall env l.scanned
              (remote_by_name l.listed.files)
              l.diff.actions
              (first env state conflicts [] l))
            (asked env state conflicts [] l.manifest)
            (looped env state conflicts [] l).1)
reconcile_calls_example = reconcile_calls env state conflicts [] distinct_entries

reconcile-conflicts_example :
    Distinct (conflict_names result.conflicts)
    × ((n : String)
        → contains (conflict_names conflicts) n ≡ true
        → contains (conflict_names result.conflicts) n ≡ true)
    × (result.last_synced_version ≡ diff.new_version)
reconcile-conflicts_example =
    reconcile-conflicts env state conflicts [] learned result distinct_entries Distinct-conflicts
      returned

conflicted : contains (conflict_names conflicts) "clash" ≡ true
unfolding string_eq
conflicted = refl

reconcile-in_conflict_example :
    Dict.lookup "clash" result.entries ≡ Dict.lookup "clash" state.entries
reconcile-in_conflict_example =
    reconcile-in_conflict env state conflicts [] learned result distinct_entries Distinct-conflicts
      returned "clash" conflicted (no_download "clash") (no_deletion "clash")

edited : LocalFileEntry
edited = local "edited" 2 "0102"

unseen :
    (has "gone" scanned.entries ≡ false)
    × (contains scanned.unreadable_names "gone" ≡ false)
    × (contains (conflict_names result.conflicts) "gone" ≡ false)
unfolding has string_eq
unseen = (refl, refl, refl)

reconcile-removed_example : Dict.lookup "gone" result.entries ≡ none
reconcile-removed_example =
    reconcile-removed env state conflicts [] learned result distinct_entries Distinct-conflicts
      returned "gone" unseen.0 unseen.1 unseen.2 (no_download "gone")

-- The variables of a next cycle over the same scan.
abbrev next : Progress
next =
    resumed env state conflicts [] learned result distinct_entries Distinct-conflicts returned
      no_download no_deletion (remote_by_name listing.files) (λ n m. m)

reconcile-run_passes_example :
    run_passes env scanned (remote_by_name listing.files) [] next history ≡ (ok next, history)
reconcile-run_passes_example =
    reconcile-run_passes env state conflicts [] learned result distinct_entries Distinct-conflicts
      returned no_download no_deletion (remote_by_name listing.files) (λ n m. m) history
