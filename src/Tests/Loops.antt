-- ===== src/Tests/Loops.antt =====
-- The loops of a cycle, the scan, the store and the resolutions at concrete inputs.
use file_space.Api.Types.{SyncActionKind, SyncAction}
use file_space.Base.{
  String, Bool, true, ◌↔◌, contains, Distinct, ◌==◌, none, some, List, [], ◌∷◌, ◌++◌, ◌≡◌, ◌≢◌,
  refl, string_eq, nat_eq, ◌<>◌,
}
use file_space.Base.Dict
use file_space.Base.Dict.{Dict, DistinctKeys, has}
use file_space.Base.Effect.{Result, ok}
use file_space.Base.Text.{last_index_of}
use file_space.Sync.CopyName.{LocalDate, copy_mark, conflict_copy_name}
use file_space.Sync.CopyName.Apart.{conflict_copy_name_injective}
use file_space.Sync.CopyName.Laws.{conflict_copy_name-dot}
use file_space.Sync.Env.Trace.{Makes}
use file_space.Sync.Passes.{removed_locally, upload_all, remove_all}
use file_space.Sync.Passes.Removals.{IsGone, deletions, remove_all-removed_locally}
use file_space.Sync.Passes.Uploads.{IsPassCall, IsPassed, upload_all-Makes}
use file_space.Sync.Progress.{Progress, Remotes, remote_by_name, start}
use file_space.Sync.Resolve.{resolve_keep_local, resolve_keep_remote}
use file_space.Sync.Resolve.Single.{
  IsLocalCall, IsKeptLocal, resolve_keep_local-Makes, IsRemoteCall, IsKeptRemote,
  resolve_keep_remote-Makes,
}
use file_space.Sync.Scanner.{ScanResult, scan}
use file_space.Sync.Scanner.Laws.{IsScan, scan_total}
use file_space.Sync.Storage.{Value, directory_handle}
use file_space.Tests.World.{make_action, handles, listing, env, state, entries, conflicts, clash}
use file_space.Tests.Cycle.{scanned}

-- A download of a listed file and one of a file that is not listed, and a local deletion.
abbrev actions : List SyncAction
actions =
    make_action "incoming" SyncActionKind.download
    ∷ make_action "unlisted" SyncActionKind.download
    ∷ make_action "same" SyncActionKind.delete_local
    ∷ make_action "new" SyncActionKind.conflict
    ∷ []

abbrev remotes : Remotes
remotes = remote_by_name listing.files

abbrev first : Progress
first = start state conflicts scanned.unreadable_names

distinct : DistinctKeys first.entries
unfolding Dict.keys string_eq start
distinct = (refl, (refl, (refl, (refl, (refl, tt)))))

distinct_files : DistinctKeys scanned.entries
unfolding Dict.keys string_eq
distinct_files = (refl, (refl, (refl, (refl, tt))))

scan_total_example : (r : ScanResult) × ((scan env []).0 ≡ ok r) × IsScan env handles r
scan_total_example = scan_total env [] refl

upload_all-Makes_example :
    Makes
      (IsPassCall env remotes scanned.entries first)
      (IsPassed env remotes scanned.entries first)
      (upload_all env remotes scanned.entries first)
upload_all-Makes_example = upload_all-Makes env remotes scanned.entries first distinct_files

remove_all-removed_locally_example :
    (names : List String) × (q : Progress) × (remove_all env
        (removed_locally scanned.entries ("broken" ∷ []) first)
        first
        []
      ≡ (ok q, deletions first.entries names ++ []))
    × Distinct names
    × ((n : String)
        → (contains names n ≡ true)
          ↔ ((has n first.entries ≡ true) × IsGone scanned.entries ("broken" ∷ []) first n))
    × ((n : String)
        → IsGone scanned.entries ("broken" ∷ []) first n
        → Dict.lookup n q.entries ≡ none)
    × ((n : String)
        → ¬ IsGone scanned.entries ("broken" ∷ []) first n
        → Dict.lookup n q.entries ≡ Dict.lookup n first.entries)
    × (q.conflicts ≡ first.conflicts)
remove_all-removed_locally_example =
    remove_all-removed_locally env scanned.entries ("broken" ∷ []) first [] distinct

-- Folders are told apart by their names.
abbrev is_same_entry : String → String → Result Bool
is_same_entry a b = ok (a == b)

abbrev stored : Dict (Value String)
stored = ("directoryHandle", directory_handle "docs") ∷ []

resolve_keep_local-Makes_example :
    Makes
      (IsLocalCall env clash entries)
      (IsKeptLocal env clash entries)
      (resolve_keep_local env clash entries)
resolve_keep_local-Makes_example = resolve_keep_local-Makes env clash entries

resolve_keep_remote-Makes_example :
    Makes
      (IsRemoteCall env clash entries)
      (IsKeptRemote env clash entries)
      (resolve_keep_remote env clash entries)
resolve_keep_remote-Makes_example = resolve_keep_remote-Makes env clash entries

abbrev today : LocalDate
today = record { full_year = 2026; month = 8; date = 11 }

copied : conflict_copy_name "Program.cs" today ≡ "Program (conflict copy, 2026-09-11).cs"
unfolding conflict_copy_name nat_eq
copied = refl

abbrev program : String
program = "Program.cs"

abbrev makefile : String
makefile = "Makefile"

conflict_copy_name_injective_example :
    (conflict_copy_name program today ≢ program)
    × (conflict_copy_name program today ≡ conflict_copy_name makefile today → program ≡ makefile)
conflict_copy_name_injective_example = conflict_copy_name_injective program makefile today

last_dot : last_index_of b'.' "Program.cs" ≡ some 7
unfolding last_index_of nat_eq
last_dot = refl

conflict_copy_name-dot_example :
    (base : String) × (extension : String) × ("Program.cs" ≡ base <> ("." <> extension))
    × (last_index_of b'.' extension ≡ none)
    × (conflict_copy_name "Program.cs" today ≡ base <> (copy_mark today <> ("." <> extension)))
conflict_copy_name-dot_example = conflict_copy_name-dot "Program.cs" today 6 last_dot
