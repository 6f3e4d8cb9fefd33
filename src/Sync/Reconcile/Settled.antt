-- ===== src/Sync/Reconcile/Settled.antt =====
-- A second cycle over what the first has left.
use file_space.Api.Types.{download, delete_local}
use file_space.Base.{
  String, true, false, Option, some, List, [], ◌≡◌, refl, sym, ◌∙◌, inl, inr, arith, contains,
  string_eq, Distinct, Bool-cases,
}
use mathlib.Core.Bool.{false≢true}
use file_space.Base.Dict
use file_space.Base.Dict.{DistinctKeys, has, has-lookup}
use file_space.Base.Effect.{ok}
use file_space.Sync.Actions.Steps.{IsAsked}
use file_space.Sync.Env.{History, Env}
use file_space.Sync.Passes.{is_removed_locally}
use file_space.Sync.Passes.Quiet.{IsInStep, IsQuiet, upload_all_quiet, remove_all_quiet}
use file_space.Sync.Passes.Rounds.{is_blocked}
use file_space.Sync.Progress.{
  SyncConflict, ReconcileResult, Progress, Remotes, conflict_names, remote_by_name, start,
}
use file_space.Sync.Reconcile.{run_passes, reconcile}
use file_space.Sync.Reconcile.Cycle.{Learned}
use file_space.Sync.Reconcile.Results.{reconcile-IsInStep, reconcile-removed}
use file_space.Sync.Scanner.{LocalFileEntry}
use file_space.Sync.Scanner.Laws.{scan-IsScan}
use file_space.Sync.Storage.{SyncedFileEntry, SyncState}

module _ (env : Env) (state : SyncState) (current : List SyncConflict) (h : History)
    (l : Learned env state current h) (r : ReconcileResult) (d : DistinctKeys state.entries)
    (u : Distinct (conflict_names current)) (e : (reconcile env state current h).0 ≡ ok r)
    (no_download : (n : String) → ¬ IsAsked l.diff.actions download n)
    (no_deletion : (n : String) → ¬ IsAsked l.diff.actions delete_local n) (later : Remotes)
    (still : (n : String) → has n (remote_by_name l.listed.files) ≡ true → has n later ≡ true) where
  -- The variables of the next cycle.
  abbrev pub resumed : Progress
  resumed =
      start (record { last_synced_version = r.last_synced_version; entries = r.entries })
        r.conflicts l.scanned.unreadable_names

  resumed_entries : resumed.entries ≡ r.entries
  unfolding start
  resumed_entries = refl

  resumed_blocks : (n : String) → is_blocked resumed n ≡ contains (conflict_names r.conflicts) n
  unfolding start
  resumed_blocks n = ground arith

  later-IsInStep :
      (local : LocalFileEntry) (entry : Option SyncedFileEntry) (n : String)
      → IsInStep local (has n (remote_by_name l.listed.files)) entry
      → IsInStep local (has n later) entry
  later-IsInStep local entry n (inl known) = inl known
  later-IsInStep local entry n (inr (absent, listed)) = inr (absent, still n listed)

  file-IsQuiet :
      (n : String) (local : LocalFileEntry)
      → Dict.lookup n l.scanned.entries ≡ some local
      → IsQuiet env later resumed n local
  file-IsQuiet n local s = elim (Bool-cases (contains (conflict_names r.conflicts) n)) [
    | inl conflicted ↦ inl (resumed_blocks n ∙ conflicted)
    | inr free ↦ inr (
        rw resumed_entries (
          later-IsInStep local _ n
            (reconcile-IsInStep env state current h l r d u e n local s free (no_deletion n))))
  ]

  entry_quiet :
      (n : String)
      → has n resumed.entries ≡ true
      → is_removed_locally l.scanned.entries l.scanned.unreadable_names resumed n ≡ false
  unfolding is_removed_locally start
  entry_quiet n m = elim (Bool-cases (has n l.scanned.entries)) [
    | inl present ↦ rw present refl
    | inr absent ↦ elim (Bool-cases (contains l.scanned.unreadable_names n)) [
      | inl unreadable ↦ rw (absent, unreadable) refl
      | inr readable ↦ elim (Bool-cases (contains (conflict_names r.conflicts) n)) [
        | inl conflicted ↦ rw (absent, readable, conflicted) refl
        | inr free ↦ absurd (
            false≢true (
              sym (
                (has-lookup n r.entries).1 (
                  reconcile-removed env state current h l r d u e n absent readable free
                    (no_download n)))
              ∙ m))
      ]
    ]
  ]

  -- Once a cycle has returned, the loops of a next one, over the same scan and with no action of the
  -- server, make no call and change nothing: no file is uploaded, deleted or written twice. The
  -- first cycle had neither a download nor a local deletion to do, the bookkeeping has one entry
  -- for a name, no name was in two conflicts, and the names that the server listed are still taken
  -- there.
  pub reconcile-run_passes :
      (g : History) → run_passes env l.scanned later [] resumed g ≡ (ok resumed, g)
  unfolding run_passes
  reconcile-run_passes g =
      rw
        (upload_all_quiet env later resumed l.scanned.entries g
          (scan-IsScan env h l.scanned l.was_scanned).distinct file-IsQuiet)
        (remove_all_quiet env later resumed l.scanned.entries l.scanned.unreadable_names g
          entry_quiet)
