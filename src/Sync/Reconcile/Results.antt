-- ===== src/Sync/Reconcile/Results.antt =====
-- What a successful cycle means for the bookkeeping and the conflicts that it returns.
use file_space.Api.Types.{download, delete_local}
use file_space.Base.{
  String, Bool, true, false, Option, none, some, List, ◌≡◌, refl, sym, ◌∙◌, inl, inr, ap, contains,
  string_eq, Distinct, Bool-cases,
}
use mathlib.Core.Bool.{false≢true}
use mathlib.Core.Option.{none-ne-some}
use file_space.Base.Dict
use file_space.Base.Dict.{DistinctKeys, has, has-lookup}
use file_space.Base.Effect.{ok}
use file_space.Sync.Actions.Steps.{IsAsked, Acts-IsOrigin}
use file_space.Sync.Actions.Steps.Tracked.{
  IsTracked, Acts-IsTracked, Acts-blocks, Acts-download, Acts-deletion,
}
use file_space.Sync.Env.{History, Env}
use file_space.Sync.Passes.Removals.{IsGone}
use file_space.Sync.Passes.Quiet.{IsInStep}
use file_space.Sync.Passes.Rounds.{is_blocked, IsSettled}
use file_space.Sync.Passes.Uploads.{IsLeft}
use file_space.Sync.Progress.{SyncConflict, ReconcileResult, conflict_names, remote_by_name, start}
use file_space.Sync.Reconcile.{reconcile}
use file_space.Sync.Reconcile.Cycle.{Learned, IsReconciled, reconcile-IsReconciled}
use file_space.Sync.Scanner.{LocalFileEntry}
use file_space.Sync.Storage.{SyncedFileEntry, SyncState}

kept_when_blocked :
    (local : Option LocalFileEntry) (blocked listed : Bool) (before after : Option SyncedFileEntry)
    → blocked ≡ true
    → IsLeft local blocked listed before after
    → after ≡ before
kept_when_blocked none blocked listed before after b e = e
kept_when_blocked (some local) true listed before after b e = e
kept_when_blocked (some local) false listed before after b e = absurd (cc)

IsSettled-IsInStep :
    {before after : Option SyncedFileEntry} (local : LocalFileEntry) {listed : Bool}
    → IsSettled before local listed after
    → IsInStep local listed after
IsSettled-IsInStep local (inl (known, e, same)) = inl (known, e, same)
IsSettled-IsInStep local (inr (a, e, taken)) = inr (e, taken)

module _ (env : Env) (state : SyncState) (current : List SyncConflict) (h : History)
    (l : Learned env state current h) (r : ReconcileResult) (d : DistinctKeys state.entries)
    (u : Distinct (conflict_names current)) (e : (reconcile env state current h).0 ≡ ok r) where
  abbrev found : IsReconciled env state current h d l.scanned l.listed l.diff r
  found = reconcile-IsReconciled env state current h d l r e

  tracked : IsTracked found.cycled.acted
  unfolding start
  tracked = Acts-IsTracked found.cycled.acts (record { tracked = λ n. refl; distinct = u })

  same_conflicts : r.conflicts ≡ found.cycled.acted.conflicts
  same_conflicts = found.conflicts ∙ found.cycled.conflicts

  blocks :
      (n : String)
      → contains (conflict_names r.conflicts) n ≡ contains found.cycled.acted.conflicted_names n
  blocks n = ap (λ c. contains (conflict_names c) n) same_conflicts ∙ tracked.tracked n

  -- No conflict is resolved by a cycle that returns: the names that were in conflict still are, no name is in
  -- two conflicts, and the version is the one that the server has sent. At the start no name is
  -- in two conflicts, and the bookkeeping has one entry for a name.
  pub reconcile-conflicts :
      Distinct (conflict_names r.conflicts)
      × ((n : String)
          → contains (conflict_names current) n ≡ true
          → contains (conflict_names r.conflicts) n ≡ true)
      × (r.last_synced_version ≡ l.diff.new_version)
  unfolding start
  reconcile-conflicts = (
    rw same_conflicts tracked.distinct,
    (λ n m. blocks n ∙ Acts-blocks found.cycled.acts n m),
    found.version,
  )

  module _ (n : String) where
    -- A name that the server does not ask to download is not marked as downloaded.
    not_downloaded :
        ¬ IsAsked l.diff.actions download n → contains found.cycled.acted.downloaded_names n ≡ false
    unfolding start
    not_downloaded no_download =
        elim (Bool-cases (contains found.cycled.acted.downloaded_names n)) [
          | inl marked ↦ elim (Acts-download found.cycled.acts n marked) [
            | inl before ↦ absurd (cc)
            | inr asked ↦ absurd (no_download asked)
          ]
          | inr fresh ↦ fresh
        ]

    not_deleted :
        ¬ IsAsked l.diff.actions delete_local n
        → contains found.cycled.acted.deleted_by_server_names n ≡ false
    unfolding start
    not_deleted no_deletion =
        elim (Bool-cases (contains found.cycled.acted.deleted_by_server_names n)) [
          | inl marked ↦ elim (Acts-deletion found.cycled.acts n marked) [
            | inl before ↦ absurd (cc)
            | inr asked ↦ absurd (no_deletion asked)
          ]
          | inr fresh ↦ fresh
        ]

    not_acted :
        ¬ IsAsked l.diff.actions download n
        → ¬ IsAsked l.diff.actions delete_local n
        → Dict.lookup n found.cycled.acted.entries ≡ Dict.lookup n state.entries
    unfolding start
    not_acted no_download no_deletion = elim (Acts-IsOrigin _ _ _ _ found.cycled.acts n) [
      | inl same ↦ same
      | inr (a, m, named, inl (k, x, y)) ↦ absurd (no_download (a, m, k, named))
      | inr (a, m, named, inr (k, x, y)) ↦ absurd (no_deletion (a, m, k, named))
    ]

    present_when_blocked :
        contains found.cycled.acted.conflicted_names n ≡ true
        → ¬ IsGone l.scanned.entries l.scanned.unreadable_names found.cycled.acted n
    present_when_blocked blocked (a, b, free, c) = absurd (false≢true (sym free ∙ blocked))

    present_when_scanned :
        (local : LocalFileEntry)
        → Dict.lookup n l.scanned.entries ≡ some local
        → ¬ IsGone l.scanned.entries l.scanned.unreadable_names found.cycled.acted n
    present_when_scanned local s (absent, a, b, c) =
        absurd (none-ne-some local (sym ((has-lookup n l.scanned.entries).0 absent) ∙ s))

    -- A name that was in conflict keeps its entry in a cycle that returns, unless the server asks
    -- to download it or to delete it locally. At the start the bookkeeping has one entry for a
    -- name, and no name is in two conflicts.
    pub reconcile-in_conflict :
        contains (conflict_names current) n ≡ true
        → ¬ IsAsked l.diff.actions download n
        → ¬ IsAsked l.diff.actions delete_local n
        → Dict.lookup n r.entries ≡ Dict.lookup n state.entries
    unfolding start
    reconcile-in_conflict m no_download no_deletion =
        let blocked : contains found.cycled.acted.conflicted_names n ≡ true =
          Acts-blocks found.cycled.acts n m in
        ap (Dict.lookup n) found.entries
        ∙ kept_when_blocked _ _ _ _ _ (rw blocked refl)
            (found.cycled.left n (present_when_blocked blocked))
        ∙ not_acted no_download no_deletion

    pub reconcile-IsInStep :
        (local : LocalFileEntry)
        → Dict.lookup n l.scanned.entries ≡ some local
        → contains (conflict_names r.conflicts) n ≡ false
        → ¬ IsAsked l.diff.actions delete_local n
        → IsInStep local (has n (remote_by_name l.listed.files)) (Dict.lookup n r.entries)
    reconcile-IsInStep local s m no_deletion =
        let free : is_blocked found.cycled.acted n ≡ false =
          rw (not_deleted no_deletion, sym (blocks n) ∙ m) refl in
        let after : IsLeft (some local) false (has n (remote_by_name l.listed.files))
            (Dict.lookup n found.cycled.acted.entries) (Dict.lookup n found.done.entries) =
          rw (s, free) at (found.cycled.left n (present_when_scanned local s)) in
        rw found.entries (IsSettled-IsInStep local after)

    -- A name that the scan has neither read nor reported as unreadable has no entry after a cycle
    -- that returns, if it is not in conflict afterwards and the server does not ask to download
    -- it. At the start the bookkeeping has one entry for a name, and no name is in two conflicts.
    pub reconcile-removed :
        has n l.scanned.entries ≡ false
        → contains l.scanned.unreadable_names n ≡ false
        → contains (conflict_names r.conflicts) n ≡ false
        → ¬ IsAsked l.diff.actions download n
        → Dict.lookup n r.entries ≡ none
    reconcile-removed a b m no_download =
        ap (Dict.lookup n) found.entries
        ∙ found.cycled.gone n (a, b, sym (blocks n) ∙ m, not_downloaded no_download)
