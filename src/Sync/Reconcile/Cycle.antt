-- ===== src/Sync/Reconcile/Cycle.antt =====
-- A whole call of `reconcile`, from its start to its result.
use file_space.Api.Types.{ListFilesResult, SyncManifestEntry, SyncDiffResponse}
use file_space.Base.{inl, inr, List, ◌∷◌, ◌≡◌, refl, sym, ◌∙◌, ap, string_eq}
use mathlib.Core.Path.{subst₃}
use file_space.Base.Dict.{DistinctKeys}
use file_space.Base.Effect.{Exception, Result, ok, err, Result-cases, bind_result, pure}
use file_space.Base.Effect.Logic.{Grows, bind_result-eq-ok, ok-gives, ok_injective}
use file_space.Sync.Env.{Call, History, Env}
use file_space.Sync.Progress.{
  SyncConflict, ReconcileResult, Progress, manifest_of, remote_by_name, start,
}
use file_space.Sync.Reconcile.{run_passes, result_of, reconcile}
use file_space.Sync.Reconcile.Outcome.{IsCycleCall, IsCycled, run_passes-Makes}
use file_space.Sync.Scanner.{ScanResult, scan}
use file_space.Sync.Scanner.Laws.{IsScanCall, scan_calls, scan-IsScan}
use file_space.Sync.Storage.{SyncState}

module _ (env : Env) (state : SyncState) (current : List SyncConflict) (h : History) where
  -- What a cycle learns before its loops.
  pub record Learned : Type 0 where
    pub scanned : ScanResult
    pub manifest : List SyncManifestEntry
    pub listed : ListFilesResult
    pub diff : SyncDiffResponse
    pub was_scanned : (scan env h).0 ≡ ok scanned
    pub was_listed : env.list_files (scan env h).1 1000 ≡ ok listed
    pub was_built : manifest_of scanned.entries ≡ ok manifest
    pub was_compared :
        env.sync_diff (Call.list_files 1000 ∷ (scan env h).1) state.last_synced_version manifest
        ≡ ok diff

  abbrev pub first : Learned → Progress
  first l = start state current l.scanned.unreadable_names

  -- The calls behind the scan and the two questions to the server.
  abbrev pub asked : List SyncManifestEntry → History
  asked manifest =
      Call.sync_diff state.last_synced_version manifest ∷ Call.list_files 1000 ∷ (scan env h).1

  abbrev pub looped : Learned → Result Progress × History
  looped l =
      run_passes env l.scanned (remote_by_name l.listed.files) l.diff.actions (first l)
        (asked l.manifest)

  -- How a cycle ends, with its last exception or its result, and with all its calls: the scan
  -- throws; a time of the scan has no text; the server does not list its files, or does not tell
  -- the difference; the loops throw; or they return.
  pub data IsCycle : Result ReconcileResult × History → Type 0 where
    unscanned : (e : Exception) → (scan env h).0 ≡ err e → IsCycle (err e, (scan env h).1)
    unbuilt :
        (scanned : ScanResult) (e : Exception)
        → (scan env h).0 ≡ ok scanned
        → manifest_of scanned.entries ≡ err e
        → IsCycle (err e, (scan env h).1)
    unlisted :
        (scanned : ScanResult) (manifest : List SyncManifestEntry) (e : Exception)
        → (scan env h).0 ≡ ok scanned
        → manifest_of scanned.entries ≡ ok manifest
        → env.list_files (scan env h).1 1000 ≡ err e
        → IsCycle (err e, Call.list_files 1000 ∷ (scan env h).1)
    uncompared :
        (scanned : ScanResult) (manifest : List SyncManifestEntry) (listed : ListFilesResult)
        (e : Exception)
        → (scan env h).0 ≡ ok scanned
        → manifest_of scanned.entries ≡ ok manifest
        → env.list_files (scan env h).1 1000 ≡ ok listed
        → env.sync_diff (Call.list_files 1000 ∷ (scan env h).1) state.last_synced_version manifest
          ≡ err e
        → IsCycle (err e, asked manifest)
    broken : (l : Learned) (e : Exception) → (looped l).0 ≡ err e → IsCycle (err e, (looped l).1)
    returned :
        (l : Learned) (done : Progress)
        → (looped l).0 ≡ ok done
        → IsCycle (
          ok (record {
            entries = done.entries;
            last_synced_version = l.diff.new_version;
            conflicts = done.conflicts;
            log = done.log;
          }),
          (looped l).1,
        )

  module _ (d : DistinctKeys state.entries) where
    loop_calls :
        (l : Learned)
        → Grows
            (IsCycleCall env l.scanned (remote_by_name l.listed.files) l.diff.actions (first l))
            (asked l.manifest)
            (looped l).1
    unfolding start
    loop_calls l =
        (run_passes-Makes env l.scanned (remote_by_name l.listed.files) l.diff.actions (first l) d
            (scan-IsScan env h l.scanned l.was_scanned).distinct).leads
          (asked l.manifest)

    loops-IsCycle :
        (l : Learned) (r : Result Progress)
        → (looped l).0 ≡ r
        → IsCycle (bind_result r (λ done. pure (result_of l.diff.new_version done)) (looped l).1)
    loops-IsCycle l (ok done) e = returned l done e
    loops-IsCycle l (err x) e = broken l x e

    ends : IsCycle (reconcile env state current h)
    unfolding reconcile
    ends = elim (Result-cases (scan env h).0) [
      | inr (x, failed) ↦ rw failed (unscanned x failed)
      | inl (scanned, was_scanned) ↦ elim (Result-cases (manifest_of scanned.entries)) [
        | inr (x, failed) ↦ rw (was_scanned, failed) (unbuilt scanned x was_scanned failed)
        | inl (manifest, was_built) ↦ elim (Result-cases (env.list_files (scan env h).1 1000)) [
          | inr (x, failed) ↦
              rw (was_scanned, was_built, failed)
                (unlisted scanned manifest x was_scanned was_built failed)
          | inl (listed, was_listed) ↦
              elim (Result-cases (
                env.sync_diff (Call.list_files 1000 ∷ (scan env h).1) state.last_synced_version
                  manifest)) [
                    | inr (x, failed) ↦
                        rw (was_scanned, was_built, was_listed, failed)
                          (uncompared scanned manifest listed x was_scanned was_built was_listed
                            failed)
                    | inl (diff, was_compared) ↦
                        let l : Learned = record {
                          scanned = scanned;
                          manifest = manifest;
                          listed = listed;
                          diff = diff;
                          was_scanned = was_scanned;
                          was_listed = was_listed;
                          was_built = was_built;
                          was_compared = was_compared;
                        } in
                        rw (was_scanned, was_built, was_listed, was_compared)
                          (loops-IsCycle l (looped l).0 refl)
                  ]
        ]
      ]
    ]

    -- A cycle scans, asks the server for its files, then for the difference from the scan, and then
    -- runs its loops over the replies; the first exception ends it, with the calls made up to it,
    -- and if the loops return, so does the cycle, with their bookkeeping, conflicts and log and the
    -- version that the server has sent. The scan lists the folder and reads files only, and the
    -- loops make only calls that `IsCycleCall` accounts for. The bookkeeping has one entry for a
    -- name.
    pub reconcile_calls :
        IsCycle (reconcile env state current h)
        × Grows IsScanCall h (scan env h).1
        × ((l : Learned)
            → Grows
                (IsCycleCall env l.scanned (remote_by_name l.listed.files) l.diff.actions (first l))
                (asked l.manifest)
                (looped l).1)
    reconcile_calls = (ends, scan_calls env h, loop_calls)

    -- What a cycle returns, by what it has learned and what its loops have done.
    pub record IsReconciled (scanned : ScanResult) (listed : ListFilesResult)
        (diff : SyncDiffResponse) (r : ReconcileResult) : Type 0 where
      pub done : Progress
      pub cycled :
          IsCycled env scanned
            (remote_by_name listed.files)
            diff.actions
            (start state current scanned.unreadable_names)
            done
      pub entries : r.entries ≡ done.entries
      pub version : r.last_synced_version ≡ diff.new_version
      pub conflicts : r.conflicts ≡ done.conflicts

    -- A cycle that returns has learned all of it.
    pub reconcile_learns :
        (r : ReconcileResult)
        → (reconcile env state current h).0 ≡ ok r
        → (l : Learned) × IsReconciled l.scanned l.listed l.diff r
    unfolding reconcile start
    reconcile_learns r e =
        let (scanned, was_scanned, e1) = bind_result-eq-ok (scan env h).0 _ _ e in
        let (manifest, was_built, e2) = bind_result-eq-ok (manifest_of scanned.entries) _ _ e1 in
        let (listed, was_listed, e3) =
          bind_result-eq-ok (env.list_files (scan env h).1 1000) _ _ e2 in
        let (diff, was_compared, e4) =
          bind_result-eq-ok (env.sync_diff _ state.last_synced_version manifest) _ _ e3 in
        let l : Learned = record {
          scanned = scanned;
          manifest = manifest;
          listed = listed;
          diff = diff;
          was_scanned = was_scanned;
          was_listed = was_listed;
          was_built = was_built;
          was_compared = was_compared;
        } in
        let (done, ran, e5) =
          bind_result-eq-ok
            (run_passes env scanned (remote_by_name listed.files) diff.actions (first l) _).0 _ _
            e4 in
        let same : result_of diff.new_version done ≡ r =
          ok-gives (λ x. result_of diff.new_version done ≡ x) refl e5 in
        (
          l,
          record {
            done = done;
            cycled =
                (run_passes-Makes env scanned (remote_by_name listed.files) diff.actions (first l) d
                    (scan-IsScan env h scanned was_scanned).distinct).gives
                  _ done ran;
            entries = sym (ap (λ (x : ReconcileResult). x.entries) same);
            version = sym (ap (λ (x : ReconcileResult). x.last_synced_version) same);
            conflicts = sym (ap (λ (x : ReconcileResult). x.conflicts) same);
          },
        )

    -- The replies that a cycle gets are what any account of it says that they are.
    pub reconcile-IsReconciled :
        (l : Learned) (r : ReconcileResult)
        → (reconcile env state current h).0 ≡ ok r
        → IsReconciled l.scanned l.listed l.diff r
    reconcile-IsReconciled l r e =
        let (k, found) = reconcile_learns r e in
        let scanned : k.scanned ≡ l.scanned = ok_injective (sym k.was_scanned ∙ l.was_scanned) in
        let listed : k.listed ≡ l.listed = ok_injective (sym k.was_listed ∙ l.was_listed) in
        let manifest : k.manifest ≡ l.manifest =
          ok_injective (sym k.was_built ∙ ap (λ s. manifest_of s.entries) scanned ∙ l.was_built) in
        let diff : k.diff ≡ l.diff = ok_injective (
          sym k.was_compared
          ∙ ap (λ m. env.sync_diff _ state.last_synced_version m) manifest
          ∙ l.was_compared) in
        subst₃ (λ s f x. IsReconciled s f x r) scanned listed diff found
