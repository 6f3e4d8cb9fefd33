-- ===== src/Sync/Reconcile/Outcome.antt =====
-- The three loops together: every call that they make, and what they leave.
use file_space.Api.Types.{SyncAction}
use file_space.Base.{
  String, false, Option, none, some, List, ◌≡◌, refl, sym, ◌∙◌, ◌⊎◌, inl, inr, arith, contains,
  string_eq, ap,
}
use mathlib.Core.Bool.{false≢true}
use mathlib.Core.Option.{none-ne-some}
use file_space.Base.Dict
use file_space.Base.Dict.{DistinctKeys, has, has-lookup, contains-keys}
use file_space.Base.Effect.{bind_result, ◌>>=◌}
use file_space.Base.Effect.Logic.{Grows-mono, bind-Does, ok-gives}
use file_space.Sync.Actions.Calls.{IsActionCall, IsListed, apply_all-Makes}
use mathlib.Core.Path.{transport}
use file_space.Sync.Actions.Steps.{Acts, Acts-IsOrigin, ActsInOrder, ActsInOrder-Acts}
use file_space.Sync.Actions.Steps.Tracked.{Acts-DistinctKeys, Acts-blocks}
use file_space.Sync.Env.{Call, History, Env}
use file_space.Sync.Env.Trace.{Makes, calls}
use file_space.Sync.Passes.{removed_locally, upload_all, remove_all}
use file_space.Sync.Passes.Removals.{IsGone, deletions-Grows, remove_all-removed_locally}
use file_space.Sync.Passes.Rounds.{is_blocked, IsUploadCall}
use file_space.Sync.Passes.Uploads.{IsLeft, IsPassCall, IsPassed, upload_all-Makes}
use file_space.Sync.Progress.{Progress, Remotes}
use file_space.Sync.Reconcile.{apply_all, run_passes}
use file_space.Sync.Scanner.{LocalFileEntry, ScanResult}
use file_space.Sync.Storage.{SyncedFileEntry}

module _ (env : Env) (scanned : ScanResult) (remotes : Remotes) (actions : List SyncAction)
    (p : Progress) where
  open scanned use {entries as locals, unreadable_names}

  -- An entry of a name in this cycle has the remote id that the name had in the bookkeeping at the
  -- start, or that is listed for the name.
  abbrev pub IsOwn : String → Option SyncedFileEntry → Type 0
  IsOwn name entry =
      (known : SyncedFileEntry)
      → entry ≡ some known
      → ((e : SyncedFileEntry) × (Dict.lookup name p.entries ≡ some e)
          × (e.remote_id ≡ known.remote_id))
        ⊎ IsListed remotes name known.remote_id

  -- The calls of the loops, given the calls made before.
  pub data IsCycleCall (h : History) (c : Call) : Type 0 where
    acting : IsActionCall env remotes actions h c → IsCycleCall h c
    sending :
        (name : String) (local : LocalFileEntry) (entry : Option SyncedFileEntry)
        → Dict.lookup name locals ≡ some local
        → contains p.conflicted_names name ≡ false
        → IsOwn name entry
        → IsUploadCall entry local env h c
        → IsCycleCall h c
    forgetting :
        (name : String) (known : SyncedFileEntry)
        → Dict.lookup name p.entries ≡ some known
        → has name locals ≡ false
        → contains unreadable_names name ≡ false
        → contains p.conflicted_names name ≡ false
        → c ≡ Call.delete_file known.remote_id
        → IsCycleCall h c

  -- What the loops leave behind the progress `acted` of the first: names that were removed from the
  -- folder have no entry, and the others have what the second loop leaves.
  pub record IsCycled (q : Progress) : Type 0 where
    pub acted : Progress
    pub in_order : ActsInOrder locals remotes actions p acted
    pub gone :
        (n : String) → IsGone locals unreadable_names acted n → Dict.lookup n q.entries ≡ none
    pub left :
        (n : String)
        → ¬ IsGone locals unreadable_names acted n
        → IsLeft
            (Dict.lookup n locals)
            (is_blocked acted n)
            (has n remotes)
            (Dict.lookup n acted.entries)
            (Dict.lookup n q.entries)
    pub conflicts : q.conflicts ≡ acted.conflicts
    pub acts : Acts locals remotes actions p acted

  not_blocked :
      {acted : Progress}
      → Acts locals remotes actions p acted
      → (n : String) → contains acted.conflicted_names n ≡ false
      → contains p.conflicted_names n ≡ false
  not_blocked s n h = ground (arith, Acts-blocks s n)

  Acts-IsOwn :
      {acted : Progress}
      → Acts locals remotes actions p acted
      → (n : String) → IsOwn n (Dict.lookup n acted.entries)
  Acts-IsOwn s n known e = elim (Acts-IsOrigin locals remotes actions p s n) [
    | inl same ↦ inl (known, sym same ∙ e, refl)
    | inr (a, m, named, inl (k, d, (r, e', listed, found, i))) ↦ inr (r, listed, ground arith)
    | inr (a, m, named, inr (k, absent, d)) ↦ absurd (cc)
  ]

  module _ (acted : Progress) (o : ActsInOrder locals remotes actions p acted) where
    abbrev s : Acts locals remotes actions p acted
    s = ActsInOrder-Acts locals remotes actions p o

    pass_call : (h : History) (c : Call) → IsPassCall env remotes locals acted h c → IsCycleCall h c
    pass_call h c (name, local, l, free, u) =
        sending name local (Dict.lookup name acted.entries) l (not_blocked s name (ground arith))
          (Acts-IsOwn s name) u

    module _ (uploaded : Progress) (passed : IsPassed env remotes locals acted uploaded) where
      same_test :
          (n : String)
          → IsGone locals unreadable_names acted n ≡ IsGone locals unreadable_names uploaded n
      same_test n = rw (passed.conflicted_names, passed.downloaded_names) refl

      initial :
          (n : String) (known : SyncedFileEntry)
          → has n locals ≡ false
          → contains uploaded.downloaded_names n ≡ false
          → Dict.lookup n uploaded.entries ≡ some known
          → Dict.lookup n p.entries ≡ some known
      initial n known absent fresh e =
          let kept : Dict.lookup n uploaded.entries ≡ Dict.lookup n acted.entries =
            rw ((has-lookup n locals).0 absent) at (passed.left n) in
          elim (Acts-IsOrigin locals remotes actions p s n) [
            | inl same ↦ sym same ∙ sym kept ∙ e
            | inr (a, m, named, inl (k, d, o)) ↦
                absurd (false≢true (sym fresh ∙ rw passed.downloaded_names d))
            | inr (a, m, named, inr (k, none', d)) ↦
                absurd (none-ne-some known (sym none' ∙ sym kept ∙ e))
          ]

      -- An entry that the third loop removes.
      gone_call :
          (n : String) (known : SyncedFileEntry) (h : History)
          → IsGone locals unreadable_names uploaded n
          → Dict.lookup n uploaded.entries ≡ some known
          → IsCycleCall h (Call.delete_file known.remote_id)
      gone_call n known h (absent, readable, free, fresh) e =
          forgetting n known (initial n known absent fresh e) absent readable
            (not_blocked s n (rw (← passed.conflicted_names) free)) refl

      removed-IsCycled :
          (q : Progress)
          → ((n : String)
              → IsGone locals unreadable_names uploaded n
              → Dict.lookup n q.entries ≡ none)
          → ((n : String)
              → ¬ IsGone locals unreadable_names uploaded n
              → Dict.lookup n q.entries ≡ Dict.lookup n uploaded.entries)
          → q.conflicts ≡ uploaded.conflicts
          → IsCycled q
      removed-IsCycled q lost kept same = record {
        acted = acted;
        in_order = o;
        acts = s;
        gone = λ n t. lost n (transport (same_test n) t);
        left = λ n t. rw (kept n (λ g. t (transport (sym (same_test n)) g))) (passed.left n);
        conflicts = same ∙ passed.conflicts;
      }

      removed-Makes :
          DistinctKeys p.entries
          → Makes IsCycleCall IsCycled
              (remove_all env (removed_locally locals unreadable_names uploaded) uploaded)
      removed-Makes d =
          let run = λ (h : History).
            remove_all-removed_locally env locals unreadable_names uploaded h
              (passed.distinct (Acts-DistinctKeys s d)) in
          record {
            leads = λ h. rw (run h).2 (
                deletions-Grows IsCycleCall uploaded.entries _ h
                  (λ n known h' m e. gone_call n known h' (((run h).4 n).0 m).1 e));
            gives = λ h q e.
                ok-gives IsCycled (removed-IsCycled (run h).1 (run h).5 (run h).6 (run h).7)
                  (sym (ap (λ r. r.0) (run h).2) ∙ e);
          }

    passes_after_acting :
        DistinctKeys p.entries
        → DistinctKeys locals
        → Makes IsCycleCall IsCycled (λ h.
          bind_result
            (upload_all env remotes locals acted h).0
            (λ uploaded. remove_all env (removed_locally locals unreadable_names uploaded) uploaded)
            (upload_all env remotes locals acted h).1)
    passes_after_acting d l =
        let pass = upload_all-Makes env remotes locals acted l in
        bind-Does (calls IsCycleCall) (upload_all env remotes locals acted)
          (λ uploaded. remove_all env (removed_locally locals unreadable_names uploaded) uploaded)
          (record { leads = λ h. Grows-mono pass_call (pass.leads h); gives = pass.gives })
          (λ uploaded passed. removed-Makes uploaded passed d)

  pub run_passes-Makes :
      DistinctKeys p.entries
      → DistinctKeys locals
      → Makes IsCycleCall IsCycled (run_passes env scanned remotes actions p)
  unfolding run_passes
  run_passes-Makes d l =
      let act = apply_all-Makes env remotes actions locals p in
      bind-Does (calls IsCycleCall) (apply_all env locals remotes actions p)
        (λ acted. upload_all env remotes locals acted >>= (λ uploaded.
          remove_all env (removed_locally locals unreadable_names uploaded) uploaded))
        (record { leads = λ h. Grows-mono (λ h c. acting) (act.leads h); gives = act.gives })
        (λ acted s. passes_after_acting acted s d l)
