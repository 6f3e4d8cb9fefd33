-- ===== src/Sync/Context/Steps/Conflicts.antt =====
-- How a conflict leaves the sync pane.
use mathlib.Core.List.{Memᴰ}
use file_space.Base.{
  String, true, false, not, ◌&&◌, List, [], ◌∷◌, ◌≡◌, refl, sym, ◌∙◌, ap, ◌⊎◌, inl, inr, arith,
  filter, contains, ◌++◌, Distinct, ◌==◌, string_eq, Bool-cases, ==-cases,
}
use file_space.Base.Dict.{DistinctKeys}
use file_space.Sync.Context.{
  Ui, append_log, deny_permission, grant_permission, take_result, finish_sync, fail_sync,
  take_entries, close_conflict, fail_resolution, is_dismissed, take_folder, begin_sync, fail_choice,
  restore_folder, restore_permission,
}
use file_space.Sync.Context.Steps.{
  Step, resume, sync_now, resolve, folder_chosen, choice_failed, restored, permission_known, Task,
  reconciling, saving_resolution, Resumes, denied, granted, asking_failed, reconciled,
  reconcile_failed, sync_saved, sync_unsaved, resolved, resolve_failed, resolution_saved,
  resolution_unsaved,
}
use file_space.Sync.Progress.{SyncConflict, conflict_names}
use file_space.Sync.Storage.{SyncState}
use file_space.Sync.Reconcile.Cycle.{reconcile_learns}
use file_space.Sync.Reconcile.Results.{reconcile-conflicts}

-- The state that a waiting sync started with has one entry for a name, and one conflict.
abbrev pub IsSound : Task → Type 0
IsSound (reconciling s c) = DistinctKeys s.entries × Distinct (conflict_names c)
IsSound t = Unit

-- The handler closes the conflict of this name: it is the one that was resolved, or a sync that
-- started before there was such a conflict has returned.
abbrev pub IsClosing : Task → String → Type 0
IsClosing (saving_resolution how c) n = c.name ≡ n
IsClosing (reconciling s c) n = contains (conflict_names c) n ≡ false
IsClosing t n = ⊥

conflict_names-filter :
    (x n : String) (conflicts : List SyncConflict)
    → contains (conflict_names (filter (λ (c : SyncConflict). not (c.name == x)) conflicts)) n
      ≡ (contains (conflict_names conflicts) n && not (n == x))
conflict_names-filter x n [] = refl
conflict_names-filter x n (c ∷ conflicts) = ground (arith, conflict_names-filter x n conflicts)

mem_middle : (t : Task) (before after : List Task) → Memᴰ t (before ++ (t ∷ after))
mem_middle t [] after = Memᴰ.head refl
mem_middle t (x ∷ before) after = Memᴰ.tail (mem_middle t before after)

module _ {D : Type 0} where
  same_conflicts : (lines : List String) (u : Ui D) → (append_log lines u).conflicts ≡ u.conflicts
  unfolding append_log
  same_conflicts [] u = refl
  same_conflicts (line ∷ lines) u = refl

  Resumes-conflicts :
      {u v : Ui D} {t : Task} {next : List Task} (n : String)
      → IsSound t
      → contains (conflict_names u.conflicts) n ≡ true
      → Resumes u t v next
      → (contains (conflict_names v.conflicts) n ≡ true) ⊎ IsClosing t n
  unfolding append_log deny_permission grant_permission take_result finish_sync fail_sync
      take_entries close_conflict fail_resolution
  Resumes-conflicts n sound m (denied s c) = inl m
  Resumes-conflicts n sound m (granted s c) = inl m
  Resumes-conflicts n sound m (asking_failed s c e) = inl m
  Resumes-conflicts n sound m (reconciled s c env h r e) =
      elim (Bool-cases (contains (conflict_names c) n)) [
        | inl before ↦
            let learned = reconcile_learns env s c h sound.0 r e in
            inl (
              ap (λ x. contains (conflict_names x) n) (same_conflicts r.log _)
              ∙ (reconcile-conflicts env s c h learned.0 r sound.0 sound.1 e).1 n before)
        | inr fresh ↦ inr fresh
      ]
  Resumes-conflicts n sound m (reconcile_failed s c e) = inl m
  Resumes-conflicts n sound m sync_saved = inl m
  Resumes-conflicts n sound m (sync_unsaved e) = inl m
  Resumes-conflicts n sound m (resolved how c s q) = inl m
  Resumes-conflicts n sound m (resolve_failed how c s e) = inl m
  Resumes-conflicts {u} n sound m (resolution_saved how c) = elim (==-cases n c.name) [
    | inl same ↦ inr (sym same)
    | inr other ↦ inl (conflict_names-filter c.name n u.conflicts ∙ rw (m, other) refl)
  ]
  Resumes-conflicts n sound m (resolution_unsaved how c e) = inl m

  -- A conflict that the pane shows is still shown after any step of the page, unless the step is a
  -- reply to the handler that saves its own resolution, a reply to a sync which had started without
  -- this conflict, or the choice of a folder. A sync that started with it cannot drop it. Each
  -- waiting sync has started with one entry for a name and no two conflicts of one name.
  pub Step-conflicts :
      {u v : Ui D} {tasks next : List Task} (n : String)
      → ((t : Task) → Memᴰ t tasks → IsSound t)
      → contains (conflict_names u.conflicts) n ≡ true
      → Step u tasks v next
      → (contains (conflict_names v.conflicts) n ≡ true)
        ⊎ (((t : Task) × (ts : List Task) × Memᴰ t tasks × Resumes u t v ts × IsClosing t n)
            ⊎ ((handle : D) × (name : String) × (state : SyncState) × (v
                  ≡ take_folder handle name state u)))
  unfolding begin_sync fail_choice restore_folder restore_permission
  Step-conflicts n sound m (resume {t = t} {next = ts} before after r) =
      elim (Resumes-conflicts n (sound t (mem_middle t before after)) m r) [
        | inl kept ↦ inl kept
        | inr closing ↦ inr (inl (t, ts, mem_middle t before after, r, closing))
      ]
  Step-conflicts n sound m (sync_now handle e k) = inl m
  Step-conflicts n sound m (resolve handle how c e) = inl m
  Step-conflicts n sound m (folder_chosen handle name s) = inr (inr (handle, name, s, refl))
  Step-conflicts n sound m (choice_failed e) = elim (Bool-cases (is_dismissed e)) [
    | inl dismissed ↦ inl (rw dismissed m)
    | inr shown ↦ inl (rw shown m)
  ]
  Step-conflicts n sound m (restored handle name s) = inl m
  Step-conflicts n sound m (permission_known is_granted) = inl m
