-- ===== src/Sync/Context/Steps/Invariant.antt =====
-- What holds of the sync pane in every order of its steps.
use file_space.Base.{
  ℕ, ◌+◌, ◌-◌, ◌≤◌, String, Bool, true, false, List, [], ◌∷◌, ◌++◌, ◌≡◌, refl, ◌⊎◌, inl, inr, arith,
  length, length-drop, ltb, if◌then◌else◌, Bool-cases,
}
use file_space.Sync.Context.{
  Ui, initial, keep_last, append_log, begin_sync, deny_permission, grant_permission, take_result,
  finish_sync, fail_sync, take_entries, close_conflict, fail_resolution, take_folder, fail_choice,
  is_dismissed, sync_error, failure_line, kept_line, restore_folder, restore_permission,
}
use file_space.Sync.Context.Steps.{
  Task, asking, reconciling, saving_sync, resolving, saving_resolution, Resumes, denied, granted,
  asking_failed, reconciled, reconcile_failed, sync_saved, sync_unsaved, resolved, resolve_failed,
  resolution_saved, resolution_unsaved, Step, resume, sync_now, resolve, folder_chosen,
  choice_failed, restored, permission_known, Reaches, opened, step,
}

-- A handler of `syncNow` counts as one.
abbrev weight : Task → ℕ
weight (asking s c) = 1
weight (reconciling s c) = 1
weight saving_sync = 1
weight (resolving how c s) = 0
weight (saving_resolution how c) = 0

-- The syncs that wait.
abbrev pub syncs : List Task → ℕ
syncs [] = 0
syncs (t ∷ tasks) = weight t + syncs tasks

syncs-append : (a b : List Task) → syncs (a ++ b) ≡ syncs a + syncs b
syncs-append [] b = omega arith
syncs-append (t ∷ a) b = omega (arith, syncs-append a b)

abbrev pub flag : Bool → ℕ
flag b = if b then 1 else 0

length-keep_last : (next : List String) → length (keep_last next) ≤ 50
unfolding keep_last
length-keep_last next = elim (Bool-cases (ltb 50 (length next))) [
  | inl long ↦ rw (long, length-drop (length next - 50) next) (omega arith)
  | inr short ↦ rw short (ground arith)
]

module _ {D : Type 0} where
  -- A sync waits exactly while the flag of the pane is set, and the log has at most 50 lines.
  pub record IsWell (u : Ui D) (tasks : List Task) : Type 0 where
    pub pending : syncs tasks ≡ flag u.is_syncing
    pub bounded : length u.log ≤ 50

  append_log_bounded :
      (lines : List String) (u : Ui D) → length u.log ≤ 50 → length (append_log lines u).log ≤ 50
  unfolding append_log
  append_log_bounded [] u h = h
  append_log_bounded (line ∷ lines) u h = length-keep_last (u.log ++ (line ∷ lines))

  append_log_syncing :
      (lines : List String) (u : Ui D) → (append_log lines u).is_syncing ≡ u.is_syncing
  unfolding append_log
  append_log_syncing [] u = refl
  append_log_syncing (line ∷ lines) u = refl

  -- What a reply does to the flag: the handler keeps it and goes on as it was, or a sync ends.
  abbrev IsFlagged : Ui D → Task → Ui D → List Task → Type 0
  IsFlagged u t v next =
      ((v.is_syncing ≡ u.is_syncing) × (syncs next ≡ weight t))
      ⊎ ((v.is_syncing ≡ false) × (weight t ≡ 1) × (syncs next ≡ 0))

  Resumes-IsFlagged :
      {u v : Ui D} {t : Task} {next : List Task} → Resumes u t v next → IsFlagged u t v next
  unfolding append_log deny_permission grant_permission take_result finish_sync fail_sync
      take_entries close_conflict fail_resolution
  Resumes-IsFlagged (denied s c) = inr (refl, refl, refl)
  Resumes-IsFlagged (granted s c) = inl (refl, refl)
  Resumes-IsFlagged (asking_failed s c e) = inr (refl, refl, refl)
  Resumes-IsFlagged (reconciled s c env h r e) = inl (append_log_syncing r.log _, refl)
  Resumes-IsFlagged (reconcile_failed s c e) = inr (refl, refl, refl)
  Resumes-IsFlagged sync_saved = inr (refl, refl, refl)
  Resumes-IsFlagged (sync_unsaved e) = inr (refl, refl, refl)
  Resumes-IsFlagged (resolved how c s q) = inl (refl, refl)
  Resumes-IsFlagged (resolve_failed how c s e) = inl (refl, refl)
  Resumes-IsFlagged (resolution_saved how c) = inl (refl, refl)
  Resumes-IsFlagged (resolution_unsaved how c e) = inl (refl, refl)

  said : (line : String) (u : Ui D) → length (keep_last (u.log ++ (line ∷ []))) ≤ 50
  said line u = length-keep_last (u.log ++ (line ∷ []))

  Resumes-bounded :
      {u v : Ui D} {t : Task} {next : List Task}
      → Resumes u t v next
      → length u.log ≤ 50
      → length v.log ≤ 50
  unfolding append_log deny_permission grant_permission take_result finish_sync fail_sync
      take_entries close_conflict fail_resolution
  Resumes-bounded {u} (denied s c) h = said "Permission needed — click Sync now again" u
  Resumes-bounded (granted s c) h = h
  Resumes-bounded {u} (asking_failed s c e) h = said (sync_error e) u
  Resumes-bounded (reconciled s c env k r e) h = append_log_bounded r.log _ h
  Resumes-bounded {u} (reconcile_failed s c e) h = said (sync_error e) u
  Resumes-bounded sync_saved h = h
  Resumes-bounded {u} (sync_unsaved e) h = said (sync_error e) u
  Resumes-bounded (resolved how c s q) h = h
  Resumes-bounded {u} (resolve_failed how c s e) h = said (failure_line how c e) u
  Resumes-bounded {u} (resolution_saved how c) h = said (kept_line how c) u
  Resumes-bounded {u} (resolution_unsaved how c e) h = said (failure_line how c e) u

  resumed_pending :
      (u v : Ui D) (t : Task) (next before after : List Task)
      → IsFlagged u t v next
      → syncs (before ++ (t ∷ after)) ≡ flag u.is_syncing
      → syncs (before ++ (next ++ after)) ≡ flag v.is_syncing
  resumed_pending u v t next before after (inl (same, w)) p =
      rw (syncs-append before (next ++ after), syncs-append next after, same)
        (omega (arith, w, p, syncs-append before (t ∷ after)))
  resumed_pending u v t next before after (inr (ended, one, w)) p =
      rw (syncs-append before (next ++ after), syncs-append next after, ended)
        (at_most_one (Bool-cases u.is_syncing))
    where
      at_most_one :
          (u.is_syncing ≡ true) ⊎ (u.is_syncing ≡ false)
          → syncs before + (syncs next + syncs after) ≡ 0
      at_most_one (inl on) = omega (arith, one, w, rw on at p, syncs-append before (t ∷ after))
      at_most_one (inr off) =
          absurd (omega (arith, one, rw off at p, syncs-append before (t ∷ after)))

  Step-IsWell :
      {u v : Ui D} {tasks next : List Task} → Step u tasks v next → IsWell u tasks → IsWell v next
  unfolding begin_sync take_folder fail_choice restore_folder restore_permission
  Step-IsWell {u} {v} (resume {t} {next} before after r) i = record {
    pending = resumed_pending u v t next before after (Resumes-IsFlagged r) i.pending;
    bounded = Resumes-bounded r i.bounded;
  }
  Step-IsWell (sync_now handle e idle) i = record {
    pending = omega (arith, rw idle at i.pending);
    bounded = i.bounded;
  }
  Step-IsWell (resolve handle how c e) i = record {
    pending = omega (arith, i.pending);
    bounded = i.bounded;
  }
  Step-IsWell (folder_chosen handle name s) i = record { pending = i.pending; bounded = i.bounded }
  Step-IsWell {u} (choice_failed e) i = elim (Bool-cases (is_dismissed e)) [
    | inl dismissed ↦ rw dismissed i
    | inr failed ↦ rw failed (record { pending = i.pending; bounded = i.bounded })
  ]
  Step-IsWell (restored handle name s) i = record { pending = i.pending; bounded = i.bounded }
  Step-IsWell (permission_known g) i = record { pending = i.pending; bounded = i.bounded }

  -- In every order of clicks and replies, at most one sync is under way, and one is exactly while the
  -- pane shows it; the log never has more than 50 lines.
  pub Reaches-IsWell : {u : Ui D} {tasks : List Task} → Reaches u tasks → IsWell u tasks
  unfolding initial
  Reaches-IsWell opened = record { pending = refl; bounded = omega arith }
  Reaches-IsWell (step r s) = Step-IsWell s (Reaches-IsWell r)
