-- ===== src/Sync/Passes/Removals.antt =====
-- The third loop: what is deleted remotely, and what it leaves of the bookkeeping.
use mathlib.Core.List.{append_assoc, append-nil}
use file_space.Base.{
  String, Option, none, some, List, [], ◌∷◌, ◌++◌, true, false, ◌≡◌, refl, ◌∙◌, arith,
  if◌then◌else◌, string_eq, contains, filter, Distinct, filter-Distinct, contains-filter,
  Option-cases, inl, inr, Bool-cases, sym, ◌↔◌,
}
use file_space.Base.Dict
use file_space.Base.Dict.{Dict, DistinctKeys, lookup-erase, has-lookup, contains-keys, has}
use file_space.Base.Effect.{ok}
use file_space.Base.Effect.Logic.{Grows, Grows-chain, here, next}
use file_space.Sync.Env.{Call, History, Env}
use file_space.Sync.Passes.{is_removed_locally, removed_locally, forgotten, remove_one, remove_all}
use file_space.Sync.Progress.{Progress, Locals}
use file_space.Sync.Storage.{SyncedFileEntry}

abbrev deletion : Option SyncedFileEntry → List Call
deletion none = []
deletion (some known) = Call.delete_file known.remote_id ∷ []

-- One deletion for each name that has an entry, by its remote id; the last one first.
abbrev pub deletions : Dict SyncedFileEntry → List String → List Call
deletions entries [] = []
deletions entries (name ∷ names) = deletions entries names ++ deletion (Dict.lookup name entries)

deletions-erase :
    (entries : Dict SyncedFileEntry) (name : String) (names : List String)
    → contains names name ≡ false
    → deletions (Dict.erase name entries) names ≡ deletions entries names
deletions-erase entries name [] h = refl
deletions-erase entries name (n ∷ names) h =
    rw (lookup-erase n name entries, deletions-erase entries name names (ground arith))
      (ground arith)

-- The outcome of the loop from `p` for `names`.
abbrev IsRemoved : List String → Progress → Progress → Type 0
IsRemoved names p q =
    ((n : String)
      → Dict.lookup n q.entries ≡ (if contains names n then none else Dict.lookup n p.entries))
    × (q.conflicts ≡ p.conflicts)

-- A name that is not in the folder, not unreadable, not in conflict and not downloaded.
abbrev pub IsGone : Locals → List String → Progress → String → Type 0
IsGone locals unreadable_names p n =
    (has n locals ≡ false)
    × (contains unreadable_names n ≡ false)
    × (contains p.conflicted_names n ≡ false)
    × (contains p.downloaded_names n ≡ false)

pub is_removed_locally-IsGone :
    (locals : Locals) (unreadable_names : List String) (p : Progress) (n : String)
    → (is_removed_locally locals unreadable_names p n ≡ true) ↔ IsGone locals unreadable_names p n
unfolding is_removed_locally
is_removed_locally-IsGone locals unreadable_names p n = (
  λ h. (ground (arith, h), ground (arith, h), ground (arith, h), ground (arith, h)),
  λ (a, b, c, d). rw (a, b, c, d) refl,
)

-- The deletions are calls that `P` allows.
pub deletions-Grows {κ} :
    (P : History → Call → Type κ) (entries : Dict SyncedFileEntry) (names : List String)
    (h : History)
    → ((n : String) (known : SyncedFileEntry) (h' : History)
        → contains names n ≡ true
        → Dict.lookup n entries ≡ some known
        → P h' (Call.delete_file known.remote_id))
    → Grows P h (deletions entries names ++ h)
deletions-Grows P entries [] h k = here
deletions-Grows P entries (name ∷ names) h k = rw append_assoc (
    Grows-chain P h (deletion (Dict.lookup name entries) ++ h) _
      (first (Dict.lookup name entries) refl)
      (deletions-Grows P entries names _ (λ n known h' m e. k n known h' (ground arith) e)))
  where
    first :
        (entry : Option SyncedFileEntry)
        → Dict.lookup name entries ≡ entry
        → Grows P h (deletion entry ++ h)
    first none e = here
    first (some known) e = next here (k name known h (ground arith) e)

module _ (env : Env) where
  pub remove_all_lem :
      (names : List String) (p : Progress) (h : History)
      → Distinct names
      → (q : Progress) × (remove_all env names p h ≡ (ok q, deletions p.entries names ++ h))
        × IsRemoved names p q
  unfolding remove_one
  remove_all_lem [] p h d = (p, refl, (λ n. refl, refl))
  remove_all_lem (name ∷ names) p h (fresh, d) = elim (Option-cases (Dict.lookup name p.entries)) [
    | inl e ↦
        let (q, run, (look, same)) = remove_all_lem names p h d in
        (q, rw (e, append-nil) run, (λ n. ground (arith, look n), same))
    | inr (known, e) ↦
        let p' : Progress = forgotten name p in
        let (q, run, (look, same)) =
          remove_all_lem names p' (Call.delete_file known.remote_id ∷ h) d in
        (
          q,
          rw e (run ∙ rw (deletions-erase p.entries name names fresh, append_assoc)),
          (λ n. ground (arith, look n, lookup-erase n name p.entries), same),
        )
  ]

  removed_locally-IsGone :
      (locals : Locals) (unreadable_names : List String) (p : Progress) (n : String)
      → (contains (removed_locally locals unreadable_names p) n ≡ true)
        ↔ ((has n p.entries ≡ true) × IsGone locals unreadable_names p n)
  unfolding removed_locally
  removed_locally-IsGone locals unreadable_names p n =
      let test = is_removed_locally locals unreadable_names p in
      let (known, gone) = contains-filter test (Dict.keys p.entries) n in
      (
        λ h. (
          sym (contains-keys p.entries n) ∙ (known h).0,
          (is_removed_locally-IsGone locals unreadable_names p n).0 (known h).1,
        ),
        λ (k, g). gone (
          contains-keys p.entries n ∙ k,
          (is_removed_locally-IsGone locals unreadable_names p n).1 g,
        ),
      )

  -- The third loop never throws. The names that it takes are the known ones that are neither in the
  -- folder, nor unreadable, nor in conflict, nor downloaded in this cycle, each once. It makes one
  -- remote deletion for each, by the remote id in the bookkeeping, and no other call. These names
  -- lose their entries, every other name keeps its own, and the conflicts stay. The bookkeeping has
  -- one entry for a name.
  pub remove_all-removed_locally :
      (locals : Locals) (unreadable_names : List String) (p : Progress) (h : History)
      → DistinctKeys p.entries
      → (names : List String) × (q : Progress) × (remove_all env
            (removed_locally locals unreadable_names p)
            p
            h
          ≡ (ok q, deletions p.entries names ++ h))
        × Distinct names
        × ((n : String)
            → (contains names n ≡ true)
              ↔ ((has n p.entries ≡ true) × IsGone locals unreadable_names p n))
        × ((n : String) → IsGone locals unreadable_names p n → Dict.lookup n q.entries ≡ none)
        × ((n : String)
            → ¬ IsGone locals unreadable_names p n
            → Dict.lookup n q.entries ≡ Dict.lookup n p.entries)
        × (q.conflicts ≡ p.conflicts)
  unfolding removed_locally
  remove_all-removed_locally locals unreadable_names p h d =
      let names = filter (is_removed_locally locals unreadable_names p) (Dict.keys p.entries) in
      let once = filter-Distinct _ (Dict.keys p.entries) d in
      let (q, run, (look, same)) = remove_all_lem names p h once in
      let taken = λ (n : String). removed_locally-IsGone locals unreadable_names p n in
      (
        names,
        q,
        run,
        once,
        taken,
        (λ n g. look n ∙ elim (Bool-cases (has n p.entries)) [
          | inl known ↦ rw ((taken n).1 (known, g)) refl
          | inr unknown ↦ elim (Bool-cases (contains names n)) [
            | inl m ↦ rw m refl
            | inr m ↦ rw m ((has-lookup n p.entries).0 unknown)
          ]
        ]),
        (λ n k. look n ∙ elim (Bool-cases (contains names n)) [
          | inl m ↦ absurd (k ((taken n).0 m).1)
          | inr m ↦ rw m refl
        ]),
        same,
      )
