-- ===== src/Sync/Passes/Quiet.antt =====
-- When the second and the third loop have nothing to do.
use file_space.Base.{
  String, Bool, true, false, Option, none, some, List, [], ◌∷◌, ◌≡◌, refl, sym, ◌∙◌, ◌⊎◌, inl, inr,
  arith, string_eq, filter_none, Bool-cases, ==-cases,
}
use mathlib.Core.Option.{none-ne-some}
use file_space.Base.Dict
use file_space.Base.Dict.{
  Dict, DistinctKeys, lookup-cons, has, has-lookup, has-cons_self, DistinctKeys-cons, contains-keys,
}
use file_space.Base.Effect.{ok}
use file_space.Sync.Env.{History, Env}
use file_space.Sync.Passes.{is_removed_locally, removed_locally, upload_one, upload_all, remove_all}
use file_space.Sync.Passes.Rounds.{is_blocked, IsSame, is_unchanged-IsSame}
use file_space.Sync.Progress.{Progress, Locals, Remotes}
use file_space.Sync.Scanner.{LocalFileEntry}
use file_space.Sync.Storage.{SyncedFileEntry}

-- A file of the scan has an entry with its size and hash, or none while its name is taken on the
-- server.
abbrev pub IsInStep : LocalFileEntry → Bool → Option SyncedFileEntry → Type 0
IsInStep local listed entry =
    ((known : SyncedFileEntry) × (entry ≡ some known) × IsSame known local)
    ⊎ ((entry ≡ none) × (listed ≡ true))

module _ (env : Env) (remotes : Remotes) (p : Progress) where
  abbrev pub IsQuiet : String → LocalFileEntry → Type 0
  IsQuiet n local =
      (is_blocked p n ≡ true) ⊎ IsInStep local (has n remotes) (Dict.lookup n p.entries)

  upload_one_quiet :
      (n : String) (local : LocalFileEntry) (h : History)
      → IsQuiet n local
      → upload_one env remotes (n, local) p h ≡ (ok p, h)
  unfolding upload_one
  upload_one_quiet n local h (inl blocked) = rw blocked refl
  upload_one_quiet n local h (inr (inl (known, e, s))) =
      let same = (is_unchanged-IsSame known local).1 s in
      elim (Bool-cases (is_blocked p n)) [
        | inl blocked ↦ rw blocked refl
        | inr free ↦ rw (free, e, same) refl
      ]
  upload_one_quiet n local h (inr (inr (e, listed))) = elim (Bool-cases (is_blocked p n)) [
    | inl blocked ↦ rw blocked refl
    | inr free ↦ rw (free, e, listed) refl
  ]

  lookup_behind :
      (name : String) (local : LocalFileEntry) (rest : Locals)
      → DistinctKeys ((name, local) ∷ rest)
      → (n : String) (x : LocalFileEntry) → Dict.lookup n rest ≡ some x
      → Dict.lookup n ((name, local) ∷ rest) ≡ some x
  lookup_behind name local rest d n x e =
      let (fresh, d') = DistinctKeys-cons name local rest d in
      elim (==-cases n name) [
        | inl same ↦ absurd (none-ne-some x (sym ((has-lookup name rest).0 fresh) ∙ rw (← same) e))
        | inr other ↦ lookup-cons n name local rest ∙ rw other e
      ]

  pub upload_all_quiet :
      (locals : Locals) (h : History)
      → DistinctKeys locals
      → ((n : String) (local : LocalFileEntry)
          → Dict.lookup n locals ≡ some local
          → IsQuiet n local)
      → upload_all env remotes locals p h ≡ (ok p, h)
  upload_all_quiet [] h d k = refl
  upload_all_quiet ((name, local) ∷ rest) h d k =
      let own : Dict.lookup name ((name, local) ∷ rest) ≡ some local =
        ground (arith, lookup-cons name name local rest) in
      rw (upload_one_quiet name local h (k name local own)) (
        upload_all_quiet rest h (DistinctKeys-cons name local rest d).1
          (λ n x e. k n x (lookup_behind name local rest d n x e)))

  pub remove_all_quiet :
      (locals : Locals) (unreadable_names : List String) (h : History)
      → ((n : String)
          → has n p.entries ≡ true
          → is_removed_locally locals unreadable_names p n ≡ false)
      → remove_all env (removed_locally locals unreadable_names p) p h ≡ (ok p, h)
  unfolding removed_locally
  remove_all_quiet locals unreadable_names h k =
      rw
        (filter_none (is_removed_locally locals unreadable_names p) (Dict.keys p.entries)
          (λ n m. k n (sym (contains-keys p.entries n) ∙ m)))
        refl
