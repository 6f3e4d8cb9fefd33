-- ===== src/Sync/Actions/Steps/Tracked.antt =====
-- What every run of the first loop keeps of the conflicts, the keys and the sets of names.
use file_space.Api.Types.{download, delete_local, SyncAction}
use file_space.Base.{
  String, List, [], ◌∷◌, true, ◌||◌, ◌≡◌, refl, ◌⊎◌, inl, inr, ◌∙◌, sym, arith, ◌==◌, string_eq,
  contains, contains-add, Distinct,
}
use file_space.Base.Dict.{DistinctKeys, insert-DistinctKeys, erase-DistinctKeys}
use file_space.Sync.Progress.{SyncConflict, Progress, Locals, Remotes, put_conflict, conflict_names}
use file_space.Sync.Actions.Steps.{
  IsAsked, Acted, unlisted, untold, fetched, dropped, disputed, Acts, begun, act, conflict_of,
}

-- The names of the conflicts are distinct, and are those that block the later loops.
pub record IsTracked (p : Progress) : Type 0 where
  pub tracked :
      (n : String) → contains (conflict_names p.conflicts) n ≡ contains p.conflicted_names n
  pub distinct : Distinct (conflict_names p.conflicts)

contains-put_conflict :
    (c : SyncConflict) (conflicts : List SyncConflict) (n : String)
    → contains (conflict_names (put_conflict c conflicts)) n
      ≡ (contains (conflict_names conflicts) n || (n == c.name))
unfolding put_conflict
contains-put_conflict c [] n = ground arith
contains-put_conflict c (d ∷ conflicts) n = ground (arith, contains-put_conflict c conflicts n)

put_conflict-Distinct :
    (c : SyncConflict) (conflicts : List SyncConflict)
    → Distinct (conflict_names conflicts)
    → Distinct (conflict_names (put_conflict c conflicts))
unfolding put_conflict
put_conflict-Distinct c [] d = (refl, tt)
put_conflict-Distinct c (e ∷ conflicts) (fresh, d) =
    ground (arith, put_conflict-Distinct c conflicts d, contains-put_conflict c conflicts e.name)

module _ {locals : Locals} {remotes : Remotes} where
  Acted-IsTracked :
      (a : SyncAction) {q r : Progress} → Acted locals remotes a q r → IsTracked q → IsTracked r
  Acted-IsTracked a (unlisted k l) t = t
  Acted-IsTracked a (untold k x) t = t
  Acted-IsTracked a (fetched f e k l i) t = record { tracked = t.tracked; distinct = t.distinct }
  Acted-IsTracked a (dropped k) t = record { tracked = t.tracked; distinct = t.distinct }
  Acted-IsTracked a {q} (disputed details local id k x l o) t = record {
    tracked = λ n.
        contains-put_conflict (conflict_of a.name id local details) q.conflicts n
        ∙ rw (t.tracked n) (sym (contains-add q.conflicted_names a.name n));
    distinct = put_conflict-Distinct (conflict_of a.name id local details) q.conflicts t.distinct;
  }

  Acted-DistinctKeys :
      (a : SyncAction) {q r : Progress}
      → Acted locals remotes a q r
      → DistinctKeys q.entries
      → DistinctKeys r.entries
  Acted-DistinctKeys a (unlisted k l) d = d
  Acted-DistinctKeys a (untold k x) d = d
  Acted-DistinctKeys a {q} (fetched f e k l i) d = insert-DistinctKeys a.name e q.entries d
  Acted-DistinctKeys a {q} (dropped k) d = erase-DistinctKeys a.name q.entries d
  Acted-DistinctKeys a (disputed details local id k x l o) d = d

  -- A blocked name stays blocked.
  Acted-blocks :
      (a : SyncAction) {q r : Progress}
      → Acted locals remotes a q r
      → (n : String) → contains q.conflicted_names n ≡ true
      → contains r.conflicted_names n ≡ true
  Acted-blocks a (unlisted k l) n h = h
  Acted-blocks a (untold k x) n h = h
  Acted-blocks a (fetched f e k l i) n h = h
  Acted-blocks a (dropped k) n h = h
  Acted-blocks a {q} (disputed details local id k x l o) n h =
      contains-add q.conflicted_names a.name n ∙ rw h

  Acted-download :
      (a : SyncAction) {q r : Progress}
      → Acted locals remotes a q r
      → (n : String) → contains r.downloaded_names n ≡ true
      → (contains q.downloaded_names n ≡ true) ⊎ ((a.action ≡ download) × (a.name ≡ n))
  Acted-download a (unlisted k l) n h = inl h
  Acted-download a (untold k x) n h = inl h
  Acted-download a {q} (fetched f e k l i) n h =
      ground (arith, contains-add q.downloaded_names a.name n)
  Acted-download a (dropped k) n h = inl h
  Acted-download a (disputed details local id k x l o) n h = inl h

  Acted-deletion :
      (a : SyncAction) {q r : Progress}
      → Acted locals remotes a q r
      → (n : String) → contains r.deleted_by_server_names n ≡ true
      → (contains q.deleted_by_server_names n ≡ true) ⊎ ((a.action ≡ delete_local) × (a.name ≡ n))
  Acted-deletion a (unlisted k l) n h = inl h
  Acted-deletion a (untold k x) n h = inl h
  Acted-deletion a (fetched f e k l i) n h = inl h
  Acted-deletion a {q} (dropped k) n h =
      ground (arith, contains-add q.deleted_by_server_names a.name n)
  Acted-deletion a (disputed details local id k x l o) n h = inl h

  module _ {actions : List SyncAction} {p : Progress} where
    pub Acts-IsTracked :
        {q : Progress} → Acts locals remotes actions p q → IsTracked p → IsTracked q
    Acts-IsTracked begun t = t
    Acts-IsTracked (act a s m x) t = Acted-IsTracked a x (Acts-IsTracked s t)

    pub Acts-DistinctKeys :
        {q : Progress}
        → Acts locals remotes actions p q
        → DistinctKeys p.entries
        → DistinctKeys q.entries
    Acts-DistinctKeys begun d = d
    Acts-DistinctKeys (act a s m x) d = Acted-DistinctKeys a x (Acts-DistinctKeys s d)

    pub Acts-blocks :
        {q : Progress}
        → Acts locals remotes actions p q
        → (n : String) → contains p.conflicted_names n ≡ true
        → contains q.conflicted_names n ≡ true
    Acts-blocks begun n h = h
    Acts-blocks (act a s m x) n h = Acted-blocks a x n (Acts-blocks s n h)

    -- A name is marked as downloaded or as deleted by the server by an action of that kind only.
    pub Acts-download :
        {q : Progress}
        → Acts locals remotes actions p q
        → (n : String) → contains q.downloaded_names n ≡ true
        → (contains p.downloaded_names n ≡ true) ⊎ IsAsked actions download n
    Acts-download begun n h = inl h
    Acts-download (act a s m x) n h = elim (Acted-download a x n h) [
      | inl before ↦ Acts-download s n before
      | inr (k, e) ↦ inr (a, m, k, e)
    ]

    pub Acts-deletion :
        {q : Progress}
        → Acts locals remotes actions p q
        → (n : String) → contains q.deleted_by_server_names n ≡ true
        → (contains p.deleted_by_server_names n ≡ true) ⊎ IsAsked actions delete_local n
    Acts-deletion begun n h = inl h
    Acts-deletion (act a s m x) n h = elim (Acted-deletion a x n h) [
      | inl before ↦ Acts-deletion s n before
      | inr (k, e) ↦ inr (a, m, k, e)
    ]
