-- ===== src/Sync/Actions/Steps.antt =====
-- The first loop as a step relation, and what every run of steps keeps.
pub mod Tracked
use mathlib.Core.List.{Memᴰ}
use file_space.Api.Types.{
  ApiFileRecord, SyncActionKind, download, delete_local, conflict, SyncAction, SyncConflictDetails,
}
use file_space.Base.{
  ℕ, ◌<>◌, ◌++◌, add, String, none, some, List, [], ◌∷◌, true, ◌||◌, ◌≡◌, refl, ◌⊎◌, inl, inr, ◌∙◌,
  sym, arith, ◌==◌, string_eq, contains, contains-add, Distinct, ==-cases, or_false,
}
use file_space.Base.Dict
use file_space.Base.Dict.{
  DistinctKeys, lookup-insert, lookup-erase, insert-DistinctKeys, erase-DistinctKeys, has,
}
use file_space.Sync.Actions.{downloaded, removed, record_conflict}
use file_space.Sync.Progress.{SyncConflict, Progress, Locals, Remotes, put_conflict, conflict_names}
use file_space.Sync.Scanner.{LocalFileEntry}
use file_space.Sync.Storage.{SyncedFileEntry}

-- The server has asked for an action on a name.
abbrev pub IsAsked : List SyncAction → SyncActionKind → String → Type 0
IsAsked actions kind name = (a : SyncAction) × Memᴰ a actions × (a.action ≡ kind) × (a.name ≡ name)

-- The conflict of a name, from the scan, the server's details and the id of the remote file.
abbrev pub conflict_of : String → ℕ → LocalFileEntry → SyncConflictDetails → SyncConflict
conflict_of name id local details = record {
  name = name;
  remote_id = id;
  local_size = local.size;
  local_mtime = local.mtime;
  remote_size = details.remote_size;
  remote_modified_at = details.remote_modified_at;
  remote_edited_by = details.remote_edited_by;
}

module _ (locals : Locals) (remotes : Remotes) where
  -- The id of a name's remote file: the listed one, or the one of the bookkeeping if none is listed.
  abbrev IsKnownId : String → Progress → ℕ → Type 0
  IsKnownId name p id =
      ((r : ApiFileRecord) × (Dict.lookup name remotes ≡ some r) × (r.id ≡ id))
      ⊎ ((e : SyncedFileEntry) × (Dict.lookup name remotes ≡ none)
          × (Dict.lookup name p.entries ≡ some e)
          × (e.remote_id ≡ id))

  -- A conflict that cannot be told: no details, no file in the folder, or no remote file known.
  abbrev IsUntold : SyncAction → Progress → Type 0
  IsUntold a p =
      (a.conflict ≡ none)
      ⊎ ((Dict.lookup a.name locals ≡ none)
          ⊎ ((Dict.lookup a.name remotes ≡ none) × (Dict.lookup a.name p.entries ≡ none)))

  -- One action takes the progress `p` to another.
  pub data Acted (a : SyncAction) (p : Progress) : Progress → Type 0 where
    unlisted : a.action ≡ download → Dict.lookup a.name remotes ≡ none → Acted a p p
    untold : a.action ≡ conflict → IsUntold a p → Acted a p p
    fetched :
        (r : ApiFileRecord) (e : SyncedFileEntry)
        → a.action ≡ download
        → Dict.lookup a.name remotes ≡ some r
        → e.remote_id ≡ r.id
        → Acted a p (record p {
          entries = Dict.insert a.name e p.entries;
          downloaded_names = add p.downloaded_names a.name;
          log = p.log ++ (("Downloaded " <> a.name) ∷ []);
        })
    dropped :
        a.action ≡ delete_local
        → Acted a p (record p {
          entries = Dict.erase a.name p.entries;
          deleted_by_server_names = add p.deleted_by_server_names a.name;
          log = p.log ++ (("Removed local " <> (a.name <> " (deleted remotely)")) ∷ []);
        })
    disputed :
        (details : SyncConflictDetails) (local : LocalFileEntry) (id : ℕ)
        → a.action ≡ conflict
        → a.conflict ≡ some details
        → Dict.lookup a.name locals ≡ some local
        → IsKnownId a.name p id
        → Acted a p (record p {
          conflicts = put_conflict (conflict_of a.name id local details) p.conflicts;
          conflicted_names = add p.conflicted_names a.name;
          log = p.log ++ ((a.name <> " changed on both sides — needs your decision") ∷ []);
        })

  -- The actions of a list one after another, each once.
  pub data ActsInOrder : List SyncAction → Progress → Progress → Type 0 where
    finished : {p : Progress} → ActsInOrder [] p p
    after :
        {p q r : Progress} (a : SyncAction) (rest : List SyncAction)
        → Acted a p q
        → ActsInOrder rest q r
        → ActsInOrder (a ∷ rest) p r

  module _ (actions : List SyncAction) (p : Progress) where
    -- The actions of the list, in any number and order.
    pub data Acts : Progress → Type 0 where
      begun : Acts p
      act : {q r : Progress} (a : SyncAction) → Acts q → Memᴰ a actions → Acted a q r → Acts r

    -- Where the entry of a name comes from: it is the one from the start, or an action of the list
    -- has downloaded the listed file of this name, or has removed the name.
    abbrev pub IsOrigin : String → Progress → Type 0
    IsOrigin n q =
        (Dict.lookup n q.entries ≡ Dict.lookup n p.entries)
        ⊎ ((a : SyncAction) × Memᴰ a actions
            × (a.name ≡ n)
            × (((a.action ≡ download)
                  × (contains q.downloaded_names n ≡ true)
                  × ((r : ApiFileRecord) × (e : SyncedFileEntry) × (Dict.lookup n remotes ≡ some r)
                      × (Dict.lookup n q.entries ≡ some e)
                      × (e.remote_id ≡ r.id)))
                ⊎ ((a.action ≡ delete_local)
                    × (Dict.lookup n q.entries ≡ none)
                    × (contains q.deleted_by_server_names n ≡ true))))

    fetched-IsOrigin :
        (q : Progress) (a : SyncAction) (f : ApiFileRecord) (e : SyncedFileEntry)
        → Memᴰ a actions
        → a.action ≡ download
        → Dict.lookup a.name remotes ≡ some f
        → e.remote_id ≡ f.id
        → (n : String) → n ≡ a.name
        → IsOrigin n (downloaded a.name e q)
    fetched-IsOrigin q a f e m k l i n same = inr (
      a,
      m,
      sym same,
      inl (
        k,
        ground (arith, contains-add q.downloaded_names a.name n),
        (f, e, rw same l, ground (arith, lookup-insert n a.name e q.entries), i),
      ),
    )

    dropped-IsOrigin :
        (q : Progress) (a : SyncAction)
        → Memᴰ a actions
        → a.action ≡ delete_local
        → (n : String) → n ≡ a.name
        → IsOrigin n (removed a.name q)
    dropped-IsOrigin q a m k n same = inr (
      a,
      m,
      sym same,
      inr (
        k,
        ground (arith, lookup-erase n a.name q.entries),
        ground (arith, contains-add q.deleted_by_server_names a.name n),
      ),
    )

    Acted-IsOrigin :
        (a : SyncAction) {q r : Progress}
        → Memᴰ a actions
        → Acted a q r
        → (n : String) → IsOrigin n q
        → IsOrigin n r
    Acted-IsOrigin a m (unlisted k l) n o = o
    Acted-IsOrigin a m (untold k x) n o = o
    Acted-IsOrigin a {q} m (fetched f e k l i) n o = elim (==-cases n a.name) [
      | inl same ↦ fetched-IsOrigin q a f e m k l i n same
      | inr other ↦
          rw
            (
              lookup-insert n a.name e q.entries,
              contains-add q.downloaded_names a.name n,
              other,
              or_false,
            )
            o
    ]
    Acted-IsOrigin a {q} m (dropped k) n o = elim (==-cases n a.name) [
      | inl same ↦ dropped-IsOrigin q a m k n same
      | inr other ↦
          rw
            (
              lookup-erase n a.name q.entries,
              contains-add q.deleted_by_server_names a.name n,
              other,
              or_false,
            )
            o
    ]
    Acted-IsOrigin a m (disputed details local id k x l t) n o = o

    -- After any number of actions.
    pub Acts-IsOrigin : {q : Progress} → Acts q → (n : String) → IsOrigin n q
    Acts-IsOrigin begun n = inl refl
    Acts-IsOrigin (act a s m t) n = Acted-IsOrigin a m t n (Acts-IsOrigin s n)

    -- The actions in their order are some of the list, in some order.
    in_order-Acts :
        {q r : Progress} (rest : List SyncAction)
        → ((a : SyncAction) → Memᴰ a rest → Memᴰ a actions)
        → Acts q
        → ActsInOrder rest q r
        → Acts r
    in_order-Acts [] sub s finished = s
    in_order-Acts (a ∷ rest) sub s (after b others t later) =
        in_order-Acts rest (λ x n. sub x (Memᴰ.tail n)) (act a s (sub a (Memᴰ.head refl)) t) later

    pub ActsInOrder-Acts : {q : Progress} → ActsInOrder actions p q → Acts q
    ActsInOrder-Acts s = in_order-Acts actions (λ a m. m) begun s
