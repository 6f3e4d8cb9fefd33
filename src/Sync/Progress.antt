-- ===== src/Sync/Progress.antt =====
-- The data of one sync cycle, frontend/src/sync/reconcile.ts: conflicts, the result, and the local
-- variables of `reconcile` that its loops share, as the fields of `Progress`.
use file_space.Api.Types.{ApiFileRecord, SyncManifestEntry}
use file_space.Base.{
  ℕ, String, Option, none, some, List, [], ◌∷◌, ◌++◌, ◌<>◌, length, if◌then◌else◌, ◌==◌, string_eq,
}
use file_space.Base.Dict
use file_space.Base.Dict.{Dict}
use file_space.Base.Effect.{Result, ok, err}
use file_space.Base.Text.{to_string, join, sort, to_iso_string}
use file_space.Sync.Scanner.{LocalFileEntry}
use file_space.Sync.Storage.{SyncedFileEntry, SyncState}

pub record SyncConflict : Type 0 where
  pub name : String
  pub remote_id : ℕ
  pub local_size : ℕ
  pub local_mtime : ℕ
  pub remote_size : ℕ
  pub remote_modified_at : String
  pub remote_edited_by : String

pub record ReconcileResult : Type 0 where
  pub entries : Dict SyncedFileEntry
  pub last_synced_version : ℕ
  pub conflicts : List SyncConflict
  pub log : List String

-- `newEntries`, `newConflicts`, the three sets of names and `log`
pub record Progress : Type 0 where
  pub entries : Dict SyncedFileEntry
  pub conflicts : List SyncConflict
  pub conflicted_names : List String
  pub deleted_by_server_names : List String
  pub downloaded_names : List String
  pub log : List String

abbrev pub Locals : Type 0
Locals = Dict LocalFileEntry

abbrev pub Remotes : Type 0
Remotes = Dict ApiFileRecord

unfoldable pub manifest_of : Locals → Result (List SyncManifestEntry)
manifest_of [] = ok []
manifest_of ((name, entry) ∷ locals) = elim (to_iso_string entry.mtime) [
  | err e ↦ err e
  | ok mtime ↦ elim (manifest_of locals) [
    | err e ↦ err e
    | ok rest ↦
        ok (record { name = name; size = entry.size; mtime = mtime; sha256 = entry.sha256 } ∷ rest)
  ]
]

-- `new Map(files.map((f) => [f.name, f]))`: of two files with one name the later stands.
remote_by_name_onto : Remotes → List ApiFileRecord → Remotes
remote_by_name_onto remotes [] = remotes
remote_by_name_onto remotes (f ∷ files) = remote_by_name_onto (Dict.insert f.name f remotes) files

unfoldable pub remote_by_name : List ApiFileRecord → Remotes
unfolding remote_by_name_onto
remote_by_name files = remote_by_name_onto [] files

-- `findIndex`, and the assignment or the `push` behind it
unfoldable pub put_conflict : SyncConflict → List SyncConflict → List SyncConflict
put_conflict c [] = c ∷ []
put_conflict c (d ∷ conflicts) =
    if d.name == c.name then c ∷ conflicts else d ∷ put_conflict c conflicts

abbrev pub conflict_names : List SyncConflict → List String
conflict_names [] = []
conflict_names (c ∷ conflicts) = c.name ∷ conflict_names conflicts

-- `remoteByName.get(name)?.id ?? newEntries[name]?.remoteID`
abbrev pub known_id : Option ApiFileRecord → Option SyncedFileEntry → Option ℕ
known_id (some remote) entry = some remote.id
known_id none none = none
known_id none (some entry) = some entry.remote_id

-- `log.push(line)`
abbrev pub say : String → Progress → Progress
say line p = record p { log = p.log ++ (line ∷ []) }

abbrev pub set_entry : String → SyncedFileEntry → Progress → Progress
set_entry name entry p = record p { entries = Dict.insert name entry p.entries }

abbrev pub synced_entry : ℕ → LocalFileEntry → SyncedFileEntry
synced_entry id local = record {
  remote_id = id;
  size = local.size;
  mtime = local.mtime;
  sha256 = local.sha256;
}

abbrev unreadable_log : List String → List String
unreadable_log [] = []
unreadable_log (n ∷ names) =
    ("Skipping "
      <> (to_string 10 (length (n ∷ names))
          <> (" unreadable file(s), left untouched: " <> join ", " (sort (n ∷ names)))))
    ∷ []

-- The variables before the loops.
unfoldable pub start : SyncState → List SyncConflict → List String → Progress
unfolding to_string join sort
start state conflicts unreadable_names = record {
  entries = state.entries;
  conflicts = conflicts;
  conflicted_names = conflict_names conflicts;
  deleted_by_server_names = [];
  downloaded_names = [];
  log = unreadable_log unreadable_names;
}
