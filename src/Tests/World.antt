-- ===== src/Tests/World.antt =====
-- A folder, a server and the bookkeeping between them, with concrete replies to every call.
use file_space.Api.Types.{
  ApiFileRecord, ListFilesResult, SyncActionKind, SyncAction, SyncDiffResponse,
}
use file_space.Base.{
  ℕ, ◌+◌, string_eq, String, Bool, none, some, List, [], ◌∷◌, ◌==◌, if◌then◌else◌, length,
}
use file_space.Base.Dict.{Dict}
use file_space.Base.Effect.{Result, ok, err, dom_exception, error}
use file_space.Sync.Env.{Bytes, File, file, directory, Handle, Env}
use file_space.Sync.Progress.{SyncConflict}
use file_space.Sync.Storage.{SyncedFileEntry, SyncState}

abbrev pub file_handle : String → Handle
file_handle name = record { kind = file; name = name }

-- Hidden items and folders are skipped, and one file cannot be read.
abbrev pub handles : List Handle
handles =
    file_handle "same"
    ∷ file_handle ".hidden"
    ∷ record { kind = directory; name = "sub" }
    ∷ file_handle "edited"
    ∷ file_handle "new"
    ∷ file_handle "broken"
    ∷ file_handle "clash"
    ∷ []

abbrev pub make_file : String → Bytes → File
make_file name content = record { name = name; last_modified = 1000; content = content }

abbrev pub not_found : Result File
not_found = err (dom_exception "NotReadableError" "broken")

abbrev pub read : String → Result File
read name =
    if name == "broken"
    then not_found
    else ok (make_file name (if name == "edited" then 1 ∷ 2 ∷ [] else 7 ∷ []))

abbrev pub make_record : ℕ → String → ApiFileRecord
make_record id name = record {
  id = id;
  name = name;
  extension = "";
  size = 1;
  created_at = "t0";
  modified_at = "t1";
  uploaded_by = "ann";
  edited_by = "ann";
}

abbrev pub listing : ListFilesResult
listing = record {
  files =
      make_record 1 "same"
      ∷ make_record 2 "edited"
      ∷ make_record 3 "gone"
      ∷ make_record 4 "clash"
      ∷ make_record 5 "broken"
      ∷ make_record 6 "incoming"
      ∷ [];
  has_more = Bool.false;
}

-- An action of the server, with the details of a conflict.
abbrev pub make_action : String → SyncActionKind → SyncAction
make_action name kind = record {
  name = name;
  action = kind;
  remote_version = 9;
  conflict = some (record { remote_size = 2; remote_modified_at = "t2"; remote_edited_by = "bob" });
}

abbrev pub diff : SyncDiffResponse
diff = record { new_version = 9; actions = make_action "clash" SyncActionKind.conflict ∷ [] }

abbrev pub env : Env
env = record {
  values = λ h. (handles, none);
  get_file_handle = λ h name create. ok tt;
  get_file = λ h name. read name;
  array_buffer = λ h f. ok f.content;
  create_writable = λ h name. ok tt;
  write = λ h name content. ok tt;
  close = λ h name. ok tt;
  remove_entry = λ h name. err (error "locked");
  list_files = λ h limit. ok listing;
  sync_diff = λ h version manifest. ok diff;
  download_file = λ h id. ok (7 ∷ []);
  upload_file_in_chunks = λ h f. ok (make_record (10 + length f.content) f.name);
  delete_file = λ h id. err (error "offline");
  digest = λ content. ok content;
}

abbrev pub make_entry : ℕ → String → SyncedFileEntry
make_entry id sha256 = record { remote_id = id; size = 1; mtime = 1000; sha256 = sha256 }

abbrev pub entries : Dict SyncedFileEntry
entries =
    ("same", make_entry 1 "07")
    ∷ ("edited", make_entry 2 "ff")
    ∷ ("gone", make_entry 3 "07")
    ∷ ("clash", make_entry 4 "ff")
    ∷ ("broken", make_entry 5 "07")
    ∷ []

abbrev pub state : SyncState
state = record { last_synced_version = 8; entries = entries }

abbrev pub clash : SyncConflict
clash = record {
  name = "clash";
  remote_id = 4;
  local_size = 1;
  local_mtime = 1000;
  remote_size = 1;
  remote_modified_at = "t1";
  remote_edited_by = "bob";
}

abbrev pub conflicts : List SyncConflict
conflicts = clash ∷ []
