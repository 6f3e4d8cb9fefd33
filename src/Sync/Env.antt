-- ===== src/Sync/Env.antt =====
-- What the sync code calls and does not implement: the chosen folder behind the File System Access
-- API, `crypto.subtle`, and the `ReconcileApi` of reconcile.ts. A call is recorded in the history,
-- and each reply is a function of all calls made before it, so an environment may change at any
-- moment and may fail at any call. The proofs that need more of it say so in a hypothesis.
pub mod Trace
use file_space.Api.Types.{ApiFileRecord, ListFilesResult, SyncManifestEntry, SyncDiffResponse}
use file_space.Base.{ℕ, String, Bool, Option, List, ◌∷◌, length}
use file_space.Base.Effect.{Exception, Result, M}

-- The bytes of a `Blob`, an `ArrayBuffer` or a `File`.
abbrev pub Bytes : Type 0
Bytes = List ℕ

pub record File : Type 0 where
  pub name : String
  pub last_modified : ℕ
  pub content : Bytes

-- `file.size`
abbrev pub size : File → ℕ
size f = length f.content

pub data HandleKind : Type 0 where
  file directory : HandleKind

-- A handle that the folder lists. A file's handle is known by its name in the folder.
pub record Handle : Type 0 where
  pub kind : HandleKind
  pub name : String

pub data Call : Type 0 where
  values : Call
  get_file_handle : (name : String) (create : Bool) → Call
  get_file : String → Call
  array_buffer : File → Call
  create_writable : String → Call
  write : String → Bytes → Call
  close : String → Call
  remove_entry : String → Call
  list_files : (limit : ℕ) → Call
  sync_diff : (last_synced_version : ℕ) → List SyncManifestEntry → Call
  download_file : (id : ℕ) → Call
  upload_file_in_chunks : File → Call
  delete_file : (id : ℕ) → Call

-- The calls made so far, the last one first.
abbrev pub History : Type 0
History = List Call

-- The listing yields its handles one by one and then ends, or throws; the calls made between two
-- handles follow from the history at its start, and so does all that it will yield.
pub record Env : Type 0 where
  pub values : History → List Handle × Option Exception
  pub get_file_handle : History → String → Bool → Result (Unit {0})
  pub get_file : History → String → Result File
  pub array_buffer : History → File → Result Bytes
  pub create_writable : History → String → Result (Unit {0})
  pub write : History → String → Bytes → Result (Unit {0})
  pub close : History → String → Result (Unit {0})
  pub remove_entry : History → String → Result (Unit {0})
  pub list_files : History → ℕ → Result ListFilesResult
  pub sync_diff : History → ℕ → List SyncManifestEntry → Result SyncDiffResponse
  pub download_file : History → ℕ → Result Bytes
  pub upload_file_in_chunks : History → File → Result ApiFileRecord
  pub delete_file : History → ℕ → Result (Unit {0})
  pub digest : Bytes → Result Bytes

-- Sync code that returns an `A`.
abbrev pub Sync {ℓ} : Type ℓ → Type ℓ
Sync A = M History A

abbrev pub call {ℓ} : {A : Type ℓ} → Call → (History → Result A) → Sync A
call c reply h = (reply h, c ∷ h)
