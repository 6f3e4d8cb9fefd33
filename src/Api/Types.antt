-- ===== src/Api/Types.antt =====
-- The wire types of frontend/src/api/types.ts. Sizes, ids and versions are natural numbers.
use file_space.Base.{ℕ, String, Bool, Option, List}

pub record ApiFileRecord : Type 0 where
  pub id : ℕ
  pub name : String
  pub extension : String
  pub size : ℕ
  pub created_at : String
  pub modified_at : String
  pub uploaded_by : String
  pub edited_by : String

pub data SortOrder : Type 0 where
  asc desc : SortOrder

pub data SortField : Type 0 where
  name created_at modified_at uploaded_by edited_by : SortField

pub record ListFilesParams : Type 0 where
  pub sort : Option SortField
  pub order : Option SortOrder
  pub extension : Option String
  pub limit : Option ℕ
  pub offset : Option ℕ

pub record ListFilesResult : Type 0 where
  pub files : List ApiFileRecord
  pub has_more : Bool

pub record SyncManifestEntry : Type 0 where
  pub name : String
  pub size : ℕ
  pub mtime : String
  pub sha256 : String

pub data SyncActionKind : Type 0 where
  download delete_local conflict : SyncActionKind

pub record SyncConflictDetails : Type 0 where
  pub remote_size : ℕ
  pub remote_modified_at : String
  pub remote_edited_by : String

pub record SyncAction : Type 0 where
  pub name : String
  pub action : SyncActionKind
  pub remote_version : ℕ
  pub conflict : Option SyncConflictDetails

pub record SyncDiffResponse : Type 0 where
  pub new_version : ℕ
  pub actions : List SyncAction
