-- ===== src/Sync/Scanner.antt =====
-- The scan of the chosen folder, frontend/src/sync/folderScanner.ts.
pub mod Laws
use file_space.Base.{
  ℕ, String, Bool, true, false, ◌||◌, not, Option, none, some, List, [], if◌then◌else◌, add,
  string_eq,
}
use file_space.Base.Dict
use file_space.Base.Dict.{Dict}
use file_space.Base.Effect.{Exception, Result, of_result, pure, throw, try_catch, for_each, ◌>>=◌}
use file_space.Sync.Env.{size, HandleKind, file, directory, Handle, Call, Env, Sync, call}
use file_space.Sync.Hash.{sha256_hex}
use text.Mathlib.Text.{starts_with}

-- The handle is the file's name in the folder.
pub record LocalFileEntry : Type 0 where
  pub handle : String
  pub size : ℕ
  pub mtime : ℕ
  pub sha256 : String

pub record ScanResult : Type 0 where
  pub entries : Dict LocalFileEntry
  pub unreadable_names : List String

abbrev is_file : HandleKind → Bool
is_file file = true
is_file directory = false

-- The two `continue` tests of the loop.
unfoldable pub is_skipped : Handle → Bool
is_skipped handle = not (is_file handle.kind) || starts_with handle.name "."

abbrev end_of_listing : Option Exception → ScanResult → Sync ScanResult
end_of_listing none r = pure r
end_of_listing (some e) r = throw e

abbrev no_files : ScanResult
no_files = record { entries = []; unreadable_names = [] }

module _ (env : Env) where
  pub read_entry : String → Sync LocalFileEntry
  read_entry name = do
    f ← call (Call.get_file name) (λ h. env.get_file h name)
    buffer ← call (Call.array_buffer f) (λ h. env.array_buffer h f)
    sha256 ← of_result (sha256_hex env buffer)
    pure (record { handle = name; size = size f; mtime = f.last_modified; sha256 = sha256 })

  -- One round of the loop.
  unfoldable pub scan_handle : Handle → ScanResult → Sync ScanResult
  unfolding read_entry sha256_hex is_skipped
  scan_handle handle r =
      if is_skipped handle
      then pure r
      else try_catch
          (do
            entry ← read_entry handle.name
            pure (record r { entries = Dict.insert handle.name entry r.entries }))
          (λ _. pure (record r { unreadable_names = add r.unreadable_names handle.name }))

  abbrev scan_listing : List Handle × Option Exception → Sync ScanResult
  scan_listing (handles, failure) = do
    r ← for_each handles scan_handle no_files
    end_of_listing failure r

  unfoldable pub scan : Sync ScanResult
  unfolding scan_handle
  scan = do listing ← call Call.values (λ h. Result.ok (env.values h)); scan_listing listing
