-- ===== src/Drive/Uploads.antt =====
-- Uploads from the file list, and what the page shows of them, frontend/src/App.tsx.
pub mod Attempts
use file_space.Api.Types.{ApiFileRecord}
use file_space.Base.{
  ℕ, zero, suc, ◌-◌, String, Bool, Option, none, some, List, [], ◌∷◌, ◌++◌, ◌<>◌, length, take, map,
}
use file_space.Base.Effect.{Exception, Result, ok, err, message_of, pure, try_catch, ◌>>=◌, ◌>>◌}
use file_space.Base.Text.{join}
use file_space.Client.Env.{Call, History, Env, Client}
use file_space.Client.Endpoints.{delete_file}
use file_space.Client.Upload.{upload_file_in_chunks}
use file_space.Sync.Env.{File, size}

pub record UploadProgress : Type 0 where
  pub name : String
  pub loaded : ℕ
  pub total : ℕ

-- What an upload or a deletion changes of the page.
pub record Board : Type 0 where
  pub selected_files : List File
  pub upload_progress : List UploadProgress
  pub action_error : Option String

-- `files.map((f) => ({ name: f.name, loaded: 0, total: f.size }))`
unfoldable pub initial_progress : List File → List UploadProgress
initial_progress files =
    map (λ (f : File). record { name = f.name; loaded = 0; total = size f }) files

-- `prev.map((p, idx) => (idx === i ? { ...p, loaded, total } : p))`
unfoldable pub set_progress : ℕ → (loaded total : ℕ) → List UploadProgress → List UploadProgress
set_progress i loaded total [] = []
set_progress zero loaded total (p ∷ rows) = record p { loaded = loaded; total = total } ∷ rows
set_progress (suc i) loaded total (p ∷ rows) = p ∷ set_progress i loaded total rows

-- The calls of `onProgress` among the calls, the last one first, each applied to row `i`.
unfoldable pub apply_progress : ℕ → List Call → List UploadProgress → List UploadProgress
unfolding set_progress
apply_progress i [] rows = rows
apply_progress i (Call.progress loaded total ∷ calls) rows =
    set_progress i loaded total (apply_progress i calls rows)
apply_progress i (c ∷ calls) rows = apply_progress i calls rows

-- The calls made since the history `before`.
abbrev pub calls_since : (before after : History) → List Call
calls_since before after = take (length after - length before) after

abbrev pub failure_line : File → Exception → String
failure_line f e = f.name <> (": " <> message_of "upload failed" e)

module _ (env : Env) where
  -- The `try` and `catch` of the loop, around one file.
  unfoldable pub attempt_upload : File → List String → Client (List String)
  unfolding upload_file_in_chunks
  attempt_upload f failures =
      try_catch (upload_file_in_chunks env f >> pure failures)
        (λ e. pure (failures ++ (failure_line f e ∷ [])))

  -- The loop from index `i` on, with the rows that the page shows meanwhile.
  unfoldable pub upload_from :
      ℕ → List File → List String × List UploadProgress → Client (List String × List UploadProgress)
  unfolding attempt_upload apply_progress
  upload_from i [] (failures, rows) h = pure (failures, rows) h
  upload_from i (f ∷ files) (failures, rows) h =
      (attempt_upload f failures >>= λ failures' h'.
      upload_from (suc i) files (failures', apply_progress i (calls_since h h') rows) h')
        h

  -- The mutation function.
  unfoldable pub upload_files : List File → Client (List String × List UploadProgress)
  unfolding upload_from initial_progress
  upload_files files = upload_from 0 files ([], initial_progress files)

-- The message after an upload whose failures are the lines given.
unfoldable pub failures_error : List String → Option String
unfolding join
failures_error [] = none
failures_error (f ∷ failures) = some ("Some uploads failed — " <> join "; " (f ∷ failures))

-- `onSuccess` of an upload
unfoldable pub upload_done : List String → Board → Board
unfolding failures_error
upload_done failures b = record {
  selected_files = [];
  upload_progress = [];
  action_error = failures_error failures;
}

-- `onError` of an upload
unfoldable pub upload_broken : Exception → Board → Board
upload_broken e b = record b {
  upload_progress = [];
  action_error = some (message_of "Upload failed" e);
}

-- The deletion of a file, with its `onSuccess` and `onError`
unfoldable pub delete_done : Result (Unit {0}) → Board → Board
delete_done (ok u) b = record b { action_error = none }
delete_done (err e) b = record b { action_error = some (message_of "Delete failed" e) }

-- The files of the button's click, if any.
unfoldable pub files_to_upload : List File → Option (List File)
files_to_upload [] = none
files_to_upload (f ∷ files) = some (f ∷ files)
