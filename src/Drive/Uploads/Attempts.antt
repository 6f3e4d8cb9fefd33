-- ===== src/Drive/Uploads/Attempts.antt =====
-- What the loop of the uploads comes to.
use file_space.Api.Types.{ApiFileRecord}
use file_space.Base.{ℕ, zero, suc, String, List, [], ◌∷◌, ◌++◌, ◌≡◌, refl, ◌∙◌, ap, map, inl, inr}
use mathlib.Core.List.{append_assoc, append-nil}
use file_space.Base.Effect.{Result, Result-cases, ok, err}
use file_space.Client.Env.{Call, History, Env}
use file_space.Client.Upload.{upload_file_in_chunks}
use file_space.Drive.Uploads.{
  UploadProgress, initial_progress, set_progress, apply_progress, calls_since, failure_line,
  attempt_upload, upload_from, upload_files,
}
use file_space.Sync.Env.{File}

abbrev names : List UploadProgress → List String
names = map (λ (p : UploadProgress). p.name)

set_progress-names :
    (i loaded total : ℕ) (rows : List UploadProgress)
    → names (set_progress i loaded total rows) ≡ names rows
unfolding set_progress
set_progress-names i loaded total [] = refl
set_progress-names zero loaded total (p ∷ rows) = refl
set_progress-names (suc i) loaded total (p ∷ rows) =
    ap (λ r. p.name ∷ r) (set_progress-names i loaded total rows)

apply_progress-names :
    (i : ℕ) (calls : List Call) (rows : List UploadProgress)
    → names (apply_progress i calls rows) ≡ names rows
unfolding apply_progress
apply_progress-names i [] rows = refl
apply_progress-names i (Call.progress loaded total ∷ calls) rows =
    set_progress-names i loaded total (apply_progress i calls rows)
    ∙ apply_progress-names i calls rows
apply_progress-names i (Call.get_item k ∷ calls) rows = apply_progress-names i calls rows
apply_progress-names i (Call.set_item k v ∷ calls) rows = apply_progress-names i calls rows
apply_progress-names i (Call.remove_item k ∷ calls) rows = apply_progress-names i calls rows
apply_progress-names i (Call.notify_unauthorized ∷ calls) rows = apply_progress-names i calls rows
apply_progress-names i (Call.fetch r ∷ calls) rows = apply_progress-names i calls rows
apply_progress-names i (Call.send r ∷ calls) rows = apply_progress-names i calls rows

initial_progress-names :
    (files : List File) → names (initial_progress files) ≡ map (λ (f : File). f.name) files
unfolding initial_progress
initial_progress-names [] = refl
initial_progress-names (f ∷ files) = ap (λ r. f.name ∷ r) (initial_progress-names files)

-- The line of a failed upload.
abbrev pub line_of : File → Result ApiFileRecord → List String
line_of f (ok created) = []
line_of f (err e) = failure_line f e ∷ []

module _ (env : Env) where
  -- Every file uploaded on its own, one after the other: the lines of those that fail, and the calls.
  abbrev pub failures_of : List File → History → List String
  failures_of [] h = []
  failures_of (f ∷ files) h =
      line_of f (upload_file_in_chunks env f h).0
      ++ failures_of files (upload_file_in_chunks env f h).1

  abbrev pub calls_of : List File → History → History
  calls_of [] h = h
  calls_of (f ∷ files) h = calls_of files (upload_file_in_chunks env f h).1

  attempt_upload_lem :
      (f : File) (failures : List String) (h : History)
      → attempt_upload env f failures h ≡ (
        ok (failures ++ line_of f (upload_file_in_chunks env f h).0),
        (upload_file_in_chunks env f h).1,
      )
  unfolding attempt_upload
  attempt_upload_lem f failures h = elim (Result-cases (upload_file_in_chunks env f h).0) [
    | inl (created, e) ↦ rw (e, append-nil) refl
    | inr (x, e) ↦ rw e refl
  ]

  upload_from_lem :
      (i : ℕ) (files : List File) (failures : List String) (rows : List UploadProgress)
      (h : History)
      → (rows' : List UploadProgress) × (upload_from env i files (failures, rows) h
          ≡ (ok (failures ++ failures_of files h, rows'), calls_of files h))
        × (names rows' ≡ names rows)
  unfolding upload_from
  upload_from_lem i [] failures rows h = (rows, rw append-nil refl, refl)
  upload_from_lem i (f ∷ files) failures rows h =
      let next = (upload_file_in_chunks env f h).1 in
      let updated = apply_progress i (calls_since h next) rows in
      let (rows', run, same) =
        upload_from_lem (suc i) files (failures ++ line_of f (upload_file_in_chunks env f h).0)
          updated next in
      (
        rows',
        rw (attempt_upload_lem f failures h) (run ∙ rw append_assoc refl),
        same ∙ apply_progress-names i (calls_since h next) rows,
      )

  -- The upload of a list of files never throws. It uploads every file, one after the other and
  -- whatever comes of those before it, and makes no other call. It returns one line for each file
  -- whose upload has failed, in the order of the files, and the rows that the page shows keep the
  -- names of the files in their order.
  pub upload_files-attempts :
      (files : List File) (h : History)
      → (rows : List UploadProgress) × (upload_files env files h
          ≡ (ok (failures_of files h, rows), calls_of files h))
        × (map (λ (p : UploadProgress). p.name) rows ≡ map (λ (f : File). f.name) files)
  unfolding upload_files
  upload_files-attempts files h =
      let (rows, run, same) = upload_from_lem 0 files [] (initial_progress files) h in
      (rows, run, same ∙ initial_progress-names files)
