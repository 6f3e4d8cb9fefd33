-- ===== src/Tests/Page.antt =====
-- Uploads that fail, previews, the extension menu and downloads.
use file_space.Api.Types.{ApiFileRecord}
use file_space.Base.{
  ◌<>◌, ℕ, String, true, false, some, List, [], ◌∷◌, ◌≡◌, refl, ◌↔◌, string_eq, nat_eq, map,
  contains, Distinct,
}
use file_space.Base.Effect.{ok}
use file_space.Base.Text.Sorted.{IsSorted}
use file_space.Base.Text.Uri.RoundTrip.{encode}
use file_space.Client.Download.{parse_filename}
use file_space.Client.Download.Filename.{has, is_empty, parse_filename-encode}
use file_space.Drive.Columns.{extension_options, choose_extension}
use file_space.Drive.Columns.Options.{extension_options_complete}
use file_space.Drive.Preview.{
  closed_viewer, url_of, unmount, Event, committed, closed, opened, received, handle_all,
  each_committed,
}
use file_space.Drive.Preview.Commits.{handle_all-urls}
use file_space.Drive.Preview.Urls.{IsSafe}
use file_space.Drive.Uploads.{UploadProgress, upload_files}
use file_space.Drive.Uploads.Attempts.{failures_of, calls_of, upload_files-attempts}
use file_space.Sync.Env.{File}
use file_space.Tests.Drive.{file, env}
use file_space.Tests.Requests.{big}

abbrev picked : List File
picked = big ∷ record big { name = "other" } ∷ []

upload_files-attempts_example :
    (rows : List UploadProgress) × (upload_files env picked []
      ≡ (ok (failures_of env picked [], rows), calls_of env picked []))
    × (map (λ (p : UploadProgress). p.name) rows ≡ "big" ∷ "other" ∷ [])
upload_files-attempts_example = upload_files-attempts env picked []

abbrev events : List Event
events =
    opened file
    ∷ received file (ok (ok ""))
    ∷ committed
    ∷ opened file
    ∷ closed
    ∷ received file (ok (ok ""))
    ∷ []

-- A preview that is closed while it loads opens again when its content comes.
reopened_test : url_of (handle_all (each_committed events) closed_viewer).shown ≡ some 1
unfolding handle_all url_of string_eq nat_eq
reopened_test = refl

handle_all-urls_example :
    IsSafe (handle_all events closed_viewer)
    × ((u : ℕ)
        → (contains (handle_all (each_committed events) closed_viewer).live u ≡ true)
          ↔ (url_of (handle_all (each_committed events) closed_viewer).shown ≡ some u))
    × ((unmount (handle_all (each_committed events) closed_viewer)).live ≡ [])
handle_all-urls_example = handle_all-urls events

abbrev listed : List ApiFileRecord
listed = file ∷ record file { extension = "java" } ∷ record file { extension = "" } ∷ file ∷ []

options_test : extension_options listed ≡ "java" ∷ "png" ∷ []
unfolding extension_options string_eq nat_eq
options_test = refl

extension_options_complete_example :
    IsSorted (extension_options listed)
    × Distinct (extension_options listed)
    × ((s : String)
        → (contains (extension_options listed) s ≡ true) ↔ (
            (contains (map (λ (f : ApiFileRecord). f.extension) listed) s ≡ true)
            × (choose_extension s ≡ some s)))
extension_options_complete_example = extension_options_complete listed

no_asterisk : has 42 "attachment; filename=\"a_.txt\"" ≡ false
unfolding nat_eq
no_asterisk = refl

not_empty : is_empty "aä;.txt" ≡ false
not_empty = refl

abbrev header : String
header = "attachment; filename=\"a_.txt\"; filename*=UTF-8''a%C3%A4%3B.txt"

header_test : encode "aä;.txt" ≡ "a%C3%A4%3B.txt"
unfolding encode nat_eq
header_test = refl

filename_test : parse_filename (some header) ≡ ok (some "aä;.txt")
unfolding parse_filename string_eq nat_eq
filename_test = refl

parse_filename-encode_example :
    parse_filename (
      some (
        "attachment; filename=\"a_.txt\""
        <> String.◌∷◌ ";" (String.◌∷◌ " " ("filename*=UTF-8''" <> encode "aä;.txt"))))
    ≡ ok (some "aä;.txt")
parse_filename-encode_example =
    parse_filename-encode "attachment; filename=\"a_.txt\"" "aä;.txt" no_asterisk not_empty

plain_test : parse_filename (some "inline; FileName=\"b.txt\"") ≡ ok (some "b.txt")
unfolding parse_filename string_eq nat_eq
plain_test = refl
