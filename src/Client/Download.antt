-- ===== src/Client/Download.antt =====
-- The requests that return a blob, frontend/src/api/client.ts: `requestBlob`, `parseFilename`,
-- `fetchFileContent` and `downloadFile`, and the download of frontend/src/App.tsx.
pub mod Filename
use Prim.Native.Char.{Char, code}
use file_space.Base.{
  ℕ, ◌+◌, String, Bool, true, false, not, ◌&&◌, ◌||◌, Option, none, some, ◌<>◌, if◌then◌else◌, ◌==◌,
  nat_eq, string_eq, leb,
}
use file_space.Base.Effect.{
  Exception, Result, ok, err, error, api_error, message_of, of_result, pure, throw, ◌>>=◌,
}
use file_space.Base.Text.{to_string}
use file_space.Base.Text.Uri.{decode_uri_component}
use file_space.Client.Env.{Content, broken_body, Response, is_ok, Env, Client}
use file_space.Client.Endpoints.{file_path}
use file_space.Client.Request.{get_options, truthy, parse_error_message, request_raw}

-- The flag `i` of a regular expression, on ASCII.
abbrev pub lower : ℕ → ℕ
lower n = if leb 65 n && leb n 90 then n + 32 else n

-- What follows `pattern`, in small letters, at the start of a text.
unfoldable pub strip : (pattern text : String) → Option String
unfolding nat_eq
strip String.[] text = some text
strip (String.◌∷◌ d pattern) String.[] = none
strip (String.◌∷◌ d pattern) (String.◌∷◌ c text) =
    let rest = strip pattern text in if lower (code c) == code d then rest else none

-- The longest start of a text without the characters that `stops` holds for: `[^…]+`.
unfoldable pub take_until : (ℕ → Bool) → String → String
take_until stops String.[] = ""
take_until stops (String.◌∷◌ c text) =
    let rest = String.◌∷◌ c (take_until stops text) in if stops (code c) then "" else rest

-- The group of the first match, where `at` matches at the start of a text.
unfoldable pub first_match : (String → Option String) → String → Option String
first_match match_at String.[] = match_at ""
first_match match_at (String.◌∷◌ c text) = elim (match_at (String.◌∷◌ c text)) [
  | some group ↦ some group
  | none ↦ first_match match_at text
]

abbrev pub is_semicolon : ℕ → Bool
is_semicolon n = n == 59

abbrev is_end : ℕ → Bool
is_end n = n == 59 || n == 34

abbrev pub extended_group : Option String → Option String
extended_group none = none
extended_group (some rest) = truthy (some (take_until is_semicolon rest))

-- `/filename\*=UTF-8''([^;]+)/i` at the start of a text
unfoldable pub extended_at : String → Option String
unfolding strip take_until string_eq nat_eq
extended_at text = extended_group (strip "filename*=utf-8''" text)

-- A quote that is there is passed over.
abbrev after_quote : String → String
after_quote String.[] = ""
after_quote (String.◌∷◌ c text) = if code c == 34 then text else String.◌∷◌ c text

abbrev plain_group : Option String → Option String
plain_group none = none
plain_group (some rest) = truthy (some (take_until is_end (after_quote rest)))

-- `/filename="?([^";]+)"?/i` at the start of a text
unfoldable pub plain_at : String → Option String
unfolding strip take_until string_eq nat_eq
plain_at text = plain_group (strip "filename=" text)

abbrev blob_of : Response → Result Content
blob_of res = elim res.content [ broken_body ↦ err (error "network error") | c ↦ ok c ]

abbrev decoded : Result String → Result (Option String)
decoded (ok name) = ok (some name)
decoded (err e) = err e

abbrev named : String → Option String → Result (Option String)
named disposition none = ok (first_match plain_at disposition)
named disposition (some group) = decoded (decode_uri_component group)

abbrev parse_present : Option String → Result (Option String)
parse_present none = ok none
parse_present (some disposition) = named disposition (first_match extended_at disposition)

unfoldable pub parse_filename : Option String → Result (Option String)
unfolding first_match extended_at plain_at decode_uri_component
parse_filename disposition = parse_present (truthy disposition)

module _ (env : Env) where
  abbrev take_blob : Response → Client (Content × Option String)
  take_blob res =
      if is_ok res
      then (of_result (blob_of res) >>= λ blob.
          of_result (parse_filename res.content_disposition) >>= λ filename. pure (blob, filename))
      else throw (api_error res.status (parse_error_message res))

  unfoldable pub request_blob : String → Client (Content × Option String)
  unfolding request_raw parse_error_message parse_filename
  request_blob path = do res ← request_raw env path get_options; take_blob res

  unfoldable pub fetch_file_content : ℕ → Client Content
  unfolding request_blob to_string
  fetch_file_content id = do (blob, filename) ← request_blob (file_path id <> "/content"); pure blob

  unfoldable pub download_file : ℕ → Client (Content × Option String)
  unfolding request_blob to_string
  download_file id = request_blob (file_path id <> "/download")

  abbrev saved_name : ℕ → Option String → String
  saved_name id none = "file-" <> to_string 10 id
  saved_name id (some filename) = filename

  -- `handleDownload`: the content and the name of the file that the browser saves, or the message
  -- that the page shows.
  abbrev saved : ℕ → Result (Content × Option String) → Result (Content × String)
  saved id (ok (blob, filename)) = ok (blob, saved_name id filename)
  saved id (err e) = err e

  unfoldable pub handle_download : ℕ → Client (Content × String)
  unfolding download_file to_string
  handle_download id h = (saved id (download_file id h).0, (download_file id h).1)
