-- ===== src/Tests/Requests.antt =====
-- Requests and uploads against a server whose first token has expired, with concrete replies.
use file_space.Api.Types.{SortField, desc, ListFilesParams}
use file_space.Base.{
  ℕ, false, none, some, [], ◌∷◌, ◌≡◌, refl, if◌then◌else◌, ◌==◌, string_eq, nat_eq,
}
use file_space.Base.Effect.{ok}
use file_space.Client.Endpoints.{list_path, list_files}
use file_space.Client.Env.{Request, Content, access_token, error_text, file_list, Response, Env}
use file_space.Client.Request.{get_options, request_raw, try_refresh}
use file_space.Client.Request.Refresh.{
  IsRefreshed, IsRequested, try_refresh-IsRefreshed, request_raw-IsRequested,
}
use file_space.Client.Upload.{
  InitiateUploadResponse, slices, upload_round, upload_chunks, upload_session_body,
  upload_in_session,
}
use file_space.Client.Upload.Chunks.{IsUploadEnd, upload_in_session_lem}
use file_space.Sync.Env.{Bytes, File}

abbrev pub make_response : ℕ → Content → Response
make_response status content = record {
  status = status;
  content = content;
  x_has_more = none;
  content_disposition = none;
}

-- The old token is refused, the refresh brings a new one.
abbrev answer : Request → Response
answer r =
    if r.url == "/api/auth/refresh"
    then make_response 200 (access_token "new")
    else (elim r.authorization [
      | none ↦ make_response 401 (error_text "no token")
      | some t ↦
          if t == "Bearer new"
          then make_response 200 (file_list [])
          else make_response 401 (error_text "expired")
    ])

abbrev env : Env
env = record {
  base_url = "";
  get_item = λ h key. if key == "filespace.username" then none else some "old";
  set_item = λ h key value. ok tt;
  fetch = λ h r. ok (answer r);
  send = λ h r. ok (answer r);
  progress_events = λ h r. 1 ∷ 2 ∷ [];
}

abbrev params : ListFilesParams
params = record {
  sort = some SortField.created_at;
  order = some desc;
  extension = some "c#";
  limit = some 1000;
  offset = none;
}

list_path_test : list_path params ≡ "/api/files?sort=createdAt&order=desc&extension=c%23&limit=1000"
unfolding list_path string_eq nat_eq
list_path_test = refl

retried_test : (list_files env params []).0 ≡ ok (record { files = []; has_more = false })
unfolding list_files string_eq nat_eq
retried_test = refl

try_refresh-IsRefreshed_example : IsRefreshed env [] (try_refresh env [])
try_refresh-IsRefreshed_example = try_refresh-IsRefreshed env []

request_raw-IsRequested_example :
    IsRequested env "/api/files" get_options [] (request_raw env "/api/files" get_options [])
request_raw-IsRequested_example = request_raw-IsRequested env "/api/files" get_options []

abbrev content : Bytes
content = 1 ∷ 2 ∷ 3 ∷ 4 ∷ 5 ∷ []

sliced : slices 5 2 content ≡ (1 ∷ 2 ∷ []) ∷ (3 ∷ 4 ∷ []) ∷ (5 ∷ []) ∷ []
unfolding slices
sliced = refl

sent :
    (upload_chunks env "u1" 5 (slices 5 2 content) []).0 ≡ ok (record { index = 3; uploaded = 5 })
unfolding slices upload_round string_eq nat_eq
sent = refl

abbrev pub big : File
big = record { name = "big"; last_modified = 0; content = content }

abbrev session : InitiateUploadResponse
session = record { upload_id = "u1"; chunk_size = 2 }

-- The server has no such session to complete.
upload_in_session_lem_example :
    IsUploadEnd env big session []
      (upload_session_body env big session [])
      (upload_in_session env big session [])
upload_in_session_lem_example = upload_in_session_lem env big session []
