-- ===== src/Client/Endpoints.antt =====
-- The functions that frontend/src/api/client.ts exports for the endpoints of the server, but for
-- uploads and for those that return a blob.
use file_space.Api.Types.{
  ApiFileRecord, SortOrder, asc, desc, SortField, ListFilesParams, ListFilesResult,
  SyncManifestEntry, SyncDiffResponse,
}
use file_space.Base.{
  ℕ, String, Bool, false, Option, none, some, List, [], ◌∷◌, ◌++◌, ◌<>◌, if◌then◌else◌, ◌==◌,
  string_eq,
}
use file_space.Base.Effect.{Result, ok, err, error, api_error, of_result, throw, pure, ◌>>=◌}
use file_space.Base.Text.{to_string, join}
use file_space.Base.Text.Uri.{encode_form}
use file_space.Client.Env.{
  Payload, Content, credentials, refresh_token, manifest, no_payload, file_record, file_list,
  tokens, user, access_token, difference, Response, is_ok, Env, Client,
}
use file_space.Client.Request.{
  RequestOptions, get_options, truthy, json_as, parse_error_message, request_raw, request_json,
}

abbrev as_file_record : Content → Option ApiFileRecord
as_file_record (file_record r) = some r
as_file_record c = none

abbrev as_file_list : Content → Option (List ApiFileRecord)
as_file_list (file_list r) = some r
as_file_list c = none

abbrev as_difference : Content → Option SyncDiffResponse
as_difference (difference d) = some d
as_difference c = none

abbrev pub as_tokens : Content → Option (String × String)
as_tokens (tokens a r) = some (a, r)
as_tokens c = none

abbrev pub as_user : Content → Option (ℕ × String)
as_user (user i n) = some (i, n)
as_user c = none

abbrev as_access : Content → Option String
as_access (access_token t) = some t
as_access c = none

-- Any JSON will do where the result is not used.
abbrev pub as_void : Content → Option (Unit {0})
as_void Content.not_json = none
as_void Content.broken_body = none
as_void c = some tt

-- A body left out where one is expected: the first use of it throws.
abbrev pub missing {ℓ} : {A : Type ℓ} → Result A
missing = err (error "undefined")

abbrev pub post : Payload → RequestOptions
post p = record { method = "POST"; payload = p }

abbrev pub delete : RequestOptions
delete = record { method = "DELETE"; payload = no_payload }

abbrev pub field_name : SortField → String
field_name SortField.name = "name"
field_name SortField.created_at = "createdAt"
field_name SortField.modified_at = "modifiedAt"
field_name SortField.uploaded_by = "uploadedBy"
field_name SortField.edited_by = "editedBy"

abbrev order_name : SortOrder → String
order_name asc = "asc"
order_name desc = "desc"

abbrev pub file_path : ℕ → String
file_path id = "/api/files/" <> to_string 10 id

-- One pair of the query, if the parameter is set.
abbrev set_param : {A : Type 0} → String → (A → String) → Option A → List String
set_param key show none = []
set_param key show (some value) = (key <> ("=" <> show value)) ∷ []

abbrev query_parts : ListFilesParams → List String
query_parts params =
    set_param "sort" field_name params.sort
    ++ (set_param "order" order_name params.order
        ++ (set_param "extension" encode_form (truthy params.extension)
            ++ (set_param "limit" (to_string 10) params.limit
                ++ set_param "offset" (to_string 10) params.offset)))

abbrev with_query : List String → String
with_query [] = "/api/files"
with_query (p ∷ parts) = "/api/files?" <> join "&" (p ∷ parts)

unfoldable pub list_path : ListFilesParams → String
unfolding to_string join encode_form
list_path params = with_query (query_parts params)

module _ (env : Env) where
  abbrev is_true : Option String → Bool
  is_true none = false
  is_true (some t) = t == "true"

  abbrev pub listed : Response → Client ListFilesResult
  listed res =
      if is_ok res
      then (of_result (json_as as_file_list res) >>= λ files.
          pure (record { files = files; has_more = is_true res.x_has_more }))
      else throw (api_error res.status (parse_error_message res))

  unfoldable pub list_files : ListFilesParams → Client ListFilesResult
  unfolding list_path request_raw parse_error_message
  list_files params = do res ← request_raw env (list_path params) get_options; listed res

  unfoldable pub register : String → String → Client (ℕ × String)
  unfolding request_json
  register username password =
      request_json env "/api/auth/register" (post (credentials username password)) as_user missing

  unfoldable pub login : String → String → Client (String × String)
  unfolding request_json
  login username password =
      request_json env "/api/auth/login" (post (credentials username password)) as_tokens missing

  unfoldable pub refresh : String → Client String
  unfolding request_json
  refresh t = request_json env "/api/auth/refresh" (post (refresh_token t)) as_access missing

  unfoldable pub get_file : ℕ → Client ApiFileRecord
  unfolding request_json to_string
  get_file id = request_json env (file_path id) get_options as_file_record missing

  unfoldable pub delete_file : ℕ → Client (Unit {0})
  unfolding request_json to_string
  delete_file id = request_json env (file_path id) delete as_void (ok tt)

  unfoldable pub sync_diff : ℕ → List SyncManifestEntry → Client SyncDiffResponse
  unfolding request_json
  sync_diff version entries =
      request_json env "/api/sync/diff" (post (manifest version entries)) as_difference missing
