-- ===== src/Client/Request.antt =====
-- Requests with a bearer token, frontend/src/api/client.ts: `rawFetch`, `tryRefresh`, `requestRaw`
-- and `requestJson`.
pub mod Refresh
use file_space.Base.{
  ℕ, String, Bool, true, false, Option, none, some, ◌<>◌, if◌then◌else◌, ◌==◌, string_eq, nat_eq,
}
use file_space.Base.Effect.{
  Result, ok, err, error, api_error, of_result, pure, throw, try_catch, ◌>>=◌, ◌>>◌,
}
use file_space.Base.Text.{to_string}
use file_space.Client.Env.{
  Payload, no_payload, refresh_token, form_data, chunk, Request, Content, access_token, error_text,
  not_json, Response, is_ok, Call, Env, Client, call,
}

abbrev pub access_token_key : String
access_token_key = "filespace.accessToken"

abbrev pub refresh_token_key : String
refresh_token_key = "filespace.refreshToken"

abbrev pub username_key : String
username_key = "filespace.username"

-- A text that is there and not empty, which is what `if (token)` tests.
abbrev pub truthy : Option String → Option String
truthy none = none
truthy (some t) = if t == "" then none else some t

pub record RequestOptions : Type 0 where
  pub method : String
  pub payload : Payload

-- `{ method: 'GET' }` without a body
abbrev pub get_options : RequestOptions
get_options = record { method = "GET"; payload = no_payload }

abbrev bearer : Option String → Option String
bearer none = none
bearer (some t) = some ("Bearer " <> t)

-- A form or a chunk has the content type that the browser gives it.
abbrev content_type_of : Payload → Option String
content_type_of no_payload = none
content_type_of (form_data f) = none
content_type_of (chunk b) = none
content_type_of p = some "application/json"

unfoldable pub parse_error_message : Response → String
unfolding to_string
parse_error_message res =
    let generic = "Request failed with status " <> to_string 10 res.status in
    elim res.content [ error_text e ↦ e | _ ↦ generic ]

-- `(await res.json()) as T`. The cast is unchecked in the source; a body of another kind, which the
-- endpoint does not send, is read as one that does not parse.
abbrev pub json_as {ℓ} : {A : Type ℓ} → (Content → Option A) → Response → Result A
json_as decode res = elim (decode res.content) [ some a ↦ ok a | none ↦ err (error "invalid JSON") ]

abbrev as_access_token : Content → Option String
as_access_token (access_token t) = some t
as_access_token c = none

module _ (env : Env) where
  unfoldable pub get_access_token : Client (Option String)
  get_access_token =
      call (Call.get_item access_token_key) (λ h. ok (env.get_item h access_token_key))

  unfoldable pub get_refresh_token : Client (Option String)
  get_refresh_token =
      call (Call.get_item refresh_token_key) (λ h. ok (env.get_item h refresh_token_key))

  unfoldable pub set_access_token : String → Client (Unit {0})
  set_access_token t =
      call (Call.set_item access_token_key t) (λ h. env.set_item h access_token_key t)

  abbrev remove_item : String → Client (Unit {0})
  remove_item key = call (Call.remove_item key) (λ h. ok tt)

  unfoldable pub clear_tokens : Client (Unit {0})
  clear_tokens = do
    remove_item access_token_key
    remove_item refresh_token_key
    remove_item username_key
    call Call.notify_unauthorized (λ h. ok tt)

  abbrev pub request_of : String → RequestOptions → Option String → Request
  request_of path options token = record {
    method = options.method;
    url = env.base_url <> path;
    authorization = bearer (truthy token);
    content_type = content_type_of options.payload;
    payload = options.payload;
  }

  unfoldable pub raw_fetch : String → RequestOptions → Option String → Client Response
  raw_fetch path options token =
      call (Call.fetch (request_of path options token))
        (λ h. env.fetch h (request_of path options token))

  abbrev pub refresh_request : String → Request
  refresh_request t = record {
    method = "POST";
    url = env.base_url <> "/api/auth/refresh";
    authorization = none;
    content_type = some "application/json";
    payload = refresh_token t;
  }

  abbrev sign_out : Client (Option String)
  sign_out = do clear_tokens; pure none

  abbrev store_token : Response → Client (Option String)
  store_token res = do
    t ← of_result (json_as as_access_token res)
    set_access_token t
    pure (some t)

  -- The `try` block of `tryRefresh`.
  abbrev refresh_body : String → Client (Option String)
  refresh_body t = do
    res ← call (Call.fetch (refresh_request t)) (λ h. env.fetch h (refresh_request t))
    if is_ok res then store_token res else sign_out

  abbrev refresh_with : Option String → Client (Option String)
  refresh_with none = sign_out
  refresh_with (some t) = try_catch (refresh_body t) (λ _. sign_out)

  unfoldable pub try_refresh : Client (Option String)
  unfolding get_refresh_token clear_tokens set_access_token
  try_refresh = do t ← get_refresh_token; refresh_with (truthy t)

  module _ (path : String) (options : RequestOptions) where
    abbrev retry : Response → Option String → Client Response
    retry res none = pure res
    retry res (some t) = raw_fetch path options (some t)

    abbrev after_first : Response → Option String → Client Response
    after_first res none = pure res
    after_first res (some t) =
        if res.status == 401 then (try_refresh >>= λ t'. retry res (truthy t')) else pure res

    unfoldable pub request_raw : Client Response
    unfolding get_access_token raw_fetch try_refresh
    request_raw = do
      token ← get_access_token
      res ← raw_fetch path options token
      after_first res (truthy token)

    -- What the caller sees of a response; `undefined` stands for a body that is left out.
    abbrev pub decode_response {ℓ} :
        {A : Type ℓ} → (Content → Option A) → (undefined : Result A) → Response → Client A
    decode_response decode undefined res =
        if is_ok res
        then of_result (if res.status == 204 then undefined else json_as decode res)
        else throw (api_error res.status (parse_error_message res))

    unfoldable pub request_json {ℓ} :
        {A : Type ℓ} → (Content → Option A) → (undefined : Result A) → Client A
    unfolding request_raw parse_error_message
    request_json decode undefined = do res ← request_raw; decode_response decode undefined res
