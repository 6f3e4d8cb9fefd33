-- ===== src/Client/Upload.antt =====
-- Uploads in one request or in chunks, frontend/src/api/client.ts.
pub mod Chunks
pub mod Session
pub mod Accepted
pub mod Loop
use file_space.Api.Types.{ApiFileRecord}
use file_space.Base.{
  ℕ, zero, suc, ◌+◌, String, Bool, Option, none, some, List, [], ◌∷◌, ◌<>◌, ◌&&◌, not, length, take,
  drop, leb, if◌then◌else◌, ◌==◌, string_eq, nat_eq,
}
use file_space.Base.Effect.{
  Result, ok, api_error, of_result, pure, throw, attempt, try_catch, for_each, ◌>>=◌, ◌>>◌,
}
use file_space.Base.Text.{to_string}
use file_space.Client.Endpoints.{as_void, missing, post, delete}
use file_space.Client.Env.{
  Payload, chunk, upload_start, form_data, no_payload, Content, file_record, upload_session,
  error_text, Request, Response, is_ok, Call, Env, Client, call,
}
use file_space.Client.Request.{
  RequestOptions, truthy, get_access_token, request_of, try_refresh, request_json,
}
use file_space.Sync.Env.{Bytes, File, size}

abbrev as_file_record : Content → Option ApiFileRecord
as_file_record (file_record r) = some r
as_file_record c = none

pub record InitiateUploadResponse : Type 0 where
  pub upload_id : String
  pub chunk_size : ℕ

abbrev as_upload_session : Content → Option InitiateUploadResponse
as_upload_session (upload_session id n) = some (record { upload_id = id; chunk_size = n })
as_upload_session c = none

-- 8 MiB
abbrev pub single_shot_upload_threshold : ℕ
single_shot_upload_threshold = 8388608

abbrev pub upload_path : String → String
upload_path upload_id = "/api/files/uploads/" <> upload_id

abbrev pub chunk_path : String → ℕ → String
chunk_path upload_id index = upload_path upload_id <> ("/chunks/" <> to_string 10 index)

abbrev pub chunk_options : Bytes → RequestOptions
chunk_options b = record { method = "PUT"; payload = chunk b }

-- `if (parsed.error) message = parsed.error`
unfoldable pub chunk_error_message : Response → String
unfolding to_string
chunk_error_message res =
    let generic = "Request failed with status " <> to_string 10 res.status in
    elim res.content [ error_text e ↦ if e == "" then generic else e | _ ↦ generic ]

-- The chunks of the `for` loop: `file.slice(offset, offset + chunkSize)` for each offset below the
-- size. With a chunk size of at least one, the size of the content is fuel enough.
unfoldable pub slices : ℕ → ℕ → Bytes → List Bytes
slices zero chunk_size content = []
slices (suc fuel) chunk_size [] = []
slices (suc fuel) chunk_size (b ∷ content) =
    take chunk_size (b ∷ content) ∷ slices fuel chunk_size (drop chunk_size (b ∷ content))

-- `index` and `uploaded`
pub record Position : Type 0 where
  pub index : ℕ
  pub uploaded : ℕ

module _ (env : Env) where
  abbrev report : (total before : ℕ) → ℕ → Unit {0} → Client (Unit {0})
  report total before loaded u = call (Call.progress (before + loaded) total) (λ h. ok tt)

  -- The `send` of `uploadChunk`: the progress events, which reach `onProgress`, come before the
  -- reply or the network error.
  unfoldable pub send_chunk :
      String → RequestOptions → (total before : ℕ) → Option String → Client Response
  send_chunk path options total before token h =
      let r = request_of env path options token in
      (call {A = Unit {0}} (Call.send r) (λ g. ok tt)
          >> for_each (env.progress_events h r) (report total before) tt
          >> of_result (env.send h r))
        h

  module _ (upload_id : String) (index : ℕ) (b : Bytes) (total before : ℕ) where
    abbrev send_with : Option String → Client Response
    send_with = send_chunk (chunk_path upload_id index) (chunk_options b) total before

    abbrev resend : Response → Option String → Client Response
    resend res none = pure res
    resend res (some t) = send_with (some t)

    abbrev after_sent : Response → Option String → Client Response
    after_sent res none = pure res
    after_sent res (some t) =
        if res.status == 401 then (try_refresh env >>= λ t'. resend res (truthy t')) else pure res

    abbrev check_sent : Response → Client (Unit {0})
    check_sent res =
        if is_ok res then pure tt else throw (api_error res.status (chunk_error_message res))

    unfoldable pub upload_chunk : Client (Unit {0})
    unfolding send_chunk to_string try_refresh get_access_token chunk_error_message
    upload_chunk = do
      token ← get_access_token env
      res ← send_with token
      res' ← after_sent res (truthy token)
      check_sent res'

  -- One round of the loop.
  unfoldable pub upload_round : String → ℕ → Bytes → Position → Client Position
  unfolding upload_chunk
  upload_round upload_id total b at_ = do
    upload_chunk upload_id at_.index b total at_.uploaded
    pure (record { index = at_.index + 1; uploaded = at_.uploaded + length b })

  abbrev pub upload_chunks : String → ℕ → List Bytes → Client Position
  upload_chunks upload_id total chunks =
      for_each chunks (upload_round upload_id total) (record { index = 0; uploaded = 0 })

  unfoldable pub initiate_upload : String → ℕ → Client InitiateUploadResponse
  unfolding request_json
  initiate_upload filename n =
      request_json env "/api/files/uploads" (post (upload_start filename n)) as_upload_session
        missing

  unfoldable pub complete_upload : String → Client ApiFileRecord
  unfolding request_json
  complete_upload upload_id =
      request_json env (upload_path upload_id <> "/complete") (post no_payload) as_file_record
        missing

  unfoldable pub abort_upload : String → Client (Unit {0})
  unfolding request_json
  abort_upload upload_id = request_json env (upload_path upload_id) delete as_void (ok tt)

  unfoldable pub upload_single_shot : File → Client ApiFileRecord
  unfolding request_json
  upload_single_shot f = request_json env "/api/files" (post (form_data f)) as_file_record missing

  -- The body of the `try` block.
  unfoldable pub upload_session_body : File → InitiateUploadResponse → Client ApiFileRecord
  unfolding upload_round complete_upload slices
  upload_session_body f session =
      upload_chunks session.upload_id (size f) (slices (size f) session.chunk_size f.content)
      >> complete_upload session.upload_id

  unfoldable pub upload_in_session : File → InitiateUploadResponse → Client ApiFileRecord
  unfolding upload_session_body abort_upload
  upload_in_session f session =
      try_catch (upload_session_body f session)
        (λ e. attempt (abort_upload session.upload_id) >> throw e)

  abbrev single_shot : File → Client ApiFileRecord
  single_shot f = do
    created ← upload_single_shot f
    call {A = Unit {0}} (Call.progress (size f) (size f)) (λ h. ok tt)
    pure created

  unfoldable pub upload_file_in_chunks : File → Client ApiFileRecord
  unfolding upload_single_shot initiate_upload upload_in_session
  upload_file_in_chunks f =
      if leb (size f) single_shot_upload_threshold
      then single_shot f
      else (initiate_upload f.name (size f) >>= upload_in_session f)
