-- ===== src/Client/Upload/Chunks.antt =====
-- The chunks of an upload and the requests that send them, frontend/src/api/client.ts.
use file_space.Api.Types.{ApiFileRecord}
use file_space.Base.{
  ℕ, ◌≤◌, String, Option, List, [], ◌∷◌, ◌++◌, ◌≡◌, refl, inl, inr, length, Bool-cases,
}
use file_space.Base.Effect.{Result, ok, err, bind_result, catch_result, attempt, throw, ◌>>◌}
use file_space.Client.Env.{Content, Response, is_ok, History, Env}
use file_space.Client.Endpoints.{as_void, delete}
use file_space.Client.Request.{RequestOptions, request_raw, request_json, decode_response}
use file_space.Client.Upload.{
  InitiateUploadResponse, upload_path, abort_upload, upload_session_body, upload_in_session,
}
use file_space.Sync.Env.{Bytes, File}

-- The chunks put together.
abbrev pub joined : List Bytes → Bytes
joined [] = []
joined (b ∷ chunks) = b ++ joined chunks

-- A chunk that is not empty and not longer than it may be.
abbrev pub IsChunk : ℕ → Bytes → Type 0
IsChunk chunk_size b = (1 ≤ length b) × (length b ≤ chunk_size)

-- A request whose response is decoded makes the calls of the request.
request_json_calls {ℓ} :
    {A : Type ℓ} (env : Env) (path : String) (options : RequestOptions)
    (decode : Content → Option A) (undefined : Result A) (h : History)
    → (request_json env path options decode undefined h).1 ≡ (request_raw env path options h).1
unfolding request_json
request_json_calls env path options decode undefined h =
    decoded (request_raw env path options h).0 (request_raw env path options h).1
  where
    decoded :
        (r : Result Response) (g : History)
        → (bind_result r (decode_response env path options decode undefined) g).1 ≡ g
    decoded (err e) g = refl
    decoded (ok res) g = elim (Bool-cases (is_ok res)) [
      | inl good ↦ rw good refl
      | inr bad ↦ rw bad refl
    ]

module _ (env : Env) (f : File) (session : InitiateUploadResponse) (h : History) where
  -- The end of an upload in chunks, from the end of its `try` block.
  abbrev pub IsUploadEnd : Result ApiFileRecord × History → Result ApiFileRecord × History → Type 0
  IsUploadEnd (ok created, g) (r, k) = (r ≡ ok created) × (k ≡ g)
  IsUploadEnd (err e, g) (r, k) =
      (r ≡ err e) × (k ≡ (request_raw env (upload_path session.upload_id) delete g).1)

  -- An upload in chunks whose requests all succeed returns what the server says of the new file and
  -- makes no other call. One that fails makes one more request, with its retry, which deletes its
  -- session on the server, and throws the error that it has failed with, whatever comes of that
  -- request.
  pub upload_in_session_lem :
      IsUploadEnd (upload_session_body env f session h) (upload_in_session env f session h)
  unfolding upload_in_session abort_upload
  upload_in_session_lem = ended (upload_session_body env f session h)
    where
      ended :
          (end : Result ApiFileRecord × History)
          → IsUploadEnd end (
              catch_result end.0
                (λ e. attempt (abort_upload env session.upload_id) >> throw e)
                end.1)
      ended (ok created, g) = (refl, refl)
      ended (err e, g) =
          (refl, request_json_calls env (upload_path session.upload_id) delete as_void (ok tt) g)
