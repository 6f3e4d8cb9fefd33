-- ===== src/Client/Env.antt =====
-- What frontend/src/api/client.ts calls and does not implement: `localStorage`, `fetch`,
-- `XMLHttpRequest`, and the listener that the sign-in state registers. As in Sync/Env, every call is
-- recorded and a reply is a function of all calls made before, so other requests may run, and
-- change the stored tokens, between any two calls.
use file_space.Api.Types.{ApiFileRecord, SyncManifestEntry, SyncDiffResponse}
use file_space.Base.{ℕ, String, Bool, Option, List, ◌∷◌, ◌&&◌, leb}
use file_space.Base.Effect.{Result, M}
use file_space.Sync.Env.{Bytes, File}

-- The bodies that the client sends.
pub data Payload : Type 0 where
  no_payload : Payload
  credentials : (username password : String) → Payload
  refresh_token : String → Payload
  upload_start : (filename : String) (size : ℕ) → Payload
  manifest : (last_synced_version : ℕ) → List SyncManifestEntry → Payload
  form_data : File → Payload
  chunk : Bytes → Payload

pub record Request : Type 0 where
  pub method : String
  pub url : String
  pub authorization : Option String
  pub content_type : Option String
  pub payload : Payload

-- The bodies that the server sends: the JSON values of its endpoints, other JSON values, bodies
-- that are no JSON, and bodies whose transfer breaks off.
pub data Content : Type 0 where
  file_record : ApiFileRecord → Content
  file_list : List ApiFileRecord → Content
  access_token : String → Content
  tokens : (access refresh : String) → Content
  user : (id : ℕ) (username : String) → Content
  upload_session : (upload_id : String) (chunk_size : ℕ) → Content
  difference : SyncDiffResponse → Content
  error_text : String → Content
  other_json : Content
  not_json : Content
  broken_body : Content

pub record Response : Type 0 where
  pub status : ℕ
  pub content : Content
  pub x_has_more : Option String
  pub content_disposition : Option String

-- `res.ok`
abbrev pub is_ok : Response → Bool
is_ok res = leb 200 res.status && leb res.status 299

pub data Call : Type 0 where
  get_item : (key : String) → Call
  set_item : (key value : String) → Call
  remove_item : (key : String) → Call
  notify_unauthorized : Call
  fetch : Request → Call
  send : Request → Call
  progress : (loaded total : ℕ) → Call

abbrev pub History : Type 0
History = List Call

-- `progress_events` are the numbers of bytes that the events of an `XMLHttpRequest` tell before its
-- reply or its network error.
pub record Env : Type 0 where
  pub base_url : String
  pub get_item : History → String → Option String
  pub set_item : History → String → String → Result (Unit {0})
  pub fetch : History → Request → Result Response
  pub send : History → Request → Result Response
  pub progress_events : History → Request → List ℕ

abbrev pub Client {ℓ} : Type ℓ → Type ℓ
Client A = M History A

abbrev pub call {ℓ} : {A : Type ℓ} → Call → (History → Result A) → Client A
call c reply h = (reply h, c ∷ h)
