-- ===== src/Tests/Session.antt =====
-- A sign-in with `localStorage`, and the store over a small database.
use file_space.Base.{
  String, true, false, ◌&&◌, Option, none, some, [], ◌∷◌, ◌≡◌, refl, ap, ◌↔◌, inl, if◌then◌else◌,
  ◌==◌, string_eq, nat_eq,
}
use file_space.Auth.{
  AuthUser, Session, read_stored_user, sign_in, logout, login_mode, LoginForm, begin_submit,
  end_submit, authenticate, from_client,
}
use file_space.Auth.Agreement.{item, IsStorage, IsWhole}
use file_space.Auth.Handlers.{submit-Steps, sign_in-Steps}
use file_space.Auth.Reload.{IsSignedIn, sign_in-read, Steps-reload}
use file_space.Auth.Steps.{Steps}
use file_space.Base.Effect.{ok, err, error}
use file_space.Client.Endpoints.{login, as_void}
use file_space.Client.Env.{Call, History, Env, tokens}
use file_space.Client.Request.{refresh_token_key, username_key, get_options, request_json}
use file_space.Tests.Requests.{make_response}

abbrev remote : Env
remote = record {
  base_url = "";
  get_item = λ h key. none;
  set_item = λ h key value. ok tt;
  fetch = λ h r. ok (make_response 200 (tokens "a1" "r1"));
  send = λ h r. err (error "offline");
  progress_events = λ h r. [];
}

abbrev nothing : String → Option String
nothing key = none

abbrev env : Env
env = record remote { get_item = item remote nothing }

is_storage : IsStorage env nothing
is_storage [] key = refl
is_storage (Call.set_item k v ∷ h) key =
    ap (λ (before : Option String). if k == key && true then some v else before) (is_storage h key)
is_storage (Call.remove_item k ∷ h) key =
    ap (λ (before : Option String). if k == key then none else before) (is_storage h key)
is_storage (Call.get_item k ∷ h) key = is_storage h key
is_storage (Call.notify_unauthorized ∷ h) key = is_storage h key
is_storage (Call.fetch r ∷ h) key = is_storage h key
is_storage (Call.send r ∷ h) key = is_storage h key
is_storage (Call.progress l t ∷ h) key = is_storage h key

is_whole : IsWhole env nothing
is_whole = inl refl

signed_in : (sign_in env "ann" "secret" ([], none)).0 ≡ ok tt
unfolding sign_in login string_eq nat_eq
signed_in = refl

sign_in-read_example :
    (u : AuthUser) × (u.username ≡ "ann")
    × ((login env "ann" "secret" []).0 ≡ ok (u.access_token, u.refresh_token))
    × IsSignedIn env nothing is_storage u (sign_in env "ann" "secret" ([], none)).1
sign_in-read_example = sign_in-read env nothing is_storage "ann" "secret" ([], none) signed_in

nobody : (read_stored_user env []).0 ≡ ok none
unfolding read_stored_user
nobody = refl

abbrev opened : History
opened = (read_stored_user env []).1

abbrev now : Session
now = (sign_in env "ann" "secret" (opened, none)).1

Steps-reload_example :
    (now.1 ≡ none → (read_stored_user env now.0).0 ≡ ok none)
    × ((u : AuthUser)
        → now.1 ≡ some u
        → (env.get_item now.0 refresh_token_key ≡ some u.refresh_token)
          × (env.get_item now.0 username_key ≡ some u.username))
Steps-reload_example =
    Steps-reload env nothing is_storage is_whole none nobody now
      (sign_in-Steps env "ann" "secret" opened)

abbrev form : LoginForm
form = record {
  mode = login_mode;
  username = "ann";
  password = "secret";
  error = some "old";
  is_submitting = false;
}

submit-Steps_example :
    Steps env (opened, none) (end_submit env (begin_submit form) (opened, none)).1
    × ((end_submit env (begin_submit form) (opened, none)).0.is_submitting ≡ false)
    × (((end_submit env (begin_submit form) (opened, none)).0.error ≡ none)
        ↔ ((authenticate env form (opened, none)).0 ≡ ok tt))
    × Steps env (opened, none) (logout env (opened, none)).1
    × Steps env
        (opened, none)
        (from_client (request_json env "/api/files/7" get_options as_void (ok tt)) (opened, none)).1
submit-Steps_example = submit-Steps env form opened none "/api/files/7" get_options
