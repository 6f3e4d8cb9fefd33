-- ===== src/Auth.antt =====
-- The sign-in state, frontend/src/auth/AuthContext.tsx. It reads and writes the stored tokens of
-- frontend/src/api/client.ts, and that module's listener resets it.
pub mod Steps
pub mod Handlers
pub mod Agreement
pub mod Reload
use file_space.Base.{
  ℕ, ◌-◌, String, Bool, true, false, Option, none, some, List, [], ◌∷◌, length, take,
}
use file_space.Base.Effect.{Result, ok, err, message_of, M, pure, ◌>>=◌, ◌>>◌}
use file_space.Client.Endpoints.{login, register}
use file_space.Client.Env.{Call, History, Env, Client, call}
use file_space.Client.Request.{
  access_token_key, refresh_token_key, username_key, truthy, get_access_token, get_refresh_token,
  set_access_token, clear_tokens,
}

pub record AuthUser : Type 0 where
  pub username : String
  pub access_token : String
  pub refresh_token : String

-- The calls made so far, and the state `user`.
abbrev pub Session : Type 0
Session = History × Option AuthUser

-- What the listener leaves of `user`, given the calls of a request, the last one first.
unfoldable pub heard : List Call → Option AuthUser → Option AuthUser
heard [] user = user
heard (Call.notify_unauthorized ∷ calls) user = none
heard (c ∷ calls) user = heard calls user

-- The calls made since the history `before`.
abbrev pub calls_since : (before after : History) → List Call
calls_since before after = take (length after - length before) after

-- A function of the client, with its calls of the listener.
abbrev pub from_client {ℓ} : {A : Type ℓ} → Client A → M Session A
from_client m (h, user) = ((m h).0, ((m h).1, heard (calls_since h (m h).1) user))

abbrev pub set_user : Option AuthUser → M Session (Unit {0})
set_user user (h, old) = (ok tt, (h, user))

abbrev pub stored_user : (access refresh name : Option String) → Option AuthUser
stored_user (some a) (some r) (some n) =
    some (record { username = n; access_token = a; refresh_token = r })
stored_user a r n = none

module _ (env : Env) where
  unfoldable pub read_stored_user : Client (Option AuthUser)
  unfolding get_access_token get_refresh_token
  read_stored_user = do
    a ← get_access_token env
    r ← get_refresh_token env
    n ← call (Call.get_item username_key) (λ h. ok (env.get_item h username_key))
    pure (stored_user (truthy a) (truthy r) (truthy n))

  abbrev pub set_item : String → String → Client (Unit {0})
  set_item key value = call (Call.set_item key value) (λ h. env.set_item h key value)

  unfoldable pub store_user : AuthUser → Client (Unit {0})
  store_user user = do
    set_item access_token_key user.access_token
    set_item refresh_token_key user.refresh_token
    set_item username_key user.username

  -- `login` of the context once the server has replied
  unfoldable pub end_login : String → String × String → M Session (Unit {0})
  unfolding store_user heard
  end_login username (access, refresh) =
      let next_user : AuthUser = record {
        username = username;
        access_token = access;
        refresh_token = refresh;
      } in
      from_client (store_user next_user) >> set_user (some next_user)

  unfoldable pub sign_in : String → String → M Session (Unit {0})
  unfolding end_login login heard
  sign_in username password = from_client (login env username password) >>= end_login username

  unfoldable pub sign_up : String → String → M Session (Unit {0})
  unfolding sign_in register heard
  sign_up username password =
      from_client (register env username password) >> sign_in username password

  unfoldable pub logout : M Session (Unit {0})
  unfolding clear_tokens heard
  logout = from_client (clear_tokens env) >> set_user none

-- The form of frontend/src/auth/LoginPage.tsx.
pub data Mode : Type 0 where
  login_mode register_mode : Mode

pub record LoginForm : Type 0 where
  pub mode : Mode
  pub username : String
  pub password : String
  pub error : Option String
  pub is_submitting : Bool

-- `handleSubmit` up to its first `await`
unfoldable pub begin_submit : LoginForm → LoginForm
begin_submit form = record form { error = none; is_submitting = true }

abbrev pub error_of : Result (Unit {0}) → Option String
error_of (ok u) = none
error_of (err e) = some (message_of "Something went wrong" e)

module _ (env : Env) where
  abbrev pub authenticate : LoginForm → M Session (Unit {0})
  authenticate form = elim form.mode [
    | login_mode ↦ sign_in env form.username form.password
    | register_mode ↦ sign_up env form.username form.password
  ]

  -- `handleSubmit` from its first `await` on
  unfoldable pub end_submit : LoginForm → Session → LoginForm × Session
  unfolding sign_in sign_up
  end_submit form s =
      let out = authenticate form s in
      (record form { error = error_of out.0; is_submitting = false }, out.1)
