-- ===== src/Auth/Handlers.antt =====
-- The handlers of the sign-in state as runs of the steps.
use file_space.Base.{
  ℕ, ◌-◌, String, false, Option, none, List, [], ◌∷◌, ◌++◌, ◌≡◌, refl, sym, arith, length,
  length-append, take_front, ◌↔◌,
}
use file_space.Client.Request.{RequestOptions, request_json}
use file_space.Auth.{
  login_mode, register_mode, LoginForm, begin_submit, end_submit, authenticate, error_of, heard,
  calls_since, AuthUser, Session, heard, calls_since, from_client, end_login, sign_in, sign_up,
  logout,
}
use file_space.Auth.Steps.{
  Steps, stay, and_then, login_ended, tokens_cleared, Steps-chain, Runs, Runs-request_json,
}
use file_space.Base.Effect.{M, Result, ok, err, bind_result}
use file_space.Client.Endpoints.{login, register, post, missing, as_tokens, as_void, as_user}
use file_space.Client.Request.{clear_tokens}
use file_space.Client.Env.{credentials, Call, History, Env, Client}

pub calls_since-append : (calls h : History) → calls_since h (calls ++ h) ≡ calls
calls_since-append calls h =
    let e : length (calls ++ h) - length h ≡ length calls = omega (arith, length-append calls h) in
    rw e (take_front (length calls) calls h refl)

pub heard-none : (calls : List Call) → heard calls none ≡ none
unfolding heard
heard-none [] = refl
heard-none (Call.notify_unauthorized ∷ calls) = refl
heard-none (Call.get_item k ∷ calls) = heard-none calls
heard-none (Call.set_item k v ∷ calls) = heard-none calls
heard-none (Call.remove_item k ∷ calls) = heard-none calls
heard-none (Call.fetch r ∷ calls) = heard-none calls
heard-none (Call.send r ∷ calls) = heard-none calls
heard-none (Call.progress l t ∷ calls) = heard-none calls

module _ (env : Env) where
  from_client-Steps {ℓ} :
      {A : Type ℓ} (m : Client A) (h : History) (user : Option AuthUser)
      → Runs env h (m h).1
      → Steps env (h, user) (from_client m (h, user)).1
  from_client-Steps m h user p =
      rw (p.history_eq, calls_since-append p.calls h) (rw (sym p.history_eq) (p.steps user))

  module _ (username password : String) where
    ended-Steps :
        (s : Session) (r : Result (String × String)) (g : History) (user : Option AuthUser)
        → user ≡ none
        → Steps env s (g, user)
        → Steps env s (bind_result r (end_login env username) (g, user)).1
    ended-Steps s (err x) g user e p = p
    ended-Steps s (ok tokens) g user e p =
        rw e (and_then (rw (sym e) p) (login_ended username tokens g))

    login-Runs : (h : History) → Runs env h (login env username password h).1
    unfolding login
    login-Runs h =
        Runs-request_json env "/api/auth/login" (post (credentials username password)) h as_tokens
          missing

    register-Runs : (h : History) → Runs env h (register env username password h).1
    unfolding register
    register-Runs h =
        Runs-request_json env "/api/auth/register" (post (credentials username password)) h as_user
          missing

    pub sign_in-Steps :
        (h : History) → Steps env (h, none) (sign_in env username password (h, none)).1
    unfolding sign_in
    sign_in-Steps h =
        let out = login env username password h in
        let p = from_client-Steps (login env username password) h none (login-Runs h) in
        ended-Steps (h, none) out.0 out.1 (heard (calls_since h out.1) none)
          (heard-none (calls_since h out.1)) p

    registered-Steps :
        (s : Session) (r : Result (ℕ × String)) (g : History) (user : Option AuthUser)
        → user ≡ none
        → Steps env s (g, user)
        → Steps env s
            (bind_result r (λ (i : ℕ × String). sign_in env username password) (g, user)).1
    registered-Steps s (err x) g user e p = p
    registered-Steps s (ok i) g user e p = rw e (
        Steps-chain env s (g, none) (sign_in env username password (g, none)).1 (rw (sym e) p)
          (sign_in-Steps g))

    pub sign_up-Steps :
        (h : History) → Steps env (h, none) (sign_up env username password (h, none)).1
    unfolding sign_up
    sign_up-Steps h =
        let out = register env username password h in
        let p = from_client-Steps (register env username password) h none (register-Runs h) in
        registered-Steps (h, none) out.0 out.1 (heard (calls_since h out.1) none)
          (heard-none (calls_since h out.1)) p

  -- The blocks of the sign-in state are all that its handlers run: a submit of the form in either
  -- mode while nobody is signed in, a sign-out, and a JSON request of a signed-in user or of nobody
  -- are sequences of steps. A submit that has ended can be made again, and an error is shown then
  -- if and only if its sign-in has thrown.
  pub submit-Steps :
      (form : LoginForm) (h : History) (user : Option AuthUser) (path : String)
      (options : RequestOptions)
      → let out = end_submit env (begin_submit form) (h, none) in
        Steps env (h, none) out.1
        × (out.0.is_submitting ≡ false)
        × ((out.0.error ≡ none) ↔ ((authenticate env form (h, none)).0 ≡ ok tt))
        × Steps env (h, user) (logout env (h, user)).1
        × Steps env
            (h, user)
            (from_client (request_json env path options as_void (ok tt)) (h, user)).1
  unfolding begin_submit end_submit sign_in sign_up logout clear_tokens
  submit-Steps form h user path options = (
    submitted form h,
    refl,
    shown (authenticate env form (h, none)).0,
    and_then stay (tokens_cleared h user),
    from_client-Steps (request_json env path options as_void (ok tt)) h user
        (Runs-request_json env path options h as_void (ok tt)),
  )
    where
      submitted :
          (form : LoginForm) (h : History) → Steps env (h, none) (authenticate env form (h, none)).1
      submitted form h =
          elim form.mode
            as (λ m.
              Steps env (h, none)
                (elim m as (λ x. M Session (Unit {0})) [
                  | login_mode ↦ sign_in env form.username form.password
                  | register_mode ↦ sign_up env form.username form.password
                ]
                  (h, none)).1) [
                    | login_mode ↦ sign_in-Steps form.username form.password h
                    | register_mode ↦ sign_up-Steps form.username form.password h
                  ]

      shown : (r : Result (Unit {0})) → (error_of r ≡ none) ↔ (r ≡ ok tt)
      shown (ok u) = (λ e. refl, λ e. refl)
      shown (err x) = (λ e. absurd (cc), λ e. absurd (cc))
