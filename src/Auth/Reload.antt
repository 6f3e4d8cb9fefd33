-- ===== src/Auth/Reload.antt =====
-- What `readStoredUser` returns at the next visit.
use file_space.Base.{
  String, Option, none, some, [], ◌∷◌, ◌≡◌, refl, sym, ◌∙◌, ap, inl, inr, arith, string_eq,
}
use mathlib.Core.Option.{some-injective}
use file_space.Auth.{
  heard, calls_since, set_user, end_login, store_user, AuthUser, Session, stored_user,
  read_stored_user, sign_in,
}
use file_space.Client.Endpoints.{login}
use file_space.Auth.Agreement.{
  IsStored, stored, full, store_user-IsStored, item, IsStorage, IsWhole, Agrees, Steps-Agrees,
}
use file_space.Auth.Steps.{Steps}
use file_space.Base.Effect.{Result, ok, bind_result}
use file_space.Base.Effect.Logic.{ok_injective, bind_result-eq-ok}
use file_space.Client.Env.{Call, History, Env}
use file_space.Client.Request.{access_token_key, refresh_token_key, username_key, truthy}

truthy-some : (o : Option String) (t : String) → truthy o ≡ some t → o ≡ some t
unfolding string_eq
truthy-some none t e = absurd (cc)
truthy-some (some s) t e = ground (arith, e)

stored_user-none : (a r n : Option String) → n ≡ none → stored_user a r n ≡ none
stored_user-none none r none e = refl
stored_user-none (some a) none none e = refl
stored_user-none (some a) (some r) none e = refl
stored_user-none a r (some n) e = absurd (cc)

module _ (env : Env) (base : String → Option String) (storage : IsStorage env base) where
  read_lem :
      (h : History)
      → (read_stored_user env h).0
        ≡ ok (
            stored_user
              (truthy (item env base h access_token_key))
              (truthy (item env base h refresh_token_key))
              (truthy (item env base h username_key)))
  unfolding read_stored_user
  read_lem h =
      let h1 = Call.get_item access_token_key ∷ h in
      rw
        (
          storage h access_token_key,
          storage h1 refresh_token_key,
          storage (Call.get_item refresh_token_key ∷ h1) username_key,
        )
        refl

  same-Agrees :
      (h : History) (user user' : Option AuthUser)
      → user ≡ user'
      → Agrees env base h user
      → Agrees env base h user'
  same-Agrees h user user' e a = rw (sym e) a

  start-Agrees :
      IsWhole env base
      → (user : Option AuthUser) → (read_stored_user env []).0 ≡ ok user
      → Agrees env base [] user
  start-Agrees (inl absent) user e =
      let free =
        stored_user-none (truthy (base access_token_key)) (truthy (base refresh_token_key))
          (truthy (base username_key)) absent in
      same-Agrees [] none user (sym free ∙ ok_injective (sym (read_lem []) ∙ e)) absent
  start-Agrees (inr (old, a, r, n)) user e =
      let same : some old ≡ user = rw (a, r, n) at (ok_injective (sym (read_lem []) ∙ e)) in
      same-Agrees [] (some old) user same (
        truthy-some (base refresh_token_key) old.refresh_token r,
        truthy-some (base username_key) old.username n,
      )

  read-Agrees :
      (h : History) (user : Option AuthUser)
      → Agrees env base h user
      → Agrees env base (read_stored_user env h).1 user
  unfolding read_stored_user
  read-Agrees h none a = a
  read-Agrees h (some user) a = a

  agreed :
      (h : History) (user : Option AuthUser)
      → Agrees env base h user
      → (user ≡ none → (read_stored_user env h).0 ≡ ok none)
        × ((u : AuthUser)
            → user ≡ some u
            → (env.get_item h refresh_token_key ≡ some u.refresh_token)
              × (env.get_item h username_key ≡ some u.username))
  agreed h none a = (
    λ e.
        read_lem h
        ∙ ap (λ r. ok r)
            (stored_user-none (truthy (item env base h access_token_key))
              (truthy (item env base h refresh_token_key)) (truthy (item env base h username_key))
              a),
    λ u e. absurd (cc),
  )
  agreed h (some v) (r, n) = (
    λ e. absurd (cc),
    λ u e.
        let same : v ≡ u = some-injective v u e in
        (
          storage h refresh_token_key ∙ r ∙ ap (λ (w : AuthUser). some w.refresh_token) same,
          storage h username_key ∙ n ∙ ap (λ (w : AuthUser). some w.username) same,
        ),
  )

  -- The page is opened with the items of an earlier visit. Then requests, a sign-out and, while
  -- nobody is signed in, ends of sign-ins follow in any order, in parts as they are between two
  -- `await`s; the storage may refuse to store an item at any point. If the page then has no user,
  -- the next visit finds none; if it has one, the stored refresh token and name are the user's.
  pub Steps-reload :
      (whole : IsWhole env base) (user : Option AuthUser)
      → (read_stored_user env []).0 ≡ ok user
      → (now : Session) → Steps env ((read_stored_user env []).1, user) now
      → (now.1 ≡ none → (read_stored_user env now.0).0 ≡ ok none)
        × ((u : AuthUser)
            → now.1 ≡ some u
            → (env.get_item now.0 refresh_token_key ≡ some u.refresh_token)
              × (env.get_item now.0 username_key ≡ some u.username))
  Steps-reload whole user e now steps =
      let start = read-Agrees [] user (start-Agrees whole user e) in
      agreed now.0 now.1 (Steps-Agrees env base ((read_stored_user env []).1, user) now steps start)

  abbrev pub IsComplete : AuthUser → Type 0
  IsComplete u =
      (truthy (some u.access_token) ≡ some u.access_token)
      × (truthy (some u.refresh_token) ≡ some u.refresh_token)
      × (truthy (some u.username) ≡ some u.username)

  -- The user of a session, and what the next visit reads.
  pub record IsSignedIn (u : AuthUser) (s : Session) : Type 0 where
    pub user_eq : s.1 ≡ some u
    pub read_eq : IsComplete u → (read_stored_user env s.0).0 ≡ ok (some u)

  ended-IsSignedIn :
      (u : AuthUser) (h : History) (out : Result (Unit {0}) × History) (user : Option AuthUser)
      → IsStored env base u h out
      → (bind_result out.0 (λ v. set_user (some u)) (out.1, user)).0 ≡ ok tt
      → IsSignedIn u (bind_result out.0 (λ v. set_user (some u)) (out.1, user)).1
  ended-IsSignedIn u h out user (stored g a r n) e = record {
    user_eq = refl;
    read_eq = λ (ca, cr, cn). read_lem g ∙ rw (a, r, n, ca, cr, cn) refl;
  }
  ended-IsSignedIn u h out user (full x g n) e = absurd (cc)

  -- When a sign-in returns, the server has replied with a pair of tokens. They and the name are the
  -- user of the page, and if none of the three is empty the next visit reads the same user.
  pub sign_in-read :
      (username password : String) (s : Session)
      → (sign_in env username password s).0 ≡ ok tt
      → (u : AuthUser) × (u.username ≡ username)
        × ((login env username password s.0).0 ≡ ok (u.access_token, u.refresh_token))
        × IsSignedIn u (sign_in env username password s).1
  unfolding sign_in end_login
  sign_in-read username password (h, user) e =
      let out = login env username password h in
      let ((access, refresh), run, rest) =
        bind_result-eq-ok out.0 (end_login env username) (out.1, heard (calls_since h out.1) user)
          e in
      let u : AuthUser = record {
        username = username;
        access_token = access;
        refresh_token = refresh;
      } in
      let kept = store_user env u out.1 in
      (
        u,
        refl,
        run,
        rw run (
            ended-IsSignedIn u out.1 kept
              (heard (calls_since out.1 kept.1) (heard (calls_since h out.1) user))
              (store_user-IsStored env base u out.1) rest),
      )
