-- ===== src/Auth/Agreement.antt =====
-- The sign-in state and the items of `localStorage`.
use file_space.Base.{
  String, Bool, true, false, ◌&&◌, Option, none, some, [], ◌∷◌, ◌≡◌, refl, ◌⊎◌, inl, inr,
  if◌then◌else◌, ◌==◌, string_eq, nat_eq,
}
use file_space.Auth.{store_user, set_user, heard, calls_since, AuthUser, Session, end_login}
use file_space.Auth.Steps.{
  Step, Steps, stay, and_then, silent, token_stored, tokens_cleared, login_ended, is_silent,
}
use file_space.Auth.Handlers.{heard-none}
use file_space.Base.Effect.{Exception, Result, Result-cases, bind_result, ok, err}
use file_space.Client.Env.{Call, History, Env}
use file_space.Client.Request.{access_token_key, refresh_token_key, username_key, truthy}

abbrev is_accepted : Result (Unit {0}) → Bool
is_accepted (ok u) = true
is_accepted (err e) = false

module _ (env : Env) (base : String → Option String) where
  -- The item of a key after the calls of a history, from the items `base` on.
  abbrev pub item : History → String → Option String
  item [] key = base key
  item (Call.set_item k v ∷ h) key =
      let before = item h key in
      if k == key && is_accepted (env.set_item h k v) then some v else before
  item (Call.remove_item k ∷ h) key = let before = item h key in if k == key then none else before
  item (c ∷ h) key = item h key

  -- `localStorage` returns the items of the calls recorded.
  abbrev pub IsStorage : Type 0
  IsStorage = (h : History) (key : String) → env.get_item h key ≡ item h key

  -- What the program leaves in the storage of an earlier visit.
  abbrev pub IsWhole : Type 0
  IsWhole =
      (truthy (base username_key) ≡ none)
      ⊎ ((user : AuthUser) × (truthy (base access_token_key) ≡ some user.access_token)
          × (truthy (base refresh_token_key) ≡ some user.refresh_token)
          × (truthy (base username_key) ≡ some user.username))

  abbrev pub Agrees : History → Option AuthUser → Type 0
  Agrees h none = truthy (item h username_key) ≡ none
  Agrees h (some user) =
      (item h refresh_token_key ≡ some user.refresh_token)
      × (item h username_key ≡ some user.username)

  silent-Agrees :
      (c : Call) (h : History) (user : Option AuthUser)
      → is_silent c ≡ true
      → Agrees h user
      → Agrees (c ∷ h) user
  silent-Agrees (Call.get_item k) h none q a = a
  silent-Agrees (Call.get_item k) h (some user) q a = a
  silent-Agrees (Call.fetch r) h none q a = a
  silent-Agrees (Call.fetch r) h (some user) q a = a
  silent-Agrees (Call.send r) h none q a = a
  silent-Agrees (Call.send r) h (some user) q a = a
  silent-Agrees (Call.progress l t) h none q a = a
  silent-Agrees (Call.progress l t) h (some user) q a = a
  silent-Agrees (Call.set_item k v) h user q a = absurd (cc)
  silent-Agrees (Call.remove_item k) h user q a = absurd (cc)
  silent-Agrees Call.notify_unauthorized h user q a = absurd (cc)

  token-Agrees :
      (t : String) (h : History) (user : Option AuthUser)
      → Agrees h user
      → Agrees (Call.set_item access_token_key t ∷ h) user
  unfolding string_eq nat_eq
  token-Agrees t h none a = a
  token-Agrees t h (some user) a = a

  -- The end of `storeUser`: all items are stored, or an exception is thrown before the name is.
  pub data IsStored (user : AuthUser) (h : History) : Result (Unit {0}) × History → Type 0 where
    stored :
        (g : History)
        → item g access_token_key ≡ some user.access_token
        → item g refresh_token_key ≡ some user.refresh_token
        → item g username_key ≡ some user.username
        → IsStored user h (ok tt, g)
    full :
        (e : Exception) (g : History)
        → item g username_key ≡ item h username_key
        → IsStored user h (err e, g)

  pub store_user-IsStored :
      (user : AuthUser) (h : History) → IsStored user h (store_user env user h)
  unfolding store_user string_eq nat_eq
  store_user-IsStored user h =
      let h1 = Call.set_item access_token_key user.access_token ∷ h in
      let h2 = Call.set_item refresh_token_key user.refresh_token ∷ h1 in
      elim (Result-cases (env.set_item h access_token_key user.access_token)) [
        | inr (x, e) ↦ rw e (full x h1 refl)
        | inl (u, e) ↦ elim (Result-cases (env.set_item h1 refresh_token_key user.refresh_token)) [
          | inr (x, e') ↦ rw (e, e') (full x h2 refl)
          | inl (u', e') ↦ elim (Result-cases (env.set_item h2 username_key user.username)) [
            | inr (x, e'') ↦
                rw (e, e', e'')
                  (full x (Call.set_item username_key user.username ∷ h2) (rw e'' refl))
            | inl (u'', e'') ↦
                rw (e, e', e'')
                  (stored (Call.set_item username_key user.username ∷ h2) (rw e refl) (rw e' refl)
                    (rw e'' refl))
          ]
        ]
      ]

  -- The sign-in state after that.
  ended :
      (user : AuthUser) (h : History) (out : Result (Unit {0}) × History)
      → IsStored user h out
      → Agrees h none
      → Agrees
          (bind_result out.0
            (λ u. set_user (some user))
            (out.1, heard (calls_since h out.1) none)).1.0
          (bind_result out.0
            (λ u. set_user (some user))
            (out.1, heard (calls_since h out.1) none)).1.1
  ended user h out (stored g a r n) free = (r, n)
  ended user h out (full e g n) free = rw (heard-none (calls_since h g)) (rw n free)

  Step-Agrees : (s t : Session) → Step env s t → Agrees s.0 s.1 → Agrees t.0 t.1
  unfolding end_login string_eq nat_eq
  Step-Agrees s t (silent c h user q) a = silent-Agrees c h user q a
  Step-Agrees s t (token_stored v h user) a = token-Agrees v h user a
  Step-Agrees s t (tokens_cleared h user) a = refl
  Step-Agrees s t (login_ended username (access, refresh) h) a =
      let user : AuthUser = record {
        username = username;
        access_token = access;
        refresh_token = refresh;
      } in
      ended user h (store_user env user h) (store_user-IsStored user h) a

  pub Steps-Agrees : (s t : Session) → Steps env s t → Agrees s.0 s.1 → Agrees t.0 t.1
  Steps-Agrees s t stay a = a
  Steps-Agrees s t (and_then {t = m} steps step) a = Step-Agrees m t step (Steps-Agrees s m steps a)
