-- ===== src/Auth/Steps.antt =====
-- The blocks of the sign-in state and of the client that run without an `await`, in any order, and
-- the requests as runs of such blocks.
use file_space.Base.{
  String, Bool, true, false, Option, none, some, List, [], ◌∷◌, ◌++◌, ◌≡◌, refl, sym, ◌∙◌, ap, inl,
  inr, Bool-cases,
}
use mathlib.Core.List.{append_assoc}
use file_space.Auth.{AuthUser, Session, heard, end_login}
use file_space.Base.Effect.{Result, ok, err, bind_result}
use file_space.Client.Env.{Content, Response, is_ok, Call, History, Env}
use file_space.Client.Request.{
  decode_response, request_json, request_of, try_refresh, refresh_request, access_token_key,
  refresh_token_key, RequestOptions, request_raw,
}
use file_space.Client.Request.Refresh.{
  sent, first, try_refresh-IsRefreshed, cleared, IsAsking, unasked, asked_once, unstored,
  IsRefreshed, dropped, renewed, IsRequested, answered, signed_out, retried,
  request_raw-IsRequested,
}

-- A call that changes neither the stored items nor the sign-in state.
abbrev pub is_silent : Call → Bool
is_silent (Call.get_item key) = true
is_silent (Call.fetch r) = true
is_silent (Call.send r) = true
is_silent (Call.progress loaded total) = true
is_silent c = false

heard-silent : (c : Call) (user : Option AuthUser) → is_silent c ≡ true → heard (c ∷ []) user ≡ user
unfolding heard
heard-silent (Call.get_item k) user e = refl
heard-silent (Call.fetch r) user e = refl
heard-silent (Call.send r) user e = refl
heard-silent (Call.progress l t) user e = refl
heard-silent (Call.set_item k v) user e = absurd (cc)
heard-silent (Call.remove_item k) user e = absurd (cc)
heard-silent Call.notify_unauthorized user e = absurd (cc)

module _ (env : Env) where
  pub data Step : Session → Session → Type 0 where
    silent :
        (c : Call) (h : History) (user : Option AuthUser)
        → is_silent c ≡ true
        → Step (h, user) (c ∷ h, user)
    token_stored :
        (t : String) (h : History) (user : Option AuthUser)
        → Step (h, user) (Call.set_item access_token_key t ∷ h, user)
    tokens_cleared : (h : History) (user : Option AuthUser) → Step (h, user) (cleared h, none)
    login_ended :
        (username : String) (tokens : String × String) (h : History)
        → Step (h, none) (end_login env username tokens (h, none)).1

  pub data Steps (s : Session) : Session → Type 0 where
    stay : Steps s s
    and_then : {t u : Session} → Steps s t → Step t u → Steps s u

  pub Steps-chain : (s t u : Session) → Steps s t → Steps t u → Steps s u
  Steps-chain s t u p stay = p
  Steps-chain s t u p (and_then {t = v} q r) = and_then (Steps-chain s t v p q) r

  -- A part of a request, as steps for every sign-in state at its start.
  pub record Runs (h h' : History) : Type 0 where
    pub calls : List Call
    pub history_eq : h' ≡ calls ++ h
    pub steps : (user : Option AuthUser) → Steps (h, user) (h', heard calls user)

  pub heard-append :
      (calls before : List Call) (user : Option AuthUser)
      → heard (calls ++ before) user ≡ heard calls (heard before user)
  unfolding heard
  heard-append [] before user = refl
  heard-append (Call.notify_unauthorized ∷ calls) before user = refl
  heard-append (Call.get_item k ∷ calls) before user = heard-append calls before user
  heard-append (Call.set_item k v ∷ calls) before user = heard-append calls before user
  heard-append (Call.remove_item k ∷ calls) before user = heard-append calls before user
  heard-append (Call.fetch r ∷ calls) before user = heard-append calls before user
  heard-append (Call.send r ∷ calls) before user = heard-append calls before user
  heard-append (Call.progress l t ∷ calls) before user = heard-append calls before user

  Runs-chain : (h i j : History) → Runs h i → Runs i j → Runs h j
  Runs-chain h i j p q = record {
    calls = q.calls ++ p.calls;
    history_eq =
        q.history_eq ∙ ap (λ r. q.calls ++ r) p.history_eq ∙ sym (append_assoc q.calls p.calls h);
    steps = λ user. rw (heard-append q.calls p.calls user) (
        Steps-chain (h, user) (i, heard p.calls user) (j, heard q.calls (heard p.calls user))
          (p.steps user) (q.steps (heard p.calls user)));
  }

  Runs-silent : (c : Call) (h h' : History) → is_silent c ≡ true → Runs h h' → Runs h (c ∷ h')
  Runs-silent c h h' quiet p = Runs-chain h h' (c ∷ h') p (record {
    calls = c ∷ [];
    history_eq = refl;
    steps = λ user. rw (heard-silent c user quiet) (and_then stay (silent c h' user quiet));
  })

  Runs-token :
      (t : String) (h h' : History) → Runs h h' → Runs h (Call.set_item access_token_key t ∷ h')
  unfolding heard
  Runs-token t h h' p = Runs-chain h h' (Call.set_item access_token_key t ∷ h') p (record {
    calls = Call.set_item access_token_key t ∷ [];
    history_eq = refl;
    steps = λ user. and_then stay (token_stored t h' user);
  })

  Runs-cleared : (h h' : History) → Runs h h' → Runs h (cleared h')
  unfolding heard
  Runs-cleared h h' p = Runs-chain h h' (cleared h') p (record {
    calls = cleared [];
    history_eq = refl;
    steps = λ user. and_then stay (tokens_cleared h' user);
  })

  Runs-none : (h : History) → Runs h h
  unfolding heard
  Runs-none h = record { calls = []; history_eq = refl; steps = λ user. stay }

  Runs-read : (h : History) → Runs h (Call.get_item refresh_token_key ∷ h)
  Runs-read h = Runs-silent (Call.get_item refresh_token_key) h h refl (Runs-none h)

  Runs-asked :
      (old : String) (h : History)
      → Runs h (Call.fetch (refresh_request env old) ∷ Call.get_item refresh_token_key ∷ h)
  Runs-asked old h =
      let read = Call.get_item refresh_token_key ∷ h in
      Runs-silent (Call.fetch (refresh_request env old)) h read refl (Runs-read h)

  Runs-stored :
      (old new : String) (h : History)
      → Runs h (
          Call.set_item access_token_key new
          ∷ Call.fetch (refresh_request env old)
          ∷ Call.get_item refresh_token_key
          ∷ h)
  Runs-stored old new h =
      let asked = Call.fetch (refresh_request env old) ∷ Call.get_item refresh_token_key ∷ h in
      Runs-token new h asked (Runs-asked old h)

  Runs-asking : (h g : History) → IsAsking env h g → Runs h g
  Runs-asking h g unasked = Runs-read h
  Runs-asking h g (asked_once old) = Runs-asked old h
  Runs-asking h g (unstored old new) = Runs-stored old new h

  Runs-refreshed :
      (h : History) (out : Result (Option String) × History) → IsRefreshed env h out → Runs h out.1
  Runs-refreshed h out (dropped g asking) = Runs-cleared h g (Runs-asking h g asking)
  Runs-refreshed h out (renewed old new res l f good read) = Runs-stored old new h

  module _ (path : String) (options : RequestOptions) (h : History) where
    Runs-sent : Runs h (sent env path options h)
    Runs-sent =
        let read = Call.get_item access_token_key ∷ h in
        Runs-silent (Call.fetch (first env path options h)) h read refl
          (Runs-silent (Call.get_item access_token_key) h h refl (Runs-none h))

    Runs-try :
        (t : Result (Option String)) (g : History)
        → try_refresh env (sent env path options h) ≡ (t, g)
        → Runs h g
    Runs-try t g run = Runs-chain h (sent env path options h) g Runs-sent (
        rw (sym (ap (λ out. out.1) run)) (
          Runs-refreshed (sent env path options h) (try_refresh env (sent env path options h))
            (try_refresh-IsRefreshed env (sent env path options h))))

    Runs-requested :
        (out : Result Response × History) → IsRequested env path options h out → Runs h out.1
    Runs-requested out (answered n) = Runs-sent
    Runs-requested out (signed_out res t g n e run empty) = Runs-try (ok t) g run
    Runs-requested out (retried new t g n run kept) =
        Runs-silent (Call.fetch (request_of env path options (some new))) h g refl
          (Runs-try (ok t) g run)

    Runs-request_raw : Runs h (request_raw env path options h).1
    Runs-request_raw =
        Runs-requested (request_raw env path options h) (request_raw-IsRequested env path options h)

    module _ {ℓ} {A : Type ℓ} (decode : Content → Option A) (undefined : Result A) where
      decoded_history :
          (r : Result Response) (g : History)
          → (bind_result r (decode_response env path options decode undefined) g).1 ≡ g
      decoded_history (err x) g = refl
      decoded_history (ok res) g = elim (Bool-cases (is_ok res)) [
        | inl good ↦ rw good refl
        | inr bad ↦ rw bad refl
      ]

      pub Runs-request_json : Runs h (request_json env path options decode undefined h).1
      unfolding request_json
      Runs-request_json =
          let out = request_raw env path options h in
          rw (decoded_history out.0 out.1) Runs-request_raw
