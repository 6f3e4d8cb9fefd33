-- ===== src/Client/Request/Refresh.antt =====
-- What `tryRefresh` and `requestRaw` of frontend/src/api/client.ts call and
-- return.
use file_space.Base.{
  String, Bool, true, false, Option, none, some, ◌∷◌, ◌≡◌, refl, sym, ◌∙◌, arith, inl, inr, ◌==◌,
  string_eq, nat_eq, Bool-cases, Option-cases,
}
use mathlib.Core.Bool.{false≢true}
use file_space.Base.Effect.{Result, ok, err, bind_result, catch_result, Result-cases}
use file_space.Client.Env.{Request, Response, is_ok, Call, History, Env}
use file_space.Client.Request.{
  access_token_key, refresh_token_key, username_key, truthy, RequestOptions, json_as,
  as_access_token, sign_out, store_token, refresh_with, refresh_request, set_access_token,
  clear_tokens, get_refresh_token, get_access_token, raw_fetch, try_refresh, request_of, retry,
  after_first, request_raw,
}

-- The calls of `clearTokens`.
abbrev pub cleared : History → History
cleared h =
    Call.notify_unauthorized
    ∷ Call.remove_item username_key
    ∷ Call.remove_item refresh_token_key
    ∷ Call.remove_item access_token_key
    ∷ h

module _ (env : Env) where
  -- How far `tryRefresh` has come when it gives up: it has read the refresh token, and at most made
  -- one request with it, and at most tried to store a token after that.
  pub data IsAsking (h : History) : History → Type 0 where
    unasked : IsAsking h (Call.get_item refresh_token_key ∷ h)
    asked_once :
        (old : String)
        → IsAsking h (Call.fetch (refresh_request env old) ∷ Call.get_item refresh_token_key ∷ h)
    unstored :
        (old new : String)
        → IsAsking h (
            Call.set_item access_token_key new
            ∷ Call.fetch (refresh_request env old)
            ∷ Call.get_item refresh_token_key
            ∷ h)

  -- The end of `tryRefresh`: there is no new token and the tokens were cleared last, or the reply to
  -- the refresh token has brought a token, and it was stored last.
  pub data IsRefreshed (h : History) : Result (Option String) × History → Type 0 where
    dropped : (g : History) → IsAsking h g → IsRefreshed h (ok none, cleared g)
    renewed :
        (old new : String) (res : Response)
        → truthy (env.get_item h refresh_token_key) ≡ some old
        → env.fetch (Call.get_item refresh_token_key ∷ h) (refresh_request env old) ≡ ok res
        → is_ok res ≡ true
        → json_as as_access_token res ≡ ok new
        → IsRefreshed h (
          ok (some new),
          Call.set_item access_token_key new
              ∷ Call.fetch (refresh_request env old)
              ∷ Call.get_item refresh_token_key
              ∷ h,
        )

  module _ (h : History) (old : String)
      (l : truthy (env.get_item h refresh_token_key) ≡ some old) where
    abbrev asked : History
    asked = Call.fetch (refresh_request env old) ∷ Call.get_item refresh_token_key ∷ h

    stored :
        (res : Response)
        → env.fetch (Call.get_item refresh_token_key ∷ h) (refresh_request env old) ≡ ok res
        → is_ok res ≡ true
        → IsRefreshed h (
            catch_result
              (store_token env res asked).0
              (λ e. sign_out env)
              (store_token env res asked).1)
    unfolding set_access_token clear_tokens
    stored res e good = elim (Result-cases (json_as as_access_token res)) [
      | inr (x, unread) ↦ rw unread (dropped asked (asked_once old))
      | inl (new, read) ↦ elim (Result-cases (env.set_item asked access_token_key new)) [
        | inr (x, full) ↦ rw (read, full) (dropped _ (unstored old new))
        | inl (u, kept) ↦ rw (read, kept) (renewed old new res l e good read)
      ]
    ]

    replied : IsRefreshed h (refresh_with env (some old) (Call.get_item refresh_token_key ∷ h))
    unfolding clear_tokens
    replied =
        elim (Result-cases
          (env.fetch (Call.get_item refresh_token_key ∷ h) (refresh_request env old))) [
            | inr (x, failed) ↦ rw failed (dropped asked (asked_once old))
            | inl (res, e) ↦ elim (Bool-cases (is_ok res)) [
              | inl good ↦ rw (e, good) (stored res e good)
              | inr bad ↦ rw (e, bad) (dropped asked (asked_once old))
            ]
          ]

  -- A refresh never throws. It ends without a token, after one request at most, and has then cleared
  -- the stored tokens and told the sign-in state as its last calls; or it returns the token that the server has sent for the
  -- stored refresh token, and has then made one request, and has stored the token as its last call.
  pub try_refresh-IsRefreshed : (h : History) → IsRefreshed h (try_refresh env h)
  unfolding try_refresh clear_tokens get_refresh_token
  try_refresh-IsRefreshed h = elim (Option-cases (truthy (env.get_item h refresh_token_key))) [
    | inl absent ↦ rw absent (dropped _ unasked)
    | inr (old, l) ↦ rw l (replied h old l)
  ]

  module _ (path : String) (options : RequestOptions) (h : History) where
    abbrev token : Option String
    token = env.get_item h access_token_key

    abbrev pub first : Request
    first = request_of env path options token

    abbrev pub reply : Result Response
    reply = env.fetch (Call.get_item access_token_key ∷ h) first

    abbrev pub sent : History
    sent = Call.fetch first ∷ Call.get_item access_token_key ∷ h

    -- The first reply is a 401 to a request with a token.
    abbrev pub is_refused : Option String → Result Response → Bool
    is_refused none r = false
    is_refused (some t) (err e) = false
    is_refused (some t) (ok res) = res.status == 401

    -- The end of `requestRaw`.
    pub data IsRequested : Result Response × History → Type 0 where
      answered : is_refused (truthy token) reply ≡ false → IsRequested (reply, sent)
      signed_out :
          (res : Response) (t : Option String) (g : History)
          → is_refused (truthy token) reply ≡ true
          → reply ≡ ok res
          → try_refresh env sent ≡ (ok t, g)
          → truthy t ≡ none
          → IsRequested (ok res, g)
      retried :
          (new : String) (t : Option String) (g : History)
          → is_refused (truthy token) reply ≡ true
          → try_refresh env sent ≡ (ok t, g)
          → truthy t ≡ some new
          → IsRequested (
            env.fetch g (request_of env path options (some new)),
            Call.fetch (request_of env path options (some new)) ∷ g,
          )

    refreshed :
        (res : Response) (out : Result (Option String) × History)
        → is_refused (truthy token) reply ≡ true
        → reply ≡ ok res
        → try_refresh env sent ≡ out
        → IsRefreshed sent out
        → IsRequested (bind_result out.0 (λ t. retry env path options res (truthy t)) out.1)
    unfolding raw_fetch
    refreshed res (r, g) n e run (dropped k i) = signed_out res none _ n e run refl
    refreshed res (r, g) n e run (renewed old new x l f good read) =
        elim (Option-cases (truthy (some new))) [
          | inl empty ↦ rw empty (signed_out res (some new) _ n e run empty)
          | inr (kept, is_kept) ↦ rw is_kept (retried kept (some new) _ n run is_kept)
        ]

    ended :
        (t : Option String)
        → truthy token ≡ t
        → (r : Result Response) → reply ≡ r
        → IsRequested (bind_result r (λ res. after_first env path options res t) sent)
    ended none l (ok res) e = rw e at (answered (rw l refl))
    ended none l (err x) e = rw e at (answered (rw l refl))
    ended (some t) l (err x) e = rw e at (answered (rw (l, e) refl))
    ended (some t) l (ok res) e = elim (Bool-cases (res.status == 401)) [
      | inr other ↦ rw other (rw e at (answered (rw (l, e) other)))
      | inl refused ↦ rw refused (
          refreshed res (try_refresh env sent) (rw (l, e) refused) e refl
            (try_refresh-IsRefreshed sent))
    ]

    -- A request is made once, and its reply is the result, unless a token was sent and the reply is
    -- a 401. Then there is one refresh. If it brings a token, the request is made once more with
    -- that token, and this second reply is the result, whatever it is; if not, the result is the
    -- first reply.
    pub request_raw-IsRequested : IsRequested (request_raw env path options h)
    unfolding request_raw get_access_token raw_fetch
    request_raw-IsRequested = ended (truthy token) refl reply refl

    IsRequested-IsReply :
        (out : Result Response × History) (res : Response)
        → IsRequested out
        → out.0 ≡ ok res
        → (g : History) × (t : Option String) × (env.fetch g (request_of env path options t)
            ≡ ok res)
    IsRequested-IsReply out res (answered n) e = (Call.get_item access_token_key ∷ h, token, e)
    IsRequested-IsReply out res (signed_out r t g n e' run l) e =
        (Call.get_item access_token_key ∷ h, token, e' ∙ e)
    IsRequested-IsReply out res (retried new t g n run l) e = (g, some new, e)

    -- A response is the reply to the request with some token.
    pub request_raw-IsReply :
        (res : Response)
        → (request_raw env path options h).0 ≡ ok res
        → (g : History) × (t : Option String) × (env.fetch g (request_of env path options t)
            ≡ ok res)
    request_raw-IsReply res e = IsRequested-IsReply _ res request_raw-IsRequested e

    not_refused :
        (t : Option String) (res : Response) → is_ok res ≡ true → is_refused t (ok res) ≡ false
    not_refused none res good = refl
    not_refused (some t) res good = ground (arith, good)

    IsRequested-reply :
        (out : Result Response × History)
        → IsRequested out
        → is_refused (truthy token) reply ≡ false
        → out.0 ≡ reply
    IsRequested-reply out (answered n) kept = refl
    IsRequested-reply out (signed_out r t g n e run l) kept = absurd (false≢true (sym kept ∙ n))
    IsRequested-reply out (retried new t g n run l) kept = absurd (false≢true (sym kept ∙ n))

    -- A first reply that is no error is the result.
    pub request_raw_good :
        (res : Response)
        → reply ≡ ok res
        → is_ok res ≡ true
        → (request_raw env path options h).0 ≡ ok res
    request_raw_good res e good =
        IsRequested-reply _ request_raw-IsRequested (rw e (not_refused (truthy token) res good)) ∙ e
