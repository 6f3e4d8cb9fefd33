-- ===== src/Client/Upload/Session.antt =====
-- The requests that send one chunk, frontend/src/api/client.ts.
use file_space.Base.{
  ℕ, String, true, Option, none, some, List, ◌∷◌, ◌≡◌, refl, inl, inr, ◌==◌, nat_eq, Bool-cases,
}
use file_space.Base.Effect.{Result, for_each, of_result, ◌>>◌}
use file_space.Base.Effect.Logic.{
  Does, IsPreorder, Grows, Grows-chain, Grows-preorder, here, next, Does-mono, pure-Does,
  throw-Does, bind-Does, for_each-Does, of_result-Does,
}
use file_space.Client.Env.{Response, is_ok, Call, History, Env}
use file_space.Client.Request.{
  truthy, RequestOptions, refresh_request, get_access_token, request_of, try_refresh,
}
use file_space.Client.Request.Refresh.{
  IsRefreshed, dropped, renewed, IsAsking, unasked, asked_once, unstored, try_refresh-IsRefreshed,
}
use file_space.Client.Upload.{
  chunk_path, chunk_options, report, send_chunk, send_with, resend, after_sent, check_sent,
  upload_chunk,
}
use file_space.Sync.Env.{Bytes}

module _ (env : Env) where
  -- The calls that send one chunk, in one `PUT` request or two, with a refresh of the tokens.
  abbrev pub IsChunkCall : String → RequestOptions → (total : ℕ) → History → Call → Type 0
  IsChunkCall path options total h (Call.send r) =
      (t : Option String) × (r ≡ request_of env path options t)
  IsChunkCall path options total h (Call.progress loaded n) = n ≡ total
  IsChunkCall path options total h (Call.fetch r) = (old : String) × (r ≡ refresh_request env old)
  IsChunkCall path options total h c = Unit

  module _ (upload_id : String) (index : ℕ) (b : Bytes) (total before : ℕ) where
    abbrev P : History → Call → Type 0
    P = IsChunkCall (chunk_path upload_id index) (chunk_options b) total

    abbrev steps : IsPreorder (Grows P)
    steps = Grows-preorder P

    abbrev pub Any {ℓ} : {A : Type ℓ} → A → Type 0
    Any a = Unit

    pub refresh_calls : Does (Grows P) Any (try_refresh env)
    refresh_calls = record {
      leads = λ h. led h (try_refresh env h) (try_refresh-IsRefreshed env h);
      gives = λ h a e. tt;
    }
      where
        asking : (h g : History) → IsAsking env h g → Grows P h g
        asking h g unasked = next here tt
        asking h g (asked_once old) = next (next here tt) (old, refl)
        asking h g (unstored old new) = next (next (next here tt) (old, refl)) tt

        led :
            (h : History) (out : Result (Option String) × History)
            → IsRefreshed env h out
            → Grows P h out.1
        led h out (dropped g i) = next (next (next (next (asking h g i) tt) tt) tt) tt
        led h out (renewed old new res l f good read) = next (next (next here tt) (old, refl)) tt

    pub report_calls :
        (events : List ℕ) → Does (Grows P) Any (for_each events (report env total before) tt)
    report_calls events =
        for_each-Does steps (λ rest (u : Unit {0}). Unit {0}) (report env total before)
          (λ x xs u i. record { leads = λ h. next here refl; gives = λ h a e. tt }) events tt tt

    told_calls :
        (events : List ℕ) (reply : Result Response)
        → Does
            (Grows P)
            (Any {A = Response})
            (for_each events (report env total before) tt >> of_result reply)
    told_calls events reply =
        bind-Does steps (for_each events (report env total before) tt) (λ u. of_result reply)
          (report_calls events) (λ u (i : Unit {0}). of_result-Does steps reply (λ a e. tt))

    pub send_calls :
        (t : Option String) → Does (Grows P) Any (send_with env upload_id index b total before t)
    unfolding send_chunk
    send_calls t = record {
      leads = λ h.
          let r = request_of env (chunk_path upload_id index) (chunk_options b) t in
          Grows-chain P h (Call.send r ∷ h) _ (next here (t, refl))
            ((told_calls (env.progress_events h r) (env.send h r)).leads (Call.send r ∷ h));
      gives = λ h a e. tt;
    }

    resend_calls :
        (res : Response) (t : Option String)
        → Does (Grows P) Any (resend env upload_id index b total before res t)
    resend_calls res none = pure-Does steps res tt
    resend_calls res (some t) = send_calls (some t)

    after_sent_calls :
        (res : Response) (t : Option String)
        → Does (Grows P) Any (after_sent env upload_id index b total before res t)
    after_sent_calls res none = pure-Does steps res tt
    after_sent_calls res (some t) = elim (Bool-cases (res.status == 401)) [
      | inr other ↦ rw other (pure-Does steps res tt)
      | inl refused ↦ rw refused (
          bind-Does steps (try_refresh env)
            (λ t'. resend env upload_id index b total before res (truthy t')) refresh_calls
            (λ t' (u : Unit {0}). resend_calls res (truthy t')))
    ]

    check_calls :
        (res : Response)
        → Does
            (Grows P)
            (λ (u : Unit {0}). is_ok res ≡ true)
            (check_sent env upload_id index b total before res)
    check_calls res = elim (Bool-cases (is_ok res)) [
      | inl good ↦ rw good (pure-Does steps tt refl)
      | inr bad ↦ rw bad (throw-Does steps _)
    ]

    -- One chunk, whatever the calls reply.
    pub upload_chunk_calls : Does (Grows P) Any (upload_chunk env upload_id index b total before)
    unfolding upload_chunk get_access_token
    upload_chunk_calls =
        bind-Does steps (get_access_token env) _
          (record { leads = λ h. next here tt; gives = λ h a e. tt })
          (λ token (u : Unit {0}).
            bind-Does steps (send_with env upload_id index b total before token) _
              (send_calls token)
              (λ res (u : Unit {0}).
                bind-Does steps (after_sent env upload_id index b total before res (truthy token)) _
                  (after_sent_calls res (truthy token))
                  (λ res' (u : Unit {0}). Does-mono (check_calls res') (λ u e. tt))))
