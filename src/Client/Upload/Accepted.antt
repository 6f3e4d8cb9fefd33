-- ===== src/Client/Upload/Accepted.antt =====
-- What a chunk that was uploaded without an exception has been through, `uploadChunk` of
-- frontend/src/api/client.ts.
use file_space.Base.{
  ℕ, ◌≤◌, String, true, Option, none, some, ◌∷◌, ◌≡◌, arith, inl, inr, ◌==◌, nat_eq, Bool-cases,
}
use file_space.Base.Effect.{ok, for_each, of_result}
use file_space.Base.Effect.Logic.{
  Grows, Grows-chain, Grows-mono, here, next, bind_result-eq-ok, ok-gives,
}
use file_space.Client.Env.{Response, is_ok, Call, History, Env}
use file_space.Client.Request.{access_token_key, truthy, request_of, get_access_token, try_refresh}
use file_space.Client.Upload.{
  chunk_path, chunk_options, report, send_chunk, send_with, resend, after_sent, check_sent,
  upload_chunk,
}
use file_space.Client.Upload.Session.{report_calls, send_calls, refresh_calls}
use file_space.Sync.Env.{Bytes}

-- Calls made after `h`.
abbrev pub Extends : History → History → Type 0
Extends = Grows (λ h c. Unit {0})

module _ (env : Env) (upload_id : String) (index : ℕ) (b : Bytes) where
  -- Between `h` and `g` the chunk was sent under its index, and `res` was the reply.
  pub record IsSent (h : History) (res : Response) (g : History) : Type 0 where
    pub token : Option String
    pub sent_at : History
    pub begun : Extends h sent_at
    pub replied :
        env.send sent_at (request_of env (chunk_path upload_id index) (chunk_options b) token)
        ≡ ok res
    pub behind :
        Extends
          (Call.send (request_of env (chunk_path upload_id index) (chunk_options b) token)
            ∷ sent_at)
          g

  IsSent-later :
      (h g g' : History) (res : Response) → IsSent h res g → Extends g g' → IsSent h res g'
  IsSent-later h g g' res s e = record {
    token = s.token;
    sent_at = s.sent_at;
    begun = s.begun;
    replied = s.replied;
    behind = Grows-chain _ _ g g' s.behind e;
  }

  IsSent-earlier :
      (h h' g : History) (res : Response) → Extends h h' → IsSent h' res g → IsSent h res g
  IsSent-earlier h h' g res e s = record {
    token = s.token;
    sent_at = s.sent_at;
    begun = Grows-chain _ h h' s.sent_at e s.begun;
    replied = s.replied;
    behind = s.behind;
  }

  module _ (total before : ℕ) where
    send_with-IsSent :
        (t : Option String) (h : History) (res : Response)
        → (send_with env upload_id index b total before t h).0 ≡ ok res
        → IsSent h res (send_with env upload_id index b total before t h).1
    unfolding send_chunk
    send_with-IsSent t h res e =
        let r = request_of env (chunk_path upload_id index) (chunk_options b) t in
        let events = env.progress_events h r in
        let (u, told, e') =
          bind_result-eq-ok (for_each events (report env total before) tt (Call.send r ∷ h)).0
            (λ v. of_result (env.send h r)) _ e in
        record {
          token = t;
          sent_at = h;
          begun = here;
          replied = e';
          behind = rw told (
              Grows-mono (λ h c p. tt)
                ((report_calls env upload_id index b total before events).leads (Call.send r ∷ h)));
        }

    resend-IsSent :
        (h g : History) (res res' : Response) (t : Option String)
        → IsSent h res g
        → Extends h g
        → (resend env upload_id index b total before res t g).0 ≡ ok res'
        → IsSent h res' (resend env upload_id index b total before res t g).1
    resend-IsSent h g res res' none s x e = ok-gives (λ r. IsSent h r g) s e
    resend-IsSent h g res res' (some t) s x e =
        IsSent-earlier h g _ res' x (send_with-IsSent (some t) g res' e)

    after_sent-IsSent :
        (h g : History) (res res' : Response) (t : Option String)
        → IsSent h res g
        → Extends h g
        → (after_sent env upload_id index b total before res t g).0 ≡ ok res'
        → IsSent h res' (after_sent env upload_id index b total before res t g).1
    after_sent-IsSent h g res res' none s x e = ok-gives (λ r. IsSent h r g) s e
    after_sent-IsSent h g res res' (some t) s x e = elim (Bool-cases (res.status == 401)) [
      | inr other ↦ rw other (ok-gives (λ r. IsSent h r g) s (rw other at e))
      | inl refused ↦
          let later : Extends g (try_refresh env g).1 =
            Grows-mono (λ h c p. tt) ((refresh_calls env upload_id index b total before).leads g) in
          let (t', got, e') =
            bind_result-eq-ok (try_refresh env g).0
              (λ t'. resend env upload_id index b total before res (truthy t')) _
              (rw refused at e) in
          rw (refused, got)
            (resend-IsSent h (try_refresh env g).1 res res' (truthy t')
              (IsSent-later h g _ res s later) (Grows-chain _ h g _ x later) e')
    ]

    check_sent-good :
        (res : Response) (g : History) (u : Unit {0})
        → (check_sent env upload_id index b total before res g).0 ≡ ok u
        → is_ok res ≡ true
    check_sent-good res g u e = elim (Bool-cases (is_ok res)) [
      | inl good ↦ good
      | inr bad ↦ absurd (let failed = rw bad at e in cc)
    ]

    -- A chunk that was uploaded without an exception was sent, and the reply was no error.
    pub upload_chunk-IsSent :
        (h : History) (u : Unit {0})
        → (upload_chunk env upload_id index b total before h).0 ≡ ok u
        → (res : Response) × (200 ≤ res.status)
          × (res.status ≤ 299)
          × IsSent h res (upload_chunk env upload_id index b total before h).1
    unfolding upload_chunk get_access_token
    upload_chunk-IsSent h u e =
        let token = env.get_item h access_token_key in
        let g : History = Call.get_item access_token_key ∷ h in
        let (res, sent, e1) =
          bind_result-eq-ok (send_with env upload_id index b total before token g).0 _ _ e in
        let g1 : History = (send_with env upload_id index b total before token g).1 in
        let first : IsSent h res g1 =
          IsSent-earlier h g g1 res (next here tt) (send_with-IsSent token g res sent) in
        let (res', kept, e2) =
          bind_result-eq-ok (after_sent env upload_id index b total before res (truthy token) g1).0
            _ _ e1 in
        let g2 : History =
          (after_sent env upload_id index b total before res (truthy token) g1).1 in
        let last : IsSent h res' g2 =
          after_sent-IsSent h g1 res res' (truthy token) first
            (Grows-chain _ h g g1 (next here tt) (
              Grows-mono (λ h c p. tt)
                ((send_calls env upload_id index b total before token).leads g)))
            kept in
        let good : is_ok res' ≡ true = check_sent-good res' g2 u e2 in
        (res', ground (arith, good), ground (arith, good), rw (sent, kept, good) last)
