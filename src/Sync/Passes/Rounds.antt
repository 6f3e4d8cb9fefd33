-- ===== src/Sync/Passes/Rounds.antt =====
-- One round of the second loop: the calls that it makes and the progress that it returns.
use file_space.Base.{
  ℕ, String, ◌<>◌, Option, none, some, ◌∷◌, Bool, true, false, ◌||◌, ◌≡◌, refl, ◌⊎◌, inl, inr,
  arith, ◌==◌, string_eq, nat_eq, contains, Bool-cases, sym, ◌∙◌, ◌↔◌,
}
use mathlib.Core.Bool.{false≢true}
use file_space.Base.Dict
use file_space.Base.Dict.{DistinctKeys, insert-DistinctKeys, lookup-insert, has}
use file_space.Base.Effect.{ok}
use file_space.Base.Effect.Logic.{
  Grows-mono, here, next, pure-Does, bind-Does, Does-mono, bind_result-eq-ok,
}
use file_space.Sync.Env.{Call, History, Env}
use file_space.Sync.Env.Trace.{Makes, calls, bind_result-Grows}
use file_space.Sync.Passes.{
  is_unchanged, delete_remote, upload_local, reupload, upload_known, upload_one,
}
use file_space.Sync.Progress.{Progress, Remotes, say, set_entry, synced_entry}
use file_space.Sync.Scanner.{LocalFileEntry}
use file_space.Sync.Storage.{SyncedFileEntry}

-- The entry has the size and the hash of the file.
abbrev pub IsSame : SyncedFileEntry → LocalFileEntry → Type 0
IsSame known local = (known.size ≡ local.size) × (known.sha256 ≡ local.sha256)

pub is_unchanged-IsSame :
    (known : SyncedFileEntry) (local : LocalFileEntry)
    → (is_unchanged known local ≡ true) ↔ IsSame known local
is_unchanged-IsSame known local =
    (λ h. (ground (arith, h), ground (arith, h)), λ (a, b). ground (arith, a, b))

pub is_changed-IsSame :
    (known : SyncedFileEntry) (local : LocalFileEntry)
    → is_unchanged known local ≡ false
    → ¬ IsSame known local
is_changed-IsSame known local h s =
    absurd (false≢true (sym h ∙ (is_unchanged-IsSame known local).1 s))

-- A name that the second loop leaves alone.
abbrev pub is_blocked : Progress → String → Bool
is_blocked p name = contains p.conflicted_names name || contains p.deleted_by_server_names name

module _ (before : Option SyncedFileEntry) (local : LocalFileEntry) where
  -- The calls that the loop may make for a local file whose entry is `before`, given the calls made
  -- earlier: the file is read; it is uploaded with the content that was read just before; and the
  -- remote file of the entry is deleted if the entry tells of another size or hash.
  abbrev pub IsUploadCall : Env → History → Call → Type 0
  IsUploadCall env h (Call.get_file handle) = handle ≡ local.handle
  IsUploadCall env (Call.get_file handle ∷ h) (Call.upload_file_in_chunks f) =
      (handle ≡ local.handle) × (env.get_file h handle ≡ ok f)
  IsUploadCall env h (Call.delete_file id) =
      (known : SyncedFileEntry) × (before ≡ some known)
      × (known.remote_id ≡ id)
      × ¬ IsSame known local
  IsUploadCall env h c = ⊥

  -- The entry left for the file agrees with the scan, unless the name is unknown here and taken on
  -- the server.
  abbrev pub IsSettled : Bool → Option SyncedFileEntry → Type 0
  IsSettled listed entry =
      ((e : SyncedFileEntry) × (entry ≡ some e) × IsSame e local)
      ⊎ ((before ≡ none) × (entry ≡ none) × (listed ≡ true))

-- The progress `q` of a round from `p`: only the name's entry and the log change.
pub record IsUploaded (remotes : Remotes) (p : Progress) (name : String) (local : LocalFileEntry)
    (q : Progress) : Type 0 where
  pub others :
      (n : String) → (n == name) ≡ false → Dict.lookup n q.entries ≡ Dict.lookup n p.entries
  pub settled :
      is_blocked p name ≡ false
      → IsSettled (Dict.lookup name p.entries) local (has name remotes) (Dict.lookup name q.entries)
  pub blocked : is_blocked p name ≡ true → Dict.lookup name q.entries ≡ Dict.lookup name p.entries
  pub conflicts : q.conflicts ≡ p.conflicts
  pub conflicted_names : q.conflicted_names ≡ p.conflicted_names
  pub deleted_by_server_names : q.deleted_by_server_names ≡ p.deleted_by_server_names
  pub downloaded_names : q.downloaded_names ≡ p.downloaded_names
  pub distinct : DistinctKeys p.entries → DistinctKeys q.entries

module _ (env : Env) (p : Progress) (name : String) (local : LocalFileEntry) where
  abbrev IsCall : History → Call → Type 0
  IsCall = IsUploadCall (Dict.lookup name p.entries) local env

  -- What the shared lines return.
  abbrev IsSent : String → Progress → Type 0
  IsSent line q = (id : ℕ) × (q ≡ say line (set_entry name (synced_entry id local) p))

  upload_local-Makes :
      (line : String) → Makes IsCall (IsSent line) (upload_local env name local line p)
  unfolding upload_local
  upload_local-Makes line = record {
    leads = λ h. bind_result-Grows IsCall (env.get_file h local.handle) _ (next here refl) λ f read.
        bind_result-Grows IsCall (env.upload_file_in_chunks _ f) _ (next here (refl, read))
          λ created sent. here;
    gives = λ h q e.
        let (f, read, e') = bind_result-eq-ok (env.get_file h local.handle) _ _ e in
        let (created, sent, e'') = bind_result-eq-ok (env.upload_file_in_chunks _ f) _ _ e' in
        (created.id, cc);
  }

  IsSent-IsUploaded :
      (remotes : Remotes) (line : String) (q : Progress)
      → is_blocked p name ≡ false
      → IsSent line q
      → IsUploaded remotes p name local q
  IsSent-IsUploaded remotes line q free (id, e) = record {
    others = λ n h. ground (arith, lookup-insert n name (synced_entry id local) p.entries);
    settled = λ h. inl (
      synced_entry id local,
      ground (arith, lookup-insert name name (synced_entry id local) p.entries),
      (refl, refl),
    );
    blocked = λ h. absurd (cc);
    conflicts = ground arith;
    conflicted_names = ground arith;
    deleted_by_server_names = ground arith;
    downloaded_names = ground arith;
    distinct = λ d. rw e (insert-DistinctKeys name (synced_entry id local) p.entries d);
  }

  -- A round that returns `p` itself.
  same-IsUploaded :
      (remotes : Remotes)
      → (is_blocked p name ≡ false
          → IsSettled
              (Dict.lookup name p.entries)
              local
              (has name remotes)
              (Dict.lookup name p.entries))
      → IsUploaded remotes p name local p
  same-IsUploaded remotes h = record {
    others = λ n e. refl;
    settled = h;
    blocked = λ e. refl;
    conflicts = refl;
    conflicted_names = refl;
    deleted_by_server_names = refl;
    downloaded_names = refl;
    distinct = λ d. d;
  }

  module _ (remotes : Remotes) (free : is_blocked p name ≡ false) where
    reupload-Makes :
        (known : SyncedFileEntry)
        → Dict.lookup name p.entries ≡ some known
        → is_unchanged known local ≡ false
        → Makes IsCall (IsUploaded remotes p name local) (reupload env known name local p)
    reupload-Makes known e differs =
        let line : String = "Re-uploaded changed file " <> name in
        bind-Does (calls IsCall) (delete_remote env known.remote_id)
          (λ u. upload_local env name local line p)
          (record {
            leads = λ h. next here (known, e, refl, is_changed-IsSame known local differs);
            gives = λ h u k. tt;
          })
          (λ u (k : Unit {0}).
            Does-mono (upload_local-Makes line) (λ q. IsSent-IsUploaded remotes line q free))

    upload_known-Makes :
        (entry : Option SyncedFileEntry)
        → Dict.lookup name p.entries ≡ entry
        → Makes IsCall
            (IsUploaded remotes p name local)
            (upload_known env remotes entry name local p)
    upload_known-Makes (some known) e = elim (Bool-cases (is_unchanged known local)) [
      | inl same ↦ rw same (
          pure-Does (calls IsCall) p (
            same-IsUploaded remotes
              (λ h. inl (known, e, (is_unchanged-IsSame known local).0 same))))
      | inr differs ↦ rw differs (reupload-Makes known e differs)
    ]
    upload_known-Makes none e = elim (Bool-cases (has name remotes)) [
      | inl listed ↦
          rw listed (pure-Does (calls IsCall) p (same-IsUploaded remotes (λ h. inr (e, e, listed))))
      | inr absent ↦ rw absent (
          Does-mono (upload_local-Makes ("Uploaded new file " <> name))
            (λ q. IsSent-IsUploaded remotes _ q free))
    ]

  pub upload_one-Makes :
      (remotes : Remotes)
      → Makes
          (λ h c. (is_blocked p name ≡ false) × IsCall h c)
          (IsUploaded remotes p name local)
          (upload_one env remotes (name, local) p)
  unfolding upload_one
  upload_one-Makes remotes = elim (Bool-cases (is_blocked p name)) [
    | inl blocked ↦
        rw blocked (pure-Does (calls _) p (same-IsUploaded remotes (λ free. absurd (cc))))
    | inr free ↦
        let round : Makes IsCall (IsUploaded remotes p name local)
            (upload_known env remotes (Dict.lookup name p.entries) name local p) =
          upload_known-Makes remotes free (Dict.lookup name p.entries) refl in
        rw free (record {
          leads = λ h. Grows-mono (λ h c u. (refl, u)) (round.leads h);
          gives = round.gives;
        })
  ]
