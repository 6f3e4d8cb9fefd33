-- ===== src/Sync/Passes/Uploads.antt =====
-- The second loop as a whole: the calls that it makes, and the bookkeeping that it leaves.
use file_space.Base.{
  String, Option, none, some, Bool, true, false, ◌∷◌, ◌≡◌, refl, inl, inr, arith, ◌==◌, string_eq,
  Bool-cases, ==-cases, [], ◌∙◌, sym,
}
use mathlib.Core.Bool.{false≢true}
use file_space.Base.Dict
use file_space.Base.Dict.{
  Dict, DistinctKeys, lookup-cons, has, has-cons, has-cons_self, has-nil, DistinctKeys-cons,
  has-lookup, contains-keys, keys,
}
use file_space.Base.Effect.Logic.{Grows-mono, Does-mono, for_each-Does}
use file_space.Sync.Env.{Call, History, Env}
use file_space.Sync.Env.Trace.{Makes, calls}
use file_space.Sync.Passes.{upload_one, upload_all}
use file_space.Sync.Passes.Rounds.{
  is_blocked, IsUploadCall, IsSettled, IsUploaded, upload_one-Makes,
}
use file_space.Sync.Progress.{Progress, Locals, Remotes}
use file_space.Sync.Scanner.{LocalFileEntry}
use file_space.Sync.Storage.{SyncedFileEntry}

-- What the loop leaves of an entry: a name that is not in the folder, or that is in conflict or
-- deleted by the server, keeps what it had; any other is settled.
abbrev pub IsLeft :
    Option LocalFileEntry → Bool → Bool → Option SyncedFileEntry → Option SyncedFileEntry → Type 0
IsLeft none blocked listed before after = after ≡ before
IsLeft (some local) true listed before after = after ≡ before
IsLeft (some local) false listed before after = IsSettled before local listed after

module _ (env : Env) (remotes : Remotes) (locals : Locals) (p : Progress) where
  abbrev before : String → Option SyncedFileEntry
  before n = Dict.lookup n p.entries

  abbrev Left : String → Option SyncedFileEntry → Type 0
  Left n after = IsLeft (Dict.lookup n locals) (is_blocked p n) (has n remotes) (before n) after

  -- A call of the loop, for a local file that is neither in conflict nor deleted by the server.
  abbrev pub IsPassCall : History → Call → Type 0
  IsPassCall h c =
      (name : String) × (local : LocalFileEntry) × (Dict.lookup name locals ≡ some local)
      × (is_blocked p name ≡ false)
      × IsUploadCall (before name) local env h c

  -- The outcome of the loop.
  pub record IsPassed (q : Progress) : Type 0 where
    pub left : (n : String) → Left n (Dict.lookup n q.entries)
    pub conflicts : q.conflicts ≡ p.conflicts
    pub conflicted_names : q.conflicted_names ≡ p.conflicted_names
    pub deleted_by_server_names : q.deleted_by_server_names ≡ p.deleted_by_server_names
    pub downloaded_names : q.downloaded_names ≡ p.downloaded_names
    pub distinct : DistinctKeys p.entries → DistinctKeys q.entries

  -- The loop invariant, for the files that are still to come.
  record Between (rest : Locals) (q : Progress) : Type 0 where
    part : (n : String) → has n rest ≡ true → Dict.lookup n rest ≡ Dict.lookup n locals
    distinct : DistinctKeys rest
    ahead : (n : String) → has n rest ≡ true → Dict.lookup n q.entries ≡ before n
    behind : (n : String) → has n rest ≡ false → Left n (Dict.lookup n q.entries)
    conflicts : q.conflicts ≡ p.conflicts
    conflicted_names : q.conflicted_names ≡ p.conflicted_names
    deleted_by_server_names : q.deleted_by_server_names ≡ p.deleted_by_server_names
    downloaded_names : q.downloaded_names ≡ p.downloaded_names
    keys_distinct : DistinctKeys p.entries → DistinctKeys q.entries

  Left-absent : (n : String) → has n locals ≡ false → Left n (before n)
  Left-absent n h = rw ((has-lookup n locals).0 h) refl

  begin : DistinctKeys locals → Between locals p
  begin d = record {
    part = λ n h. refl;
    distinct = d;
    ahead = λ n h. refl;
    behind = Left-absent;
    conflicts = refl;
    conflicted_names = refl;
    deleted_by_server_names = refl;
    downloaded_names = refl;
    keys_distinct = λ d. d;
  }

  module _ (name : String) (local : LocalFileEntry) (rest : Locals) (b : Progress)
      (i : Between ((name, local) ∷ rest) b) where
    own : Dict.lookup name locals ≡ some local
    own =
        sym (i.part name (has-cons_self name local rest))
        ∙ ground (arith, lookup-cons name name local rest)

    same_entry : Dict.lookup name b.entries ≡ before name
    same_entry = i.ahead name (has-cons_self name local rest)

    same_blocked : (n : String) → is_blocked b n ≡ is_blocked p n
    same_blocked n = rw (i.conflicted_names, i.deleted_by_server_names)

    step_call :
        (h : History) (c : Call)
        → (is_blocked b name ≡ false) × IsUploadCall (Dict.lookup name b.entries) local env h c
        → IsPassCall h c
    step_call h c (free, u) =
        (name, local, own, sym (same_blocked name) ∙ free, rw (← same_entry) u)

    own-Left :
        (q : Progress) → IsUploaded remotes b name local q → Left name (Dict.lookup name q.entries)
    own-Left q u = rw own (elim (Bool-cases (is_blocked p name)) [
      | inl blocked ↦ rw blocked (u.blocked (same_blocked name ∙ blocked) ∙ same_entry)
      | inr free ↦ rw free (rw same_entry at (u.settled (same_blocked name ∙ free)))
    ])

    step-Left :
        (q : Progress)
        → IsUploaded remotes b name local q
        → (n : String) → has n rest ≡ false
        → Left n (Dict.lookup n q.entries)
    step-Left q u n h = elim (==-cases n name) [
      | inl e ↦ rw e (own-Left q u)
      | inr differs ↦
          rw (u.others n differs) (i.behind n (has-cons n name local rest ∙ rw (differs, h)))
    ]

    -- A name that is still to come is another name.
    other : (n : String) → has n rest ≡ true → (n == name) ≡ false
    other n h =
        let (fresh, d) = DistinctKeys-cons name local rest i.distinct in
        elim (==-cases n name) [
          | inl e ↦ absurd (false≢true (sym fresh ∙ rw (← e) h))
          | inr differs ↦ differs
        ]

    still : (n : String) → has n rest ≡ true → has n ((name, local) ∷ rest) ≡ true
    still n h = has-cons n name local rest ∙ rw (h, other n h)

    step : (q : Progress) → IsUploaded remotes b name local q → Between rest q
    step q u = record {
      part = λ n h. sym (lookup-cons n name local rest ∙ rw (other n h)) ∙ i.part n (still n h);
      distinct = (DistinctKeys-cons name local rest i.distinct).1;
      ahead = λ n h. u.others n (other n h) ∙ i.ahead n (still n h);
      behind = step-Left q u;
      conflicts = u.conflicts ∙ i.conflicts;
      conflicted_names = u.conflicted_names ∙ i.conflicted_names;
      deleted_by_server_names = u.deleted_by_server_names ∙ i.deleted_by_server_names;
      downloaded_names = u.downloaded_names ∙ i.downloaded_names;
      keys_distinct = λ d. u.distinct (i.keys_distinct d);
    }

  Between-IsPassed : (q : Progress) → Between [] q → IsPassed q
  Between-IsPassed q i = record {
    left = λ n. i.behind n (has-nil LocalFileEntry n);
    conflicts = i.conflicts;
    conflicted_names = i.conflicted_names;
    deleted_by_server_names = i.deleted_by_server_names;
    downloaded_names = i.downloaded_names;
    distinct = i.keys_distinct;
  }

  round-Makes :
      (x : String × LocalFileEntry) (rest : Locals) (b : Progress)
      → Between (x ∷ rest) b
      → Makes IsPassCall (Between rest) (upload_one env remotes x b)
  round-Makes (name, local) rest b i =
      let round = upload_one-Makes env b name local remotes in
      record {
        leads = λ h. Grows-mono (step_call name local rest b i) (round.leads h);
        gives = λ h q e. step name local rest b i q (round.gives h q e);
      }

  -- The second loop, over a folder with one file for a name. Each of its calls, also in a run that
  -- throws, reads a local file that is neither in conflict nor deleted by the server, uploads the
  -- content read just before, or deletes the remote file of an entry that tells of another size or
  -- hash than the scan. If it returns, each such file has an entry with the size and hash of the
  -- scan, or it had none and its name is taken on the server; all other entries, the conflicts and
  -- the sets of names are unchanged.
  pub upload_all-Makes :
      DistinctKeys locals → Makes IsPassCall IsPassed (upload_all env remotes locals p)
  upload_all-Makes d =
      Does-mono
        (for_each-Does (calls IsPassCall) Between (upload_one env remotes) round-Makes locals p
          (begin d))
        Between-IsPassed
