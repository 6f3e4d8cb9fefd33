-- ===== src/Sync/Scanner/Laws.antt =====
-- What a scan calls and what it finds, frontend/src/sync/folderScanner.ts.
use file_space.Base.{
  String, ap, Bool, true, false, not, nat_eq, ℕ, ◌&&◌, ◌||◌, Option, none, some, List, [], ◌∷◌, ◌≡◌,
  ◌↔◌, refl, sym, ◌∙◌, inl, inr, arith, ◌==◌, string_eq, add, contains, contains-add, Bool-cases,
  or_false,
}
use Prim.Native.Char.{Char, code}
use text.Mathlib.Text.{starts_with}
use text.Mathlib.TextPositions.{starts_with_of_prefix}
use text.Mathlib.TextEquality.{starts_with_iff, Char-path}
use file_space.Base.Dict
use file_space.Base.Dict.{DistinctKeys, has, has-insert, insert-DistinctKeys, has-nil}
use file_space.Base.Effect.{Exception, Result-cases, ok, pure, for_each, ◌>>=◌}
use file_space.Base.Effect.Logic.{
  Grows, Grows-chain, here, next, Does-mono, pure-Does, throw-Does, bind-Does, try_catch-Does,
  for_each-Does, for_each_total, bind_result-eq-ok,
}
use file_space.Sync.CopyName.Laws.{dot_append}
use file_space.Sync.Env.{Handle, HandleKind, file, directory, Call, History, Env}
use file_space.Sync.Env.Trace.{Makes, calls, bind_result-Grows}
use file_space.Sync.Hash.{sha256_hex}
use file_space.Sync.Scanner.{
  LocalFileEntry, ScanResult, is_skipped, read_entry, scan_handle, end_of_listing, no_files,
  scan_listing, scan,
}

-- A scan lists the folder and reads files.
abbrev pub IsScanCall : History → Call → Type 0
IsScanCall h Call.values = Unit
IsScanCall h (Call.get_file name) = Unit
IsScanCall h (Call.array_buffer f) = Unit
IsScanCall h c = ⊥

-- The handle is that of a file.
abbrev is_regular : HandleKind → Bool
is_regular file = true
is_regular directory = false

-- The first character of the text is a full stop, the character 46.
abbrev begins_with_stop : String → Bool
begins_with_stop String.[] = false
begins_with_stop (String.◌∷◌ c s) = code c == 46

abbrev head_code : String → ℕ
head_code String.[] = 0
head_code (String.◌∷◌ c s) = code c

stop_prefix : (c : Char) (s : String) → (starts_with (String.◌∷◌ c s) "." ≡ true) ↔ (code c ≡ 46)
stop_prefix c s = (
  λ h.
      let (s', e) = (starts_with_iff (String.◌∷◌ c s) ".").0 h in
      ap head_code (sym e ∙ dot_append s'),
  λ h.
      starts_with_of_prefix "." (String.◌∷◌ c s)
        (s, dot_append s ∙ ap (λ d. String.◌∷◌ d s) (Char-path "." c (sym h))),
)

starts_stop : (s : String) → starts_with s "." ≡ begins_with_stop s
starts_stop String.[] = refl
starts_stop (String.◌∷◌ c s) = ground (arith, (stop_prefix c s).0, (stop_prefix c s).1)

-- A file whose name does not begin with a full stop.
abbrev pub is_visible_file : Handle → Bool
is_visible_file handle = is_regular handle.kind && not (begins_with_stop handle.name)

is_skipped-is_visible_file : (handle : Handle) → is_visible_file handle ≡ not (is_skipped handle)
unfolding is_skipped
is_skipped-is_visible_file handle = go handle.kind refl
  where
    go : (k : HandleKind) → handle.kind ≡ k → is_visible_file handle ≡ not (is_skipped handle)
    go file e = rw (e, starts_stop handle.name) refl
    go directory e = rw e refl

-- The listing has a visible file of this name.
abbrev pub lists : List Handle → String → Bool
lists [] n = false
lists (handle ∷ handles) n = (is_visible_file handle && n == handle.name) || lists handles n

-- A name that the result knows of.
abbrev pub is_found : ScanResult → String → Bool
is_found r n = has n r.entries || contains r.unreadable_names n

module _ (env : Env) where
  read_entry-Makes :
      (name : String)
      → Makes IsScanCall (λ (e : LocalFileEntry). e.handle ≡ name) (read_entry env name)
  unfolding read_entry
  read_entry-Makes name = record {
    leads = λ h. bind_result-Grows IsScanCall (env.get_file h name) _ (next here tt) λ f e.
        bind_result-Grows IsScanCall (env.array_buffer _ f) _ (next here tt)
          λ buffer e. bind_result-Grows IsScanCall (sha256_hex env buffer) _ here λ sha e. here;
    gives = λ h e eq.
        let (f, a, e1) = bind_result-eq-ok (env.get_file h name) _ _ eq in
        let (buffer, b, e2) = bind_result-eq-ok (env.array_buffer _ f) _ _ e1 in
        let (sha, c, e3) = bind_result-eq-ok (sha256_hex env buffer) _ _ e2 in cc;
  }

  -- The result of a round.
  record IsScanned (handle : Handle) (r q : ScanResult) : Type 0 where
    found :
        (n : String)
        → is_found q n ≡ (is_found r n || (not (is_skipped handle) && n == handle.name))
    distinct : DistinctKeys r.entries → DistinctKeys q.entries

  abbrev stored : Handle → ScanResult → LocalFileEntry → ScanResult
  stored handle r entry = record r { entries = Dict.insert handle.name entry r.entries }

  abbrev reported : Handle → ScanResult → ScanResult
  reported handle r = record r { unreadable_names = add r.unreadable_names handle.name }

  stored-IsScanned :
      (handle : Handle) (r : ScanResult) (entry : LocalFileEntry)
      → is_skipped handle ≡ false
      → IsScanned handle r (stored handle r entry)
  stored-IsScanned handle r entry k = record {
    found = λ n. ground (arith, has-insert n handle.name entry r.entries);
    distinct = insert-DistinctKeys handle.name entry r.entries;
  }

  reported-IsScanned :
      (handle : Handle) (r : ScanResult)
      → is_skipped handle ≡ false
      → IsScanned handle r (reported handle r)
  reported-IsScanned handle r k = record {
    found = λ n. ground (arith, contains-add r.unreadable_names handle.name n);
    distinct = λ d. d;
  }

  scan_handle-Makes :
      (handle : Handle) (r : ScanResult)
      → Makes IsScanCall (IsScanned handle r) (scan_handle env handle r)
  unfolding scan_handle
  scan_handle-Makes handle r = elim (Bool-cases (is_skipped handle)) [
    | inl skipped ↦
        rw skipped
          (pure-Does (calls IsScanCall) r (record { found = λ n. ground arith; distinct = λ d. d }))
    | inr kept ↦ rw kept (
        try_catch-Does (calls IsScanCall)
          (read_entry env handle.name >>= (λ entry. pure (stored handle r entry)))
          (λ e. pure (reported handle r))
          (bind-Does (calls IsScanCall) (read_entry env handle.name)
            (λ entry. pure (stored handle r entry)) (read_entry-Makes handle.name)
            (λ entry e. pure-Does (calls IsScanCall) _ (stored-IsScanned handle r entry kept)))
          (λ e. pure-Does (calls IsScanCall) _ (reported-IsScanned handle r kept)))
  ]

  -- The loop invariant, for the handles that are still to come.
  record Seen (all rest : List Handle) (r : ScanResult) : Type 0 where
    found : (n : String) → (is_found r n || lists rest n) ≡ lists all n
    distinct : DistinctKeys r.entries

  Seen-next :
      (all : List Handle) (handle : Handle) (rest : List Handle) (r q : ScanResult)
      → Seen all (handle ∷ rest) r
      → IsScanned handle r q
      → Seen all rest q
  Seen-next all handle rest r q s i = record {
    found = λ n. ground (arith, s.found n, i.found n, is_skipped-is_visible_file handle);
    distinct = i.distinct s.distinct;
  }

  -- What a scan of the listing returns: it has found exactly the files listed.
  pub record IsScan (handles : List Handle) (r : ScanResult) : Type 0 where
    pub found : (n : String) → is_found r n ≡ lists handles n
    pub distinct : DistinctKeys r.entries

  loop-Makes :
      (handles : List Handle)
      → Makes IsScanCall (IsScan handles) (for_each handles (scan_handle env) no_files)
  unfolding Dict.keys
  loop-Makes handles =
      Does-mono
        (for_each-Does (calls IsScanCall) (Seen handles) (scan_handle env)
          (λ handle rest r s.
            Does-mono (scan_handle-Makes handle r) (λ q i. Seen-next handles handle rest r q s i))
          handles no_files (record { found = λ n. rw (has-nil LocalFileEntry n); distinct = tt }))
        (λ r s. record {
          found = λ n. sym (or_false (is_found r n)) ∙ s.found n;
          distinct = s.distinct;
        })

  listing-Makes :
      (handles : List Handle) (failure : Option Exception)
      → Makes IsScanCall (IsScan handles) (scan_listing env (handles, failure))
  listing-Makes handles failure =
      bind-Does (calls IsScanCall) (for_each handles (scan_handle env) no_files)
        (end_of_listing failure) (loop-Makes handles) (λ r i. ending failure r i)
    where
      ending :
          (failure : Option Exception) (r : ScanResult)
          → IsScan handles r
          → Makes IsScanCall (IsScan handles) (end_of_listing failure r)
      ending none r i = pure-Does (calls IsScanCall) r i
      ending (some e) r i = throw-Does (calls IsScanCall) e

  pub scan_calls : (h : History) → Grows IsScanCall h (scan env h).1
  unfolding scan
  scan_calls h =
      Grows-chain IsScanCall h (Call.values ∷ h) _ (next here tt)
        ((listing-Makes (env.values h).0 (env.values h).1).leads (Call.values ∷ h))

  scan_handle_total :
      (handle : Handle) (r : ScanResult) (h : History)
      → (q : ScanResult) × ((scan_handle env handle r h).0 ≡ ok q)
  unfolding scan_handle
  scan_handle_total handle r h = elim (Bool-cases (is_skipped handle)) [
    | inl skipped ↦ (r, rw skipped refl)
    | inr kept ↦ elim (Result-cases (read_entry env handle.name h).0) [
      | inl (entry, e) ↦
          (record r { entries = Dict.insert handle.name entry r.entries }, rw (kept, e) refl)
      | inr (x, e) ↦
          (record r { unreadable_names = add r.unreadable_names handle.name }, rw (kept, e) refl)
    ]
  ]

  pub scan-IsScan :
      (h : History) (r : ScanResult) → (scan env h).0 ≡ ok r → IsScan (env.values h).0 r
  unfolding scan
  scan-IsScan h r e = (listing-Makes (env.values h).0 (env.values h).1).gives (Call.values ∷ h) r e

  -- A scan of a folder whose listing ends without an exception returns: files that cannot be read
  -- do not end it. It has then read, or reported as unreadable, exactly the names of the files that
  -- the folder lists and whose first character is no full stop (46), and it has one entry for a name.
  pub scan_total :
      (h : History)
      → (env.values h).1 ≡ none
      → (r : ScanResult) × ((scan env h).0 ≡ ok r) × IsScan (env.values h).0 r
  unfolding scan
  scan_total h ends =
      let (r, e) =
        for_each_total (scan_handle env) scan_handle_total (env.values h).0 no_files
          (Call.values ∷ h) in
      let ran : (scan env h).0 ≡ ok r = scanned_to r e in (r, ran, scan-IsScan h r ran)
    where
      scanned_to :
          (r : ScanResult)
          → (for_each (env.values h).0 (scan_handle env) no_files (Call.values ∷ h)).0 ≡ ok r
          → (scan env h).0 ≡ ok r
      scanned_to r e = rw (e, ends) refl
