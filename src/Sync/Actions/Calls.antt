-- ===== src/Sync/Actions/Calls.antt =====
-- The calls of the first loop, and that its rounds are steps of `Acted`.
use mathlib.Core.List.{Memᴰ}
use file_space.Api.Types.{
  ApiFileRecord, SyncActionKind, download, delete_local, conflict, SyncConflictDetails, SyncAction,
}
use file_space.Base.{ℕ, String, Option, none, some, List, ◌∷◌, ◌≡◌, refl, inl, inr}
use file_space.Base.Dict
use file_space.Base.Dict.{has, has-lookup}
use file_space.Base.Effect.{ok, for_each}
use file_space.Base.Effect.Logic.{
  Grows, here, next, Does-mono, for_each-Does, pure-Does, bind_result-eq-ok, ok-gives,
}
use file_space.Sync.Actions.{
  write_file, read_file, entry_from_file, apply_download, apply_delete_local, apply_conflict,
  apply_action, dispatch, downloaded,
}
use file_space.Sync.Actions.Files.{
  write_file-Grows, read_file-Grows, entry_from_file-Grows, entry_from_file-IsEntryOf,
}
use file_space.Sync.Actions.Steps.{
  IsAsked, Acted, unlisted, untold, fetched, dropped, disputed, ActsInOrder, finished, after,
}
use file_space.Sync.Env.{Call, History, Env}
use file_space.Sync.Env.Trace.{Makes, calls, bind_result-Grows}
use file_space.Sync.Progress.{Progress, Locals, Remotes, known_id}
use file_space.Sync.Scanner.{LocalFileEntry}
use file_space.Sync.Storage.{SyncedFileEntry}

-- The listed remote file of a name has the id.
abbrev pub IsListed : Remotes → String → ℕ → Type 0
IsListed remotes name id = (r : ApiFileRecord) × (Dict.lookup name remotes ≡ some r) × (r.id ≡ id)

module _ (env : Env) (remotes : Remotes) (actions : List SyncAction) where
  -- The calls that the loop may make, given the calls made before. Names are opened for a download
  -- that was asked for, what is written there is the content just downloaded by the id listed for
  -- the name, and only names that are to be deleted locally are removed from the folder. No call
  -- uploads or deletes a remote file.
  abbrev pub IsActionCall : History → Call → Type 0
  IsActionCall h (Call.download_file id) =
      (name : String) × IsAsked actions download name × IsListed remotes name id
  IsActionCall h (Call.get_file_handle name create) = IsAsked actions download name
  IsActionCall h (Call.create_writable name) = IsAsked actions download name
  IsActionCall (Call.create_writable n ∷ Call.get_file_handle m create ∷ Call.download_file id ∷ h)
        (Call.write name content) =
      IsAsked actions download name
      × IsListed remotes name id
      × (env.download_file h id ≡ ok content)
  IsActionCall h (Call.close name) = IsAsked actions download name
  IsActionCall h (Call.get_file name) = IsAsked actions download name
  IsActionCall h (Call.array_buffer f) = Unit
  IsActionCall h (Call.remove_entry name) = IsAsked actions delete_local name
  IsActionCall h c = ⊥

  module _ (locals : Locals) where
    apply_download_leads :
        (name : String) (r : ApiFileRecord) (p : Progress) (h : History)
        → IsAsked actions download name
        → Dict.lookup name remotes ≡ some r
        → Grows IsActionCall h (apply_download env name (some r) p h).1
    unfolding apply_download
    apply_download_leads name r p h asked listed =
        bind_result-Grows IsActionCall (env.download_file h r.id) _
          (next here (name, asked, (r, listed, refl)))
          λ blob got.
            bind_result-Grows IsActionCall (write_file env name blob _).0 _
              (write_file-Grows IsActionCall env name blob _ asked asked
                (asked, (r, listed, refl), got) asked)
              λ u e.
                bind_result-Grows IsActionCall (read_file env name _).0 _
                  (read_file-Grows IsActionCall env name _ asked asked)
                  λ written e.
                    bind_result-Grows IsActionCall (entry_from_file env written r.id _).0 _
                      (entry_from_file-Grows IsActionCall env written r.id _ tt) λ entry e. here

    apply_download_gives :
        (name : String) (r : ApiFileRecord) (p : Progress) (h : History) (q : Progress)
        → (apply_download env name (some r) p h).0 ≡ ok q
        → (e : SyncedFileEntry) × (e.remote_id ≡ r.id) × (q ≡ downloaded name e p)
    unfolding apply_download
    apply_download_gives name r p h q e =
        let (blob, got, e1) = bind_result-eq-ok (env.download_file h r.id) _ _ e in
        let (u, wrote, e2) = bind_result-eq-ok (write_file env name blob _).0 _ _ e1 in
        let (written, found, e3) = bind_result-eq-ok (read_file env name _).0 _ _ e2 in
        let (entry, hashed, e4) = bind_result-eq-ok (entry_from_file env written r.id _).0 _ _ e3 in
        (entry, (entry_from_file-IsEntryOf env written r.id _ hashed).remote_id, cc)

    module _ (a : SyncAction) (p : Progress) (m : Memᴰ a actions) where
      abbrev Step : Progress → Type 0
      Step = Acted locals remotes a p

      download-Makes :
          (r : Option ApiFileRecord)
          → a.action ≡ download
          → Dict.lookup a.name remotes ≡ r
          → Makes IsActionCall Step (apply_download env a.name r p)
      unfolding apply_download
      download-Makes none k l = pure-Does (calls IsActionCall) p (unlisted k l)
      download-Makes (some r) k l = record {
        leads = λ h. apply_download_leads a.name r p h (a, m, k, refl) l;
        gives = λ h q e.
            let (entry, i, same) = apply_download_gives a.name r p h q e in
            rw same (fetched r entry k l i);
      }

      delete_local-Makes :
          a.action ≡ delete_local → Makes IsActionCall Step (apply_delete_local env a.name p)
      unfolding apply_delete_local
      delete_local-Makes k = record {
        leads = λ h. next here (a, m, k, refl);
        gives = λ h q e. ok-gives Step (dropped k) e;
      }

      conflict-Step :
          (details : Option SyncConflictDetails) (local : Option LocalFileEntry)
          (remote : Option ApiFileRecord) (entry : Option SyncedFileEntry)
          → a.action ≡ conflict
          → a.conflict ≡ details
          → Dict.lookup a.name locals ≡ local
          → Dict.lookup a.name remotes ≡ remote
          → Dict.lookup a.name p.entries ≡ entry
          → Step (apply_conflict a.name details local (known_id remote entry) p)
      unfolding apply_conflict
      conflict-Step none local remote entry k x l r e = untold k (inl x)
      conflict-Step (some d) none remote entry k x l r e = untold k (inr (inl l))
      conflict-Step (some d) (some local) none none k x l r e = untold k (inr (inr (r, e)))
      conflict-Step (some d) (some local) (some f) entry k x l r e =
          disputed d local f.id k x l (inl (f, r, refl))
      conflict-Step (some d) (some local) none (some known) k x l r e =
          disputed d local known.remote_id k x l (inr (known, r, e, refl))

      dispatch-Makes :
          (kind : SyncActionKind)
          → a.action ≡ kind
          → Makes IsActionCall Step (dispatch env locals remotes kind a p)
      dispatch-Makes download k = download-Makes (Dict.lookup a.name remotes) k refl
      dispatch-Makes delete_local k = delete_local-Makes k
      dispatch-Makes conflict k =
          pure-Does (calls IsActionCall) _ (conflict-Step a.conflict _ _ _ k refl refl refl refl)

    abbrev Run : List SyncAction → Progress → Progress → Type 0
    Run rest p q =
        ((a : SyncAction) → Memᴰ a rest → Memᴰ a actions)
        × ((r : Progress)
            → ActsInOrder locals remotes rest q r
            → ActsInOrder locals remotes actions p r)

    apply_action-Makes :
        (p : Progress) (a : SyncAction) (rest : List SyncAction) (q : Progress)
        → Run (a ∷ rest) p q
        → Makes IsActionCall (Run rest p) (apply_action env locals remotes a q)
    unfolding apply_action
    apply_action-Makes p a rest q (sub, s) =
        let m : Memᴰ a actions = sub a (Memᴰ.head refl) in
        Does-mono (dispatch-Makes a q m a.action refl)
          (λ r t. (λ x n. sub x (Memᴰ.tail n), λ z later. s z (after a rest t later)))

    pub apply_all-Makes :
        (p : Progress)
        → Makes IsActionCall
            (ActsInOrder locals remotes actions p)
            (for_each actions (apply_action env locals remotes) p)
    apply_all-Makes p =
        Does-mono
          (for_each-Does (calls IsActionCall) (λ rest q. Run rest p q)
            (apply_action env locals remotes) (apply_action-Makes p) actions p
            ((λ a m. m), λ r s. s))
          (λ q run. run.1 q finished)
