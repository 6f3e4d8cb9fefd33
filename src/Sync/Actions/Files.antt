-- ===== src/Sync/Actions/Files.antt =====
-- The calls of `writeFile`, of a read, and of `entryFromFile`, and the entry that the last returns.
use file_space.Base.{ℕ, String, Bool, ◌∷◌, ◌≡◌}
use file_space.Base.Effect.{ok, bind_result}
use file_space.Base.Effect.Logic.{Grows, here, next, bind_result-eq-ok}
use file_space.Sync.Actions.{write_file, read_file, entry_from_file}
use file_space.Sync.Env.{Bytes, File, size, Call, History, Env, Sync}
use file_space.Sync.Env.Trace.{bind_result-Grows, chained-Grows}
use file_space.Sync.Hash.{sha256_hex}
use file_space.Sync.Storage.{SyncedFileEntry}

module _ {κ} (P : History → Call → Type κ) (env : Env) where
  module _ (name : String) (content : Bytes) (h : History) where
    abbrev opened : History
    opened = Call.get_file_handle name Bool.true ∷ h

    pub write_file-Grows :
        P h (Call.get_file_handle name Bool.true)
        → P opened (Call.create_writable name)
        → P (Call.create_writable name ∷ opened) (Call.write name content)
        → P (Call.write name content ∷ Call.create_writable name ∷ opened) (Call.close name)
        → Grows P h (write_file env name content h).1
    unfolding write_file
    write_file-Grows a b c d =
        bind_result-Grows P (env.get_file_handle h name Bool.true) _ (next here a) λ u e.
          bind_result-Grows P (env.create_writable opened name) _ (next here b) λ u e.
            bind_result-Grows P (env.write (Call.create_writable name ∷ opened) name content) _
              (next here c) λ u e. next here d

  pub read_file-Grows :
      (name : String) (h : History)
      → P h (Call.get_file_handle name Bool.false)
      → P (Call.get_file_handle name Bool.false ∷ h) (Call.get_file name)
      → Grows P h (read_file env name h).1
  unfolding read_file
  read_file-Grows name h a b =
      bind_result-Grows P (env.get_file_handle h name Bool.false) _ (next here a) λ u e. next here b

  pub entry_from_file-Grows :
      (f : File) (id : ℕ) (h : History)
      → P h (Call.array_buffer f)
      → Grows P h (entry_from_file env f id h).1
  unfolding entry_from_file
  entry_from_file-Grows f id h a =
      bind_result-Grows P (env.array_buffer h f) _ (next here a)
        λ buffer e. bind_result-Grows P (sha256_hex env buffer) _ here λ sha e. here

  -- What follows a read, or the making of an entry, knows the last calls.
  module _ {ρ} {B : Type ρ} where
    pub after_read-Grows :
        (name : String) (h : History) (f : File → Sync B)
        → P h (Call.get_file_handle name Bool.false)
        → P (Call.get_file_handle name Bool.false ∷ h) (Call.get_file name)
        → ((x : File)
            → env.get_file (Call.get_file_handle name Bool.false ∷ h) name ≡ ok x
            → Grows P
                (Call.get_file name ∷ Call.get_file_handle name Bool.false ∷ h)
                (f x (Call.get_file name ∷ Call.get_file_handle name Bool.false ∷ h)).1)
        → Grows P h (bind_result (read_file env name h).0 f (read_file env name h).1).1
    unfolding read_file
    after_read-Grows name h f a b k =
        chained-Grows P (env.get_file_handle h name Bool.false) _ f (next here a)
          λ u e. bind_result-Grows P (env.get_file _ name) f (next here b) k

    pub after_entry-Grows :
        (x : File) (id : ℕ) (h : History) (f : SyncedFileEntry → Sync B)
        → P h (Call.array_buffer x)
        → ((entry : SyncedFileEntry)
            → Grows P (Call.array_buffer x ∷ h) (f entry (Call.array_buffer x ∷ h)).1)
        → Grows P h (bind_result (entry_from_file env x id h).0 f (entry_from_file env x id h).1).1
    unfolding entry_from_file
    after_entry-Grows x id h f a k =
        chained-Grows P (env.array_buffer h x) _ f (next here a)
          λ buffer e. chained-Grows P (sha256_hex env buffer) _ f here λ sha e. k _

-- The entry of a file has the given id, the file's size and time, and the hash of what was read.
pub record IsEntryOf (env : Env) (f : File) (id : ℕ) (entry : SyncedFileEntry) : Type 0 where
  pub remote_id : entry.remote_id ≡ id
  pub size : entry.size ≡ size f
  pub mtime : entry.mtime ≡ f.last_modified
  pub buffer : Bytes
  pub sha256 : sha256_hex env buffer ≡ ok entry.sha256
  pub asked : History
  pub was_read : env.array_buffer asked f ≡ ok buffer

pub entry_from_file-IsEntryOf :
    (env : Env) (f : File) (id : ℕ) (h : History) {entry : SyncedFileEntry}
    → (entry_from_file env f id h).0 ≡ ok entry
    → IsEntryOf env f id entry
unfolding entry_from_file
entry_from_file-IsEntryOf env f id h e =
    let (buffer, was_read, e') = bind_result-eq-ok (env.array_buffer h f) _ _ e in
    let (sha, hashed, e'') = bind_result-eq-ok (sha256_hex env buffer) _ _ e' in
    record {
      remote_id = cc;
      size = cc;
      mtime = cc;
      buffer = buffer;
      sha256 = cc;
      asked = h;
      was_read = was_read;
    }

pub read_file-eq-ok :
    (env : Env) (name : String) (h : History) {f : File}
    → (read_file env name h).0 ≡ ok f
    → env.get_file (Call.get_file_handle name Bool.false ∷ h) name ≡ ok f
unfolding read_file
read_file-eq-ok env name h e =
    let (u, opened, e') = bind_result-eq-ok (env.get_file_handle h name Bool.false) _ _ e in e'
