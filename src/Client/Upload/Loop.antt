-- ===== src/Client/Upload/Loop.antt =====
-- The loop of an upload in chunks, frontend/src/api/client.ts.
use file_space.Base.{
  ℕ, ◌+◌, ◌*◌, ◌≤◌, ◌<◌, String, Option, List, ◌∷◌, ◌≡◌, length, take, drop, nat_eq,
}
use file_space.Client.Env.{Response, Call, History, Env}
use file_space.Client.Request.{refresh_request, request_of}
use file_space.Client.Upload.{chunk_path, chunk_options, slices, Position}
use file_space.Client.Upload.Accepted.{IsSent}
use file_space.Sync.Env.{Bytes}

module _ (env : Env) (upload_id : String) (chunk_size : ℕ) (positive : 1 ≤ chunk_size)
    (content : Bytes) where
  abbrev part : ℕ → Bytes
  part i = take chunk_size (drop (i * chunk_size) content)

  -- The calls of the loop: a chunk sent under an index is the part of the content that begins at
  -- this index times the chunk size.
  abbrev pub IsSessionCall : History → Call → Type 0
  IsSessionCall h (Call.send r) =
      (i : ℕ) × (t : Option String) × (i * chunk_size < length content)
      × (r ≡ request_of env (chunk_path upload_id i) (chunk_options (part i)) t)
  IsSessionCall h (Call.progress loaded n) = n ≡ length content
  IsSessionCall h (Call.fetch r) = (old : String) × (r ≡ refresh_request env old)
  IsSessionCall h c = Unit

  -- What is left of the loop at a position.
  record IsAt (rest : List Bytes) (p : Position) : Type 0 where
    fuel : ℕ
    left : rest ≡ slices fuel chunk_size (drop (p.index * chunk_size) content)
    enough : length (drop (p.index * chunk_size) content) ≤ fuel
    counted : p.uploaded + length (drop (p.index * chunk_size) content) ≡ length content

  record IsNext (x : Bytes) (rest : List Bytes) (d : Bytes) : Type 0 where
    is_taken : x ≡ take chunk_size d
    more : 1 ≤ length d
    fuel : ℕ
    left : rest ≡ slices fuel chunk_size (drop chunk_size d)
    enough : length (drop chunk_size d) ≤ fuel

  module _ (x : Bytes) (rest : List Bytes) (p : Position) (a : IsAt (x ∷ rest) p) where
    abbrev ahead : Bytes
    ahead = drop (p.index * chunk_size) content

    abbrev moved : Position
    moved = record { index = p.index + 1; uploaded = p.uploaded + length x }

  abbrev first : Position
  first = record { index = 0; uploaded = 0 }

  -- Between two histories the first parts of the content were sent, each once more after the one
  -- before it was accepted, and the last reply to each is no error.
  pub data IsUploaded (h : History) : ℕ → History → Type 0 where
    none_sent : IsUploaded h 0 h
    one_more :
        {i : ℕ} {g g' : History} (res : Response)
        → IsUploaded h i g
        → i * chunk_size < length content
        → 200 ≤ res.status
        → res.status ≤ 299
        → IsSent env upload_id i (part i) g res g'
        → IsUploaded h (i + 1) g'
