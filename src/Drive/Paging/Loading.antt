-- ===== src/Drive/Paging/Loading.antt =====
-- What the pages come to while the server's list of files stays the same.
use file_space.Api.Types.{ApiFileRecord, ListFilesResult}
use file_space.Base.{
  ℕ, zero, suc, ◌+◌, ◌*◌, ◌≤◌, ◌<◌, none, some, List, [], ◌∷◌, ◌++◌, ◌≡◌, refl, sym, ◌∙◌, ap, arith,
  length, take, ltb, length-append, take-add, take_all, if◌then◌else◌, nat_eq, leb, inl, inr,
  Bool-cases,
}
use mathlib.Core.List.{append_assoc, append-nil}
use file_space.Client.Env.{Env}
use file_space.Drive.Paging.Server.{IsPage, Serves, Answers, fetch_page-IsPage, fetch_page_answered}
use file_space.Drive.Paging.{
  FilesQuery, page_size, get_next_page_param, next_after, next_page_param, data_of, Fetched,
  first_page, next_page,
}

data_of-concat :
    (pages : List ListFilesResult) (page : ListFilesResult)
    → data_of (pages ++ (page ∷ [])) ≡ data_of pages ++ page.files
unfolding data_of
data_of-concat [] page = append-nil page.files
data_of-concat (p ∷ pages) page =
    ap (λ r. p.files ++ r) (data_of-concat pages page)
    ∙ sym (append_assoc p.files (data_of pages) page.files)

next_after-concat :
    (all pages : List ListFilesResult) (page : ListFilesResult)
    → next_after all (pages ++ (page ∷ [])) ≡ get_next_page_param page all
next_after-concat all [] page = refl
next_after-concat all (p ∷ []) page = refl
next_after-concat all (p ∷ q ∷ pages) page = next_after-concat all (q ∷ pages) page

-- What `pages` are when they hold all files up to their number times the size of a page.
record IsLoaded (all : List ApiFileRecord) (pages : List ListFilesResult) : Type 0 where
  data_eq : data_of pages ≡ take (length pages * page_size) all
  next_eq : next_page_param pages ≡ (
      if ltb (length pages * page_size) (length all) then some (length pages * page_size) else none)
  count_le : length pages * page_size ≤ page_size + length all

concat-IsLoaded :
    (all : List ApiFileRecord) (pages : List ListFilesResult) (page : ListFilesResult)
    → data_of pages ≡ take (length pages * page_size) all
    → length pages * page_size ≤ length all
    → IsPage all (length pages * page_size) page
    → IsLoaded all (pages ++ (page ∷ []))
concat-IsLoaded all pages page before fits is_page =
    let n = length pages in
    let longer : length (pages ++ (page ∷ [])) * page_size ≡ n * page_size + page_size =
      omega (arith, length-append pages (page ∷ [])) in
    record {
      data_eq =
          data_of-concat pages page
          ∙ rw (longer, before, is_page.files_eq) (take-add (n * page_size) page_size all);
      next_eq =
          next_after-concat (pages ++ (page ∷ [])) pages page
          ∙ rw (longer, is_page.has_more_eq) refl;
      count_le = omega arith;
    }

module _ (env : Env) (q : FilesQuery) (all : List ApiFileRecord) where
  next_offset :
      (pages : List ListFilesResult) (offset : ℕ)
      → IsLoaded all pages
      → next_page_param pages ≡ some offset
      → (offset ≡ length pages * page_size) × (length pages * page_size < length all)
  next_offset pages offset loaded e = ground (arith, loaded.next_eq)

  Fetched-IsLoaded :
      (serves : Serves env q all) (pages : List ListFilesResult)
      → Fetched env q pages
      → IsLoaded all pages
  unfolding data_of
  Fetched-IsLoaded serves pages (first_page h page run) =
      concat-IsLoaded all [] page refl (omega arith)
        (fetch_page-IsPage env q all 0 (omega arith) serves h page run)
  Fetched-IsLoaded serves pages (next_page before offset h page fetched e run) =
      let loaded = Fetched-IsLoaded serves before fetched in
      let (same, more) = next_offset before offset loaded e in
      concat-IsLoaded all before page loaded.data_eq (omega arith) (
        fetch_page-IsPage env q all (length before) (omega arith) serves h page (rw (sym same) run))

  -- The query's pages hold all files, and there is no next page.
  pub record IsWhole (pages : List ListFilesResult) : Type 0 where
    pub is_fetched : Fetched env q pages
    pub data_eq : data_of pages ≡ all
    pub no_next_page : next_page_param pages ≡ none

  complete :
      (serves : Serves env q all) (pages : List ListFilesResult)
      → Fetched env q pages
      → length all ≤ length pages * page_size
      → IsWhole pages
  complete serves pages fetched enough =
      let loaded = Fetched-IsLoaded serves pages fetched in
      record {
        is_fetched = fetched;
        data_eq = loaded.data_eq ∙ take_all (length pages * page_size) all enough;
        no_next_page = ground (arith, loaded.next_eq);
      }

  fetch_one :
      (serves : Serves env q all) (answers : Answers env q all) (pages : List ListFilesResult)
      → Fetched env q pages
      → length pages * page_size < length all
      → (page : ListFilesResult) × Fetched env q (pages ++ (page ∷ []))
  fetch_one serves answers pages fetched more =
      let loaded = Fetched-IsLoaded serves pages fetched in
      let (page, run) =
        fetch_page_answered env q all (length pages) (omega arith) serves answers [] in
      let next : next_page_param pages ≡ some (length pages * page_size) =
        ground (arith, loaded.next_eq) in
      (page, next_page pages (length pages * page_size) [] page fetched next run)

  fetch_rest :
      (serves : Serves env q all) (answers : Answers env q all) (fuel : ℕ)
      (pages : List ListFilesResult)
      → Fetched env q pages
      → length all ≤ length pages * page_size + fuel
      → (rest : List ListFilesResult) × IsWhole (pages ++ rest)
  fetch_rest serves answers zero pages fetched enough =
      ([], rw (append-nil pages) (complete serves pages fetched (omega arith)))
  fetch_rest serves answers (suc fuel) pages fetched enough =
      elim (Bool-cases (leb (length all) (length pages * page_size))) [
        | inl e ↦ ([], rw (append-nil pages) (complete serves pages fetched (ground (arith, e))))
        | inr e ↦
            let (page, fetched') = fetch_one serves answers pages fetched (ground (arith, e)) in
            let size = length-append pages (page ∷ []) in
            let (rest, whole) =
              fetch_rest serves answers fuel (pages ++ (page ∷ [])) fetched' (omega arith) in
            (page ∷ rest, rw (sym (append_assoc pages (page ∷ []) rest)) whole)
      ]

  -- The server's list for the query stays the same, and it replies with status 200 and that page of
  -- the list to each GET request for the URL of a page. However many pages are
  -- there, some number of further fetches, each for the parameter that the pages before it lead
  -- to, brings the whole list, and then there is no next page.
  pub Fetched-reaches_all :
      (serves : Serves env q all) (answers : Answers env q all) (pages : List ListFilesResult)
      → Fetched env q pages
      → (rest : List ListFilesResult) × IsWhole (pages ++ rest)
  Fetched-reaches_all serves answers pages fetched =
      fetch_rest serves answers (length all) pages fetched (omega arith)
