-- ===== src/Drive/Paging.antt =====
-- The pages of the file list, frontend/src/App.tsx: the query's parameters, the page to fetch next,
-- and the scroll position that asks for it.
pub mod Server
pub mod Loading
use file_space.Api.Types.{
  ApiFileRecord, SortOrder, asc, desc, SortField, ListFilesParams, ListFilesResult,
}
use file_space.Base.{
  ℕ, zero, suc, ◌-◌, ◌*◌, String, Bool, true, false, not, ◌&&◌, ◌||◌, Option, none, some, List, [],
  ◌∷◌, ◌++◌, ◌≡◌, if◌then◌else◌, length, ltb,
}
use file_space.Base.Effect.{Result, ok}
use file_space.Client.Endpoints.{list_files}
use file_space.Client.Env.{History, Env, Client}
use file_space.Client.Request.{truthy}

abbrev pub page_size : ℕ
page_size = 50

-- An entry of the table's `SortingState`.
pub record ColumnSort : Type 0 where
  pub id : SortField
  pub is_desc : Bool

-- What the key of the query is made of.
pub record FilesQuery : Type 0 where
  pub extension : Option String
  pub sort : Option SortField
  pub order : SortOrder

unfoldable pub make_query : Option String → List ColumnSort → FilesQuery
make_query extension [] = record { extension = extension; sort = none; order = asc }
make_query extension (s ∷ sorting) = record {
  extension = extension;
  sort = some s.id;
  order = if s.is_desc then desc else asc;
}

abbrev order_of : Option SortField → SortOrder → Option SortOrder
order_of none order = none
order_of (some field) order = some order

unfoldable pub query_params : FilesQuery → ℕ → ListFilesParams
query_params q offset = record {
  sort = q.sort;
  order = order_of q.sort q.order;
  extension = truthy q.extension;
  limit = some page_size;
  offset = some offset;
}

abbrev pub initial_page_param : ℕ
initial_page_param = 0

abbrev pub get_next_page_param : ListFilesResult → List ListFilesResult → Option ℕ
get_next_page_param last_page all_pages =
    if last_page.has_more then some (length all_pages * page_size) else none

-- The parameter of the page after `pages`, the first of which lead up to `all_pages`.
abbrev pub next_after : (all_pages pages : List ListFilesResult) → Option ℕ
next_after all_pages [] = none
next_after all_pages (page ∷ []) = get_next_page_param page all_pages
next_after all_pages (page ∷ next ∷ pages) = next_after all_pages (next ∷ pages)

abbrev pub next_page_param : List ListFilesResult → Option ℕ
next_page_param pages = next_after pages pages

-- `hasNextPage` of the query
abbrev pub has_next_page : Option ℕ → Bool
has_next_page none = false
has_next_page (some offset) = true

-- `filesQuery.data?.pages.flatMap((page) => page.files) ?? []`
unfoldable pub data_of : List ListFilesResult → List ApiFileRecord
data_of [] = []
data_of (page ∷ pages) = page.files ++ data_of pages

-- The index of the last row drawn.
abbrev pub last_index : List ℕ → Option ℕ
last_index [] = none
last_index (i ∷ []) = some i
last_index (i ∷ j ∷ rows) = last_index (j ∷ rows)

-- The effect that follows a render: does it fetch the next page?
unfoldable pub should_fetch :
    (virtual_rows : List ℕ) (row_count : ℕ) (has_next_page is_fetching_next_page : Bool) → Bool
should_fetch virtual_rows row_count has_next_page is_fetching_next_page =
    elim (last_index virtual_rows) [
      | none ↦ false
      | some i ↦
          if ltb i (row_count - 1)
          then false
          else if not has_next_page || is_fetching_next_page
          then false
          else true
    ]

module _ (env : Env) (q : FilesQuery) where
  -- The query function.
  unfoldable pub fetch_page : ℕ → Client ListFilesResult
  unfolding query_params
  fetch_page offset = list_files env (query_params q offset)

  -- The lists of pages that the query may hold: the first page is a reply to the initial parameter,
  -- and each further page is a reply to the parameter that the pages before it lead to. Other
  -- requests may run between the fetches.
  pub data Fetched : List ListFilesResult → Type 0 where
    first_page :
        (h : History) (page : ListFilesResult)
        → (fetch_page initial_page_param h).0 ≡ ok page
        → Fetched (page ∷ [])
    next_page :
        (pages : List ListFilesResult) (offset : ℕ) (h : History) (page : ListFilesResult)
        → Fetched pages
        → next_page_param pages ≡ some offset
        → (fetch_page offset h).0 ≡ ok page
        → Fetched (pages ++ (page ∷ []))
