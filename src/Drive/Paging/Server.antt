-- ===== src/Drive/Paging/Server.antt =====
-- The server's side of the file list: the URL of a page and the reply to it, and what the query
-- function of frontend/src/App.tsx makes of that reply.
use file_space.Api.Types.{ApiFileRecord, SortOrder, asc, desc, SortField, ListFilesResult}
use file_space.Base.{
  ℕ, ◌+◌, ◌*◌, ◌≤◌, ◌<>◌, String, Bool, true, false, Option, none, some, List, ◌≡◌, refl, sym, ◌∙◌,
  ap, arith, length, take, drop, ltb, if◌then◌else◌, ◌==◌, string_eq, nat_eq, inl, inr, Bool-cases,
}
use file_space.Base.Effect.{ok}
use file_space.Base.Effect.Logic.{bind_result-eq-ok, ok_injective}
use file_space.Base.Text.{to_string}
use file_space.Base.Text.Uri.{encode_form}
use file_space.Client.Endpoints.{listed, list_path, list_files}
use file_space.Client.Env.{file_list, Request, Response, is_ok, History, Env}
use file_space.Client.Request.{access_token_key, get_options, request_of, request_raw}
use file_space.Client.Request.Refresh.{request_raw-IsReply, request_raw_good}
use file_space.Drive.Paging.{FilesQuery, page_size, query_params, fetch_page}
use mathlib.Core.Path.{subst}

-- The page of a list at an offset, with the header that tells whether files follow it.
pub record IsPage (all : List ApiFileRecord) (offset : ℕ) (page : ListFilesResult) : Type 0 where
  pub files_eq : page.files ≡ take page_size (drop offset all)
  pub has_more_eq : page.has_more ≡ ltb (offset + page_size) (length all)

abbrev sort_word : SortField → String
sort_word SortField.name = "name"
sort_word SortField.created_at = "createdAt"
sort_word SortField.modified_at = "modifiedAt"
sort_word SortField.uploaded_by = "uploadedBy"
sort_word SortField.edited_by = "editedBy"

abbrev order_word : SortOrder → String
order_word asc = "asc"
order_word desc = "desc"

abbrev pair : String → String → String
pair key value = key <> ("=" <> value)

-- The parts of a page's URL that the query determines.
abbrev sorting : Option SortField → SortOrder → String → String
sorting none order rest = rest
sorting (some field) order rest =
    pair "sort" (sort_word field) <> ("&" <> (pair "order" (order_word order) <> ("&" <> rest)))

abbrev filtering : Option String → String → String
filtering none rest = rest
filtering (some e) rest =
    if e == "" then rest else (pair "extension" (encode_form e) <> ("&" <> rest))

-- The URL of the page at an offset, for a query.
unfoldable pub page_url : FilesQuery → ℕ → String
unfolding encode_form to_string
page_url q offset =
    "/api/files?"
    <> sorting q.sort q.order
        (filtering q.extension ("limit=50" <> ("&" <> pair "offset" (to_string 10 offset))))

unsorted :
    (order : SortOrder) (extension : Option String) (offset : ℕ)
    → list_path (query_params (record { extension = extension; sort = none; order = order }) offset)
      ≡ page_url (record { extension = extension; sort = none; order = order }) offset
unfolding list_path query_params page_url
unsorted order none offset = refl
unsorted order (some e) offset = elim (Bool-cases (e == "")) [
  | inl empty ↦ rw empty refl
  | inr given ↦ rw given (rw given refl)
]

sorted :
    (field : SortField) (order : SortOrder) (extension : Option String) (offset : ℕ)
    → list_path
        (query_params (record { extension = extension; sort = some field; order = order }) offset)
      ≡ page_url (record { extension = extension; sort = some field; order = order }) offset
unfolding list_path query_params page_url
sorted field order none offset = refl
sorted field order (some e) offset = elim (Bool-cases (e == "")) [
  | inl empty ↦ rw empty refl
  | inr given ↦ rw given (rw given refl)
]

-- The query function asks for the page's URL.
list_path-page_url :
    (q : FilesQuery) (offset : ℕ) → list_path (query_params q offset) ≡ page_url q offset
list_path-page_url q offset = by_sort q.sort
  where
    by_sort :
        (sort : Option SortField)
        → list_path
            (query_params (record { extension = q.extension; sort = sort; order = q.order }) offset)
          ≡ page_url (record { extension = q.extension; sort = sort; order = q.order }) offset
    by_sort none = unsorted q.order q.extension offset
    by_sort (some field) = sorted field q.order q.extension offset

abbrev has_more_header : Bool → String
has_more_header true = "true"
has_more_header false = "false"

module _ (env : Env) (q : FilesQuery) (all : List ApiFileRecord) where
  -- A request for the page at an offset, whatever its token is.
  abbrev pub IsPageRequest : ℕ → Request → Type 0
  IsPageRequest offset r = (r.method ≡ "GET") × (r.url ≡ env.base_url <> page_url q offset)

  -- The body and the header of the page.
  abbrev pub IsPageReply : ℕ → Response → Type 0
  IsPageReply offset res =
      (res.content ≡ file_list (take page_size (drop offset all)))
      × (res.x_has_more ≡ some (has_more_header (ltb (offset + page_size) (length all))))

  -- The server's list stays the same: each reply to a request for a page, unless it is an error, is
  -- the page of `all` at its offset. A request may fail.
  abbrev pub Serves : Type 0
  Serves =
      (k : ℕ)
      → k * page_size ≤ length all
      → (h : History) (r : Request) (res : Response) → IsPageRequest (k * page_size) r
      → env.fetch h r ≡ ok res
      → 200 ≤ res.status
      → res.status ≤ 299
      → IsPageReply (k * page_size) res

  -- The server replies with status 200 to each request for a page, whatever was called before.
  abbrev pub Answers : Type 0
  Answers =
      (k : ℕ)
      → k * page_size ≤ length all
      → (h : History) (r : Request) → IsPageRequest (k * page_size) r
      → (res : Response) × (env.fetch h r ≡ ok res) × (res.status ≡ 200)

  module _ (k : ℕ) (fits : k * page_size ≤ length all) where
    abbrev offset : ℕ
    offset = k * page_size

    abbrev path : String
    path = list_path (query_params q offset)

    is_request : (t : Option String) → IsPageRequest offset (request_of env path get_options t)
    is_request t = (refl, ap (λ u. env.base_url <> u) (list_path-page_url q offset))

    abbrev the_page : ListFilesResult
    the_page = record {
      files = take page_size (drop offset all);
      has_more = ltb (offset + page_size) (length all);
    }

    header_lem : (b : Bool) → (has_more_header b == "true") ≡ b
    unfolding string_eq
    header_lem true = refl
    header_lem false = refl

    listed_page :
        (res : Response) (g : History)
        → is_ok res ≡ true
        → IsPageReply offset res
        → (listed env res g).0 ≡ ok the_page
    listed_page res g good (content, header) =
        rw (good, content, header)
          (ap (λ b. ok (record { files = the_page.files; has_more = b }))
            (header_lem (ltb (offset + page_size) (length all))))

    listed_good :
        (res : Response) (g : History) (page : ListFilesResult)
        → (listed env res g).0 ≡ ok page
        → is_ok res ≡ true
    listed_good res g page e = elim (Bool-cases (is_ok res)) [
      | inl good ↦ good
      | inr bad ↦ absurd (let failed = rw bad at e in cc)
    ]

    pub fetch_page-IsPage :
        Serves
        → (h : History) (page : ListFilesResult) → (fetch_page env q offset h).0 ≡ ok page
        → IsPage all offset page
    unfolding fetch_page list_files
    fetch_page-IsPage serves h page e =
        let (res, got, e1) = bind_result-eq-ok (request_raw env path get_options h).0 _ _ e in
        let (g, t, replied) = request_raw-IsReply env path get_options h res got in
        let good = listed_good res (request_raw env path get_options h).1 page e1 in
        let reply =
          serves k fits g _ res (is_request t) replied (ground (arith, good))
            (ground (arith, good)) in
        let same : the_page ≡ page =
          ok_injective
            (sym (listed_page res (request_raw env path get_options h).1 good reply) ∙ e1) in
        subst (λ p. IsPage all offset p) same (record { files_eq = refl; has_more_eq = refl })

    pub fetch_page_answered :
        Serves
        → Answers
        → (h : History) → (page : ListFilesResult) × ((fetch_page env q offset h).0 ≡ ok page)
    unfolding fetch_page list_files
    fetch_page_answered serves answers h =
        let (res, replied, good) =
          answers k fits _ _ (is_request (env.get_item h access_token_key)) in
        let got = request_raw_good env path get_options h res replied (ground (arith, good)) in
        let reply =
          serves k fits _ _ res (is_request (env.get_item h access_token_key)) replied
            (ground (arith, good)) (ground (arith, good)) in
        (the_page, rw got (listed_page res _ (ground (arith, good)) reply))
