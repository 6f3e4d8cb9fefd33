-- ===== src/Tests/Drive.antt =====
-- The file list against a server with 51 files, and uploads that fail.
use file_space.Api.Types.{ApiFileRecord, ListFilesResult, asc, desc, SortField}
use file_space.Base.{
  ℕ, zero, suc, true, false, none, some, List, [], ◌∷◌, ◌++◌, ◌≡◌, refl, arith, if◌then◌else◌, ◌==◌,
  string_eq, nat_eq,
}
use mathlib.Core.Path.{subst}
use file_space.Base.Effect.{ok, err, error}
use file_space.Base.Effect.Logic.{ok_injective}
use file_space.Client.Env.{History, Request, file_list, Response, Env}
use file_space.Client.Endpoints.{list_files}
use file_space.Drive.Paging.{FilesQuery, make_query, query_params, fetch_page, Fetched, first_page}
use file_space.Drive.Paging.Loading.{IsWhole, Fetched-reaches_all}
use file_space.Drive.Paging.Server.{page_url, IsPageReply, Serves, Answers}
use file_space.Tests.Requests.{make_response}

abbrev pub file : ApiFileRecord
file = record {
  id = 7;
  name = "a.png";
  extension = "png";
  size = 3;
  created_at = "";
  modified_at = "";
  uploaded_by = "";
  edited_by = "";
}

abbrev copies : ℕ → List ApiFileRecord
copies zero = []
copies (suc n) = file ∷ copies n

abbrev all : List ApiFileRecord
all = copies 51

abbrev page_at : Request → Response
page_at r =
    if r.url == "/api/files?limit=50&offset=0"
    then record (make_response 200 (file_list (copies 50))) { x_has_more = some "true" }
    else record (make_response 200 (file_list (copies 1))) { x_has_more = some "false" }

abbrev pub env : Env
env = record {
  base_url = "";
  get_item = λ h key. none;
  set_item = λ h key value. ok tt;
  fetch = λ h r. ok (page_at r);
  send = λ h r. err (error "offline");
  progress_events = λ h r. [];
}

abbrev q : FilesQuery
q = record { extension = none; sort = none; order = asc }

abbrev first_result : ListFilesResult
first_result = record { files = copies 50; has_more = true }

abbrev second_result : ListFilesResult
second_result = record { files = copies 1; has_more = false }

first_fetched : (h : History) → (fetch_page env q 0 h).0 ≡ ok first_result
unfolding fetch_page query_params string_eq nat_eq list_files
first_fetched h = refl

serves : Serves env q all
unfolding page_url string_eq nat_eq
serves zero fits h r res (get, url) e low high =
    subst (IsPageReply env q all 0) (ok_injective (rw url at e)) (refl, refl)
serves (suc zero) fits h r res (get, url) e low high =
    subst (IsPageReply env q all 50) (ok_injective (rw url at e)) (refl, refl)
serves (suc (suc k)) fits h r res asked e low high = absurd (omega arith)

answers : Answers env q all
unfolding page_url string_eq nat_eq
answers zero fits h r (get, url) = (page_at r, refl, rw url refl)
answers (suc zero) fits h r (get, url) = (page_at r, refl, rw url refl)
answers (suc (suc k)) fits h r asked = absurd (omega arith)

fetched : Fetched env q (first_result ∷ [])
fetched = first_page [] first_result (first_fetched [])

Fetched-reaches_all_example :
    (rest : List ListFilesResult) × IsWhole env q all ((first_result ∷ []) ++ rest)
Fetched-reaches_all_example =
    Fetched-reaches_all env q all serves answers (first_result ∷ []) fetched

sorted_query :
    (make_query (some "png") (record { id = SortField.name; is_desc = true } ∷ [])).order ≡ desc
unfolding make_query
sorted_query = refl
