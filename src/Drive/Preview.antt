-- ===== src/Drive/Preview.antt =====
-- The preview of a file, frontend/src/App.tsx and frontend/src/FilePreviewModal.tsx: its state, its
-- handlers, and the object URLs that they create and revoke. `setPreview` sets the state at once; a
-- commit shows the state of the moment, and runs the effect's clean-up of what was shown before.
pub mod Urls
pub mod Commits
use file_space.Api.Types.{ApiFileRecord}
use file_space.Base.{
  ℕ, suc, String, Bool, true, false, not, Option, none, some, List, [], ◌∷◌, if◌then◌else◌, ◌==◌,
  nat_eq, string_eq, filter,
}
use file_space.Base.Effect.{Exception, Result, ok, err, message_of}

pub data FilePreviewState : Type 0 where
  loading : (file : ApiFileRecord) → FilePreviewState
  text : (file : ApiFileRecord) (content : String) → FilePreviewState
  image : (file : ApiFileRecord) (object_url : ℕ) → FilePreviewState
  error : (file : ApiFileRecord) (message : String) → FilePreviewState

-- `shown` is the preview of the last commit. Object URLs are numbered in the order in which they
-- are created, and `live` are those not revoked.
pub record Viewer : Type 0 where
  pub preview : Option FilePreviewState
  pub shown : Option FilePreviewState
  pub live : List ℕ
  pub next_url : ℕ

abbrev pub closed_viewer : Viewer
closed_viewer = record { preview = none; shown = none; live = []; next_url = 0 }

-- The URL of a preview that is an image.
unfoldable pub url_of : Option FilePreviewState → Option ℕ
url_of (some (image file object_url)) = some object_url
url_of p = none

-- `URL.revokeObjectURL(url)`
abbrev pub revoke : ℕ → List ℕ → List ℕ
revoke url live = filter (λ u. not (u == url)) live

-- The clean-up of the effect, given the URL of the preview that it was made for.
abbrev pub clean_up : Option ℕ → List ℕ → List ℕ
clean_up none live = live
clean_up (some url) live = revoke url live

-- An image is the same state object as another only if it has the same URL.
abbrev pub is_same : Option ℕ → Option ℕ → Bool
is_same (some u) (some v) = u == v
is_same u v = false

-- The state is rendered, and the effect runs again if it has changed.
unfoldable pub commit : Viewer → Viewer
unfolding url_of
commit v = record v {
  shown = v.preview;
  live =
      if is_same (url_of v.preview) (url_of v.shown)
      then v.live
      else clean_up (url_of v.shown) v.live;
}

-- The page is left for the sign-in form.
unfoldable pub unmount : Viewer → Viewer
unfolding url_of
unmount v = record v { shown = none; live = clean_up (url_of v.shown) v.live }

unfoldable pub close_preview : Viewer → Viewer
close_preview v = record v { preview = none }

-- `handlePreview` up to its request
unfoldable pub begin_preview : ApiFileRecord → Viewer → Viewer
begin_preview file v = record v { preview = some (loading file) }

abbrev fail_preview : ApiFileRecord → Exception → Viewer → Viewer
fail_preview file e v = record v {
  preview = some (error file (message_of "Failed to load preview" e));
}

abbrev show_text : ApiFileRecord → Result String → Viewer → Viewer
show_text file (ok content) v = record v { preview = some (text file content) }
show_text file (err e) v = fail_preview file e v

-- `handlePreview` once its request has ended, with the text that the blob would be read as
unfoldable pub end_preview : ApiFileRecord → Result (Result String) → Viewer → Viewer
unfolding string_eq
end_preview file (err e) v = fail_preview file e v
end_preview file (ok content) v =
    if file.extension == "png"
    then record v {
      preview = some (image file v.next_url);
      live = v.next_url ∷ v.live;
      next_url = suc v.next_url;
    }
    else show_text file content v

pub data Event : Type 0 where
  committed closed : Event
  opened : ApiFileRecord → Event
  received : ApiFileRecord → Result (Result String) → Event

unfoldable pub handle : Event → Viewer → Viewer
unfolding commit close_preview begin_preview end_preview
handle committed v = commit v
handle closed v = close_preview v
handle (opened file) v = begin_preview file v
handle (received file r) v = end_preview file r v

unfoldable pub handle_all : List Event → Viewer → Viewer
unfolding handle
handle_all [] v = v
handle_all (event ∷ events) v = handle_all events (handle event v)

-- Events each of which is rendered before the next one happens.
abbrev pub each_committed : List Event → List Event
each_committed [] = []
each_committed (event ∷ events) = event ∷ committed ∷ each_committed events
