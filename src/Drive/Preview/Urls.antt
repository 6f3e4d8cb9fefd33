-- ===== src/Drive/Preview/Urls.antt =====
-- Which object URLs are alive while previews open, load and close.
use file_space.Api.Types.{ApiFileRecord}
use file_space.Base.{
  ℕ, suc, ◌<◌, String, true, false, not, Option, none, some, List, [], ◌∷◌, ◌≡◌, refl, ◌↔◌, ◌⊎◌,
  arith, ◌==◌, nat_eq, string_eq, contains, contains-filter, Bool-cases, inl, inr, if◌then◌else◌,
}
use file_space.Drive.Preview.{
  FilePreviewState, loading, text, image, error, Viewer, closed_viewer, url_of, revoke, clean_up,
  is_same, commit, close_preview, begin_preview, end_preview, Event, committed, closed, opened,
  received, handle, handle_all,
}
use file_space.Base.Effect.{Result, ok, err, message_of}

-- A preview that is an image has a URL that is alive.
abbrev pub HasUrl : Viewer → Option FilePreviewState → Type 0
HasUrl v p = (u : ℕ) → url_of p ≡ some u → contains v.live u ≡ true

pub record IsSafe (v : Viewer) : Type 0 where
  pub preview_live : HasUrl v v.preview
  pub shown_live : HasUrl v v.shown
  pub fresh : (u : ℕ) → contains v.live u ≡ true → u < v.next_url

contains-revoke :
    (url : ℕ) (live : List ℕ) (u : ℕ)
    → (contains (revoke url live) u ≡ true) ↔ ((contains live u ≡ true) × ((u == url) ≡ false))
contains-revoke url live u = ground (arith, contains-filter (λ (w : ℕ). not (w == url)) live u)

-- The URLs alive after a commit.
abbrev pub kept : Option ℕ → Option ℕ → List ℕ → List ℕ
kept next shown live = if is_same next shown then live else clean_up shown live

kept-next :
    (next shown : Option ℕ) (live : List ℕ) (u : ℕ)
    → next ≡ some u
    → contains live u ≡ true
    → contains (kept next shown live) u ≡ true
kept-next none shown live u e h = absurd (ground (arith, e))
kept-next (some n) none live u e h = h
kept-next (some n) (some url) live u e h = ground (arith, e, h, contains-revoke url live u)

kept_less :
    (next shown : Option ℕ) (live : List ℕ) (u : ℕ)
    → contains (kept next shown live) u ≡ true
    → contains live u ≡ true
kept_less none none live u h = h
kept_less none (some url) live u h = ground (arith, h, contains-revoke url live u)
kept_less (some n) none live u h = h
kept_less (some n) (some url) live u h = ground (arith, h, contains-revoke url live u)

pub commit-IsSafe : (v : Viewer) → IsSafe v → IsSafe (commit v)
unfolding commit
commit-IsSafe v safe =
    let next = url_of v.preview in
    let shown = url_of v.shown in
    record {
      preview_live = λ u e. kept-next next shown v.live u e (safe.preview_live u e);
      shown_live = λ u e. kept-next next shown v.live u e (safe.preview_live u e);
      fresh = λ u h. safe.fresh u (kept_less next shown v.live u h);
    }

-- A state that is no image.
abbrev pub with_preview : Option FilePreviewState → Viewer → Viewer
with_preview p v = record v { preview = p }

pub with_preview-IsSafe :
    (p : Option FilePreviewState) (v : Viewer)
    → url_of p ≡ none
    → IsSafe v
    → IsSafe (with_preview p v)
with_preview-IsSafe p v e safe = record {
  preview_live = λ u e'. absurd (ground (arith, e, e'));
  shown_live = safe.shown_live;
  fresh = safe.fresh;
}

abbrev pub with_image : ApiFileRecord → Viewer → Viewer
with_image file v = record v {
  preview = some (image file v.next_url);
  live = v.next_url ∷ v.live;
  next_url = suc v.next_url;
}

pub with_image-IsSafe : (file : ApiFileRecord) (v : Viewer) → IsSafe v → IsSafe (with_image file v)
unfolding url_of
with_image-IsSafe file v safe = record {
  preview_live = λ u e. ground (arith, e);
  shown_live = λ u e. ground (arith, safe.shown_live u e);
  fresh = λ u h. ground (arith, safe.fresh u);
}

-- The end of a request shows a state that is no image, or an image with a new URL.
pub end_preview-cases :
    (file : ApiFileRecord) (r : Result (Result String)) (v : Viewer)
    → ((p : Option FilePreviewState) × (url_of p ≡ none)
        × (end_preview file r v ≡ with_preview p v))
      ⊎ (end_preview file r v ≡ with_image file v)
unfolding end_preview url_of
end_preview-cases file (err e) v =
    inl (some (error file (message_of "Failed to load preview" e)), refl, refl)
end_preview-cases file (ok (ok t)) v = elim (Bool-cases (file.extension == "png")) [
  | inl e ↦ inr (rw e refl)
  | inr e ↦ inl (some (text file t), refl, rw e refl)
]
end_preview-cases file (ok (err x)) v = elim (Bool-cases (file.extension == "png")) [
  | inl e ↦ inr (rw e refl)
  | inr e ↦ inl (some (error file (message_of "Failed to load preview" x)), refl, rw e refl)
]

handle-IsSafe : (event : Event) (v : Viewer) → IsSafe v → IsSafe (handle event v)
unfolding handle close_preview begin_preview url_of
handle-IsSafe committed v safe = commit-IsSafe v safe
handle-IsSafe closed v safe = with_preview-IsSafe none v refl safe
handle-IsSafe (opened file) v safe = with_preview-IsSafe (some (loading file)) v refl safe
handle-IsSafe (received file r) v safe = elim (end_preview-cases file r v) [
  | inl (p, e, run) ↦ rw run (with_preview-IsSafe p v e safe)
  | inr run ↦ rw run (with_image-IsSafe file v safe)
]

pub handle_all-IsSafe : (events : List Event) (v : Viewer) → IsSafe v → IsSafe (handle_all events v)
unfolding handle_all
handle_all-IsSafe [] v safe = safe
handle_all-IsSafe (event ∷ events) v safe =
    handle_all-IsSafe events (handle event v) (handle-IsSafe event v safe)

pub closed-IsSafe : IsSafe closed_viewer
unfolding url_of
closed-IsSafe = record {
  preview_live = λ u e. ground (arith, e);
  shown_live = λ u e. ground (arith, e);
  fresh = λ u h. ground (arith, h);
}
