-- ===== src/Drive/Preview/Commits.antt =====
-- The object URLs when the page is rendered after each event.
use file_space.Api.Types.{ApiFileRecord}
use file_space.Base.{
  ℕ, ◌<◌, true, Option, none, some, List, [], ◌∷◌, ◌≡◌, refl, ap, ◌↔◌, ◌⊎◌, arith, nat_eq,
  string_eq, contains, inl, inr,
}
use file_space.Drive.Preview.{
  FilePreviewState, loading, Viewer, closed_viewer, url_of, clean_up, commit, unmount,
  close_preview, begin_preview, Event, committed, closed, opened, received, handle, handle_all,
  each_committed,
}
use file_space.Drive.Preview.Urls.{
  IsSafe, kept, commit-IsSafe, with_preview, with_preview-IsSafe, with_image, with_image-IsSafe,
  end_preview-cases, handle_all-IsSafe, closed-IsSafe,
}

abbrev urls : Option ℕ → List ℕ
urls none = []
urls (some u) = u ∷ []

record IsTidy (v : Viewer) : Type 0 where
  is_safe : IsSafe v
  shown_eq : v.preview ≡ v.shown
  live_eq : v.live ≡ urls (url_of v.shown)

kept_one :
    (next shown : Option ℕ) (live : List ℕ)
    → (next ≡ none) ⊎ (next ≡ shown)
    → live ≡ urls shown
    → kept next shown live ≡ urls next
kept_one none none live h e = e
kept_one none (some u) live h e = rw e (ground arith)
kept_one (some n) none live h e = absurd (ground (arith, h))
kept_one (some n) (some u) live h e = rw e (ground (arith, h))

kept_new :
    (n : ℕ) (shown : Option ℕ) (live : List ℕ)
    → live ≡ urls shown
    → ((u : ℕ) → shown ≡ some u → u < n)
    → kept (some n) shown (n ∷ live) ≡ n ∷ []
kept_new n none live e older = rw e refl
kept_new n (some u) live e older = rw e (ground (arith, older u refl))

commit-IsTidy :
    (v : Viewer)
    → IsSafe v
    → kept (url_of v.preview) (url_of v.shown) v.live ≡ urls (url_of v.preview)
    → IsTidy (commit v)
unfolding commit
commit-IsTidy v safe e = record { is_safe = commit-IsSafe v safe; shown_eq = refl; live_eq = e }

recommit-IsTidy : (v : Viewer) → IsTidy v → IsTidy (commit v)
recommit-IsTidy v t =
    commit-IsTidy v t.is_safe
      (kept_one (url_of v.preview) (url_of v.shown) v.live (inr (ap url_of t.shown_eq)) t.live_eq)

preview-IsTidy :
    (p : Option FilePreviewState) (v : Viewer)
    → url_of p ≡ none
    → IsTidy v
    → IsTidy (commit (with_preview p v))
preview-IsTidy p v e t =
    commit-IsTidy (with_preview p v) (with_preview-IsSafe p v e t.is_safe)
      (kept_one (url_of p) (url_of v.shown) v.live (inl e) t.live_eq)

image-IsTidy : (file : ApiFileRecord) (v : Viewer) → IsTidy v → IsTidy (commit (with_image file v))
unfolding url_of
image-IsTidy file v t =
    let safe = t.is_safe in
    commit-IsTidy (with_image file v) (with_image-IsSafe file v safe) (
      kept_new v.next_url (url_of v.shown) v.live t.live_eq
        (λ u e. safe.fresh u (safe.shown_live u e)))

event-IsTidy : (event : Event) (v : Viewer) → IsTidy v → IsTidy (commit (handle event v))
unfolding handle close_preview begin_preview url_of
event-IsTidy committed v t = recommit-IsTidy (commit v) (recommit-IsTidy v t)
event-IsTidy closed v t = preview-IsTidy none v refl t
event-IsTidy (opened file) v t = preview-IsTidy (some (loading file)) v refl t
event-IsTidy (received file r) v t = elim (end_preview-cases file r v) [
  | inl (p, e, run) ↦ rw run (preview-IsTidy p v e t)
  | inr run ↦ rw run (image-IsTidy file v t)
]

each_committed-IsTidy :
    (events : List Event) (v : Viewer) → IsTidy v → IsTidy (handle_all (each_committed events) v)
unfolding handle_all handle
each_committed-IsTidy [] v t = t
each_committed-IsTidy (event ∷ events) v t =
    each_committed-IsTidy events (commit (handle event v)) (event-IsTidy event v t)

closed-IsTidy : IsTidy closed_viewer
unfolding url_of
closed-IsTidy = record { is_safe = closed-IsSafe; shown_eq = refl; live_eq = refl }

only_shown :
    (shown : Option ℕ) (live : List ℕ)
    → live ≡ urls shown
    → ((u : ℕ) → (contains live u ≡ true) ↔ (shown ≡ some u)) × (clean_up shown live ≡ [])
only_shown none live e = rw e (λ u. ground arith, refl)
only_shown (some n) live e = rw e (λ u. ground arith, ground arith)

-- Whatever previews are opened and closed, whenever their requests end and whenever the page is
-- rendered: the image on the screen, and the image that the next commit shows, have URLs that are
-- not revoked, and no URL that is alive will be created again. When the page is rendered after
-- each event, the URL of the image on the screen is the only one that is alive, and none is once
-- the page is left.
pub handle_all-urls :
    (events : List Event)
    → let v = handle_all (each_committed events) closed_viewer in
      IsSafe (handle_all events closed_viewer)
      × ((u : ℕ) → (contains v.live u ≡ true) ↔ (url_of v.shown ≡ some u))
      × ((unmount v).live ≡ [])
unfolding unmount
handle_all-urls events =
    let v = handle_all (each_committed events) closed_viewer in
    let t = each_committed-IsTidy events closed_viewer closed-IsTidy in
    let (shown_only, none_left) = only_shown (url_of v.shown) v.live t.live_eq in
    (handle_all-IsSafe events closed_viewer closed-IsSafe, shown_only, none_left)
