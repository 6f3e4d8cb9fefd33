-- ===== src/Drive/Drag/Overlay.antt =====
-- When the overlay of a drag is shown.
use file_space.Base.{
  ℕ, zero, suc, true, false, List, [], ◌∷◌, ◌++◌, ◌≡◌, refl, ap, arith, ltb, nat_eq,
}
use file_space.Sync.Env.{File}
use file_space.Drive.Drag.{
  Drag, no_drag, drag_enter, drag_leave, drop, Event, entered, left, dropped, handle, handle_all,
}

abbrev IsShown : Drag → Type 0
IsShown d = d.is_dragging_over ≡ ltb 0 d.drag_counter

handle-IsShown : (event : Event) (d : Drag) → IsShown d → IsShown (handle event d)
unfolding handle drag_enter drag_leave drop
handle-IsShown (entered true) d h = ground arith
handle-IsShown (entered false) d h = h
handle-IsShown left d h = ground (arith, h)
handle-IsShown (dropped files) d h = ground arith

handle_all-IsShown : (events : List Event) (d : Drag) → IsShown d → IsShown (handle_all events d)
unfolding handle_all
handle_all-IsShown [] d h = h
handle_all-IsShown (event ∷ events) d h =
    handle_all-IsShown events (handle event d) (handle-IsShown event d h)

-- The drag passes over `n` elements inside the page: each is entered before the last one is left.
abbrev pub crossing : ℕ → List Event
crossing zero = []
crossing (suc n) = entered true ∷ left ∷ crossing n

abbrev dragging : Drag
dragging = record { drag_counter = 1; is_dragging_over = true }

handle_all-crossing :
    (n : ℕ) (rest : List Event)
    → handle_all (crossing n ++ rest) dragging ≡ handle_all rest dragging
unfolding handle_all handle drag_enter drag_leave
handle_all-crossing zero rest = refl
handle_all-crossing (suc n) rest = handle_all-crossing n rest

-- Whatever happens, the overlay is shown exactly while the counter is positive. For files dragged in
-- after no drag, over any number of elements inside the page, it is shown until they leave the page
-- or are dropped, and it is hidden from then on.
pub handle_all-overlay :
    (events : List Event) (n : ℕ) (files : List File)
    → let d = handle_all events no_drag in
      (d.is_dragging_over ≡ ltb 0 d.drag_counter)
      × ((handle_all (entered true ∷ (crossing n ++ [])) no_drag).is_dragging_over ≡ true)
      × (handle_all (entered true ∷ (crossing n ++ (left ∷ []))) no_drag ≡ no_drag)
      × (handle_all (entered true ∷ (crossing n ++ (dropped files ∷ []))) no_drag ≡ no_drag)
unfolding handle_all handle drag_enter drag_leave drop
handle_all-overlay events n files = (
  handle_all-IsShown events no_drag refl,
  ap (λ (d : Drag). d.is_dragging_over) (handle_all-crossing n []),
  handle_all-crossing n (left ∷ []),
  handle_all-crossing n (dropped files ∷ []),
)
