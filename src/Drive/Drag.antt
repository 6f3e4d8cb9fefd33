-- ===== src/Drive/Drag.antt =====
-- Files dragged over the page, frontend/src/App.tsx.
pub mod Overlay
use file_space.Base.{
  ℕ, ◌+◌, ◌-◌, Bool, true, false, Option, List, [], ◌∷◌, if◌then◌else◌, ◌==◌, nat_eq,
}
use file_space.Drive.Uploads.{files_to_upload}
use file_space.Sync.Env.{File}

-- The counter of entered elements, and whether the overlay is shown.
pub record Drag : Type 0 where
  pub drag_counter : ℕ
  pub is_dragging_over : Bool

abbrev pub no_drag : Drag
no_drag = record { drag_counter = 0; is_dragging_over = false }

-- `has_files` is `e.dataTransfer.types.includes('Files')`.
unfoldable pub drag_enter : (has_files : Bool) → Drag → Drag
drag_enter has_files d =
    if has_files then record { drag_counter = d.drag_counter + 1; is_dragging_over = true } else d

-- `Math.max(0, dragCounter.current - 1)` is the subtraction of natural numbers.
unfoldable pub drag_leave : Drag → Drag
unfolding nat_eq
drag_leave d = record {
  drag_counter = d.drag_counter - 1;
  is_dragging_over = if d.drag_counter - 1 == 0 then false else d.is_dragging_over;
}

-- The files whose upload starts, if any.
unfoldable pub drop : List File → Drag → Drag × Option (List File)
unfolding files_to_upload
drop files d = (record { drag_counter = 0; is_dragging_over = false }, files_to_upload files)

pub data Event : Type 0 where
  entered : (has_files : Bool) → Event
  left : Event
  dropped : List File → Event

unfoldable pub handle : Event → Drag → Drag
unfolding drag_enter drag_leave drop
handle (entered has_files) d = drag_enter has_files d
handle left d = drag_leave d
handle (dropped files) d = (drop files d).0

unfoldable pub handle_all : List Event → Drag → Drag
unfolding handle
handle_all [] d = d
handle_all (event ∷ events) d = handle_all events (handle event d)
