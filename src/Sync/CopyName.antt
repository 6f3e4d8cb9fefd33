-- ===== src/Sync/CopyName.antt =====
-- `conflictCopyName` and `pad2`, frontend/src/sync/reconcile.ts.
pub mod Laws
pub mod Apart
use file_space.Base.{ℕ, suc, ◌+◌, String, Option, none, some, ◌<>◌}
use file_space.Base.Text.{to_string, pad_start, last_index_of, slice_to, slice_from}

-- A `Date` read in the browser's time zone; months count from 0.
pub record LocalDate : Type 0 where
  pub full_year : ℕ
  pub month : ℕ
  pub date : ℕ

unfoldable pub pad2 : ℕ → String
unfolding to_string pad_start
pad2 n = pad_start 2 "0" (to_string 10 n)

unfoldable pub date_suffix : LocalDate → String
unfolding pad2
date_suffix today =
    to_string 10 today.full_year <> ("-" <> (pad2 (today.month + 1) <> ("-" <> pad2 today.date)))

abbrev pub copy_mark : LocalDate → String
copy_mark today = " (conflict copy, " <> (date_suffix today <> ")")

-- `dotIndex <= 0` is -1 or 0.
abbrev pub name_copy : Option ℕ → String → LocalDate → String
name_copy none name today = name <> copy_mark today
name_copy (some ℕ.zero) name today = name <> copy_mark today
name_copy (some (suc i)) name today =
    slice_to (suc i) name <> (copy_mark today <> ("." <> slice_from (suc i + 1) name))

unfoldable pub conflict_copy_name : String → LocalDate → String
unfolding date_suffix last_index_of slice_to slice_from
conflict_copy_name name today = name_copy (last_index_of b'.' name) name today
