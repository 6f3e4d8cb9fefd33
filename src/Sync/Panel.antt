-- ===== src/Sync/Panel.antt =====
-- What the sync pane shows, frontend/src/sync/SyncModal.tsx and
-- frontend/src/sync/SyncConflictsSection.tsx.
pub mod Sizes
pub mod Resolving
pub mod LogView
use file_space.Base.{
  ℕ, ◌+◌, ◌-◌, ◌*◌, ◌/◌, ◌%◌, String, Bool, true, false, not, ◌||◌, Option, none, some, List, [],
  ◌∷◌, ◌++◌, ◌<>◌, if◌then◌else◌, ltb, leb, ◌==◌, string_eq, length, drop, filter, contains, add,
}
use file_space.Base.Text.{to_string}

-- The loop of `byteCount`, with the number that the size is divided by so far. The divisions are by
-- powers of two, so a JavaScript number holds the quotient exactly.
unfoldable pub scale : (bytes divisor : ℕ) → String → List String → ℕ × String
scale bytes divisor unit [] = (divisor, unit)
scale bytes divisor unit (next ∷ units) =
    let more = scale bytes (divisor * 1024) next units in
    if leb (divisor * 1024) bytes then more else (divisor, unit)

-- `value.toFixed(1)` in tenths: the nearest one, and the larger one of two.
unfoldable pub tenths : (bytes divisor : ℕ) → ℕ
tenths bytes divisor = (20 * bytes + divisor) / (2 * divisor)

unfoldable pub show_tenths : ℕ → String
unfolding to_string
show_tenths n = to_string 10 (n / 10) <> ("." <> to_string 10 (n % 10))

unfoldable pub byte_count : ℕ → String
unfolding scale tenths show_tenths to_string
byte_count bytes =
    let (divisor, unit) = scale bytes 1024 "KB" ("MB" ∷ "GB" ∷ []) in
    if ltb bytes 1024
    then to_string 10 bytes <> " B"
    else show_tenths (tenths bytes divisor) <> (" " <> unit)

-- The set `resolvingNames`: a click on a button of a conflict, which does nothing while the button is
-- disabled, and the end of the handler that it has started.
unfoldable pub click : String → List String → Option (List String)
unfolding string_eq
click name resolving_names =
    if contains resolving_names name then none else some (add resolving_names name)

unfoldable pub finish : String → List String → List String
unfolding string_eq
finish name resolving_names = filter (λ n. not (n == name)) resolving_names

abbrev pub reverse_onto {ℓ} : {A : Type ℓ} → List A → List A → List A
reverse_onto out [] = out
reverse_onto out (x ∷ xs) = reverse_onto (x ∷ out) xs

-- `log.slice(-10).reverse()`
unfoldable pub shown_log : List String → List String
shown_log log = reverse_onto [] (drop (length log - 10) log)

abbrev is_chosen : Option String → Bool
is_chosen none = false
is_chosen (some name) = not (name == "")

-- Is "Sync now" disabled?
unfoldable pub is_sync_disabled : (folder_name : Option String) (is_syncing : Bool) → Bool
unfolding string_eq
is_sync_disabled folder_name is_syncing = not (is_chosen folder_name) || is_syncing
