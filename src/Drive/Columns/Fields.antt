-- ===== src/Drive/Columns/Fields.antt =====
-- The columns that can be sorted by, and those that cannot be hidden.
use file_space.Api.Types.{SortField}
use file_space.Base.{List, [], ◌∷◌, ◌≡◌, refl, map, string_eq, filter, not, drop}
use file_space.Client.Endpoints.{field_name}
use file_space.Drive.Columns.{ColumnDef, create_columns, can_hide, can_sort, settings_columns}

-- The fields by which the server sorts.
abbrev pub sort_fields : List SortField
sort_fields =
    SortField.name ∷ SortField.created_at ∷ SortField.modified_at ∷ SortField.uploaded_by
    ∷ SortField.edited_by ∷ []

-- The ids of the columns that can be sorted by are, in the order of the columns, the names by which
-- the server sorts. The settings offer all columns but the name and the actions.
pub create_columns-fields :
    (map (λ (c : ColumnDef). c.id) (filter can_sort create_columns) ≡ map field_name sort_fields)
    × (map (λ (c : ColumnDef). c.id) (filter (λ c. not (can_hide c)) create_columns)
        ≡ "name" ∷ "actions" ∷ [])
    × (map (λ (c : ColumnDef). c.id) (settings_columns create_columns)
        ≡ map field_name (drop 1 sort_fields))
unfolding create_columns settings_columns
create_columns-fields = (refl, refl, refl)
